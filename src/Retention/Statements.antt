-- ===== src/Retention/Statements.antt =====
-- buildRetentionStatements and applyRetention.
use langfuse_operator.Common.{
  ℕ, suc, ℤ, is_pos, show_ℤ, String, ◌<>◌, quoted, Option, none, some, List, [], ◌∷◌, ◌++◌, only_if,
  if◌then◌else◌,
}
use langfuse_operator.Api.{RetentionSpec, ClickHouseSpec, cluster_enabled}
use langfuse_operator.Client.{ApiError, wrap}

-- A table whose TTL is set and above zero; `on_cluster` stands behind the table's name.
unfoldable pub table_statement : String → String → String → Option ℤ → List String
unfolding show_ℤ
table_statement table column on_cluster none = []
table_statement table column on_cluster (some days) = only_if (is_pos days) (
    ("ALTER TABLE "
      <> table
      <> on_cluster
      <> " MODIFY TTL "
      <> column
      <> " + INTERVAL "
      <> show_ℤ days
      <> " DAY")
    ∷ [])

-- In the order of langfuseClickHouseTables; events has no entry in the spec.
unfoldable pub build_retention_statements_for : RetentionSpec → String → List String
unfolding table_statement
build_retention_statements_for r on_cluster =
    table_statement "traces" "timestamp" on_cluster r.traces
    ++ (table_statement "observations" "start_time" on_cluster r.observations
        ++ table_statement "scores" "timestamp" on_cluster r.scores)

unfoldable pub build_retention_statements : Option ClickHouseSpec → RetentionSpec → List String
unfolding build_retention_statements_for cluster_enabled
build_retention_statements ch r =
    build_retention_statements_for r (if cluster_enabled ch then " ON CLUSTER default" else "")

-- The loop of applyRetention: the statements that were sent, how many were applied, and the first error.
-- `exec` is the server's answer to a statement.
unfoldable pub apply_statements :
    (String → Option ApiError) → List String → ℕ → List String × ℕ × Option ApiError
unfolding quoted
apply_statements exec [] applied = ([], applied, none)
apply_statements exec (s ∷ rest) applied = elim (exec s) [
  | some e ↦ (s ∷ [], applied, some (wrap ("executing " <> quoted s) e))
  | none ↦
      let (sent, count, error) = apply_statements exec rest (suc applied) in
      (s ∷ sent, count, error)
]
