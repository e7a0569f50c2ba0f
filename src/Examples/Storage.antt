-- ===== src/Examples/Storage.antt =====
-- Two ClickHouse nodes, of which one is almost full, and a pass of which one statement is refused.
use langfuse_operator.Common.{
  OnSome, String, ◌==◌, Option, none, some, if◌then◌else◌, false, pos, true, List, [], ◌∷◌, any,
  ◌≡◌, ◌↔◌, refl, arith,
}
use langfuse_operator.Api.{
  listed, find_in, RetentionSpec, Instance, Condition, StoragePressureSpec, condition_true,
}
use langfuse_operator.Client.{ApiError, other, found}
use langfuse_operator.Phase.{is_met}
use langfuse_operator.Retention.Statements.{
  build_retention_statements, build_retention_statements_for, table_statement,
}
use langfuse_operator.Retention.Reconcile.{Answers, reconcile}
use langfuse_operator.Retention.Published.{sent_to, applied_flag, reconcile-retention}
use langfuse_operator.Examples.Values.{differ, fresh, spec, click_house}
use langfuse_operator.Retention.Disks.{
  NodeDiskUsage, summarize_disk_usage, pressure_reason, add_nodes, add_node,
}
use langfuse_operator.Retention.Fullest.{AllFit, full_to, pressure_reason_critical}

abbrev pressure : StoragePressureSpec
pressure = record {
  enabled = true;
  warning_threshold_percent = pos 70;
  critical_threshold_percent = pos 90;
}

abbrev nodes : List NodeDiskUsage
nodes =
    record { node = "ch-0"; used = 10; total = 100 }
    ∷ record { node = "ch-1"; used = 95; total = 100 }
    ∷ []

nodes-AllFit : AllFit nodes
nodes-AllFit = (
  record { product = omega arith; quotient = omega arith },
  (record { product = omega arith; quotient = omega arith }, tt),
)

pressure_reason_critical_example :
    (pressure_reason pressure (summarize_disk_usage nodes)
      ≡ (condition_true, "CriticalThresholdExceeded"))
    ↔ (any (full_to 90) nodes ≡ true)
unfolding summarize_disk_usage add_nodes add_node
pressure_reason_critical_example = pressure_reason_critical pressure nodes 89 nodes-AllFit refl refl

abbrev policy : RetentionSpec
policy = record {
  traces = some (pos 30);
  observations = none;
  scores = some (pos 90);
  storage_pressure = some pressure;
}

abbrev retaining : Instance (List Condition)
retaining = record fresh {
  spec = record spec { click_house = some (record click_house { retention = some policy }) };
}

-- Only the second statement is refused, and one of the disks' rows is short.
abbrev refuse_scores : String → Option ApiError
refuse_scores s =
    if s == "ALTER TABLE scores MODIFY TTL timestamp + INTERVAL 90 DAY"
    then some (record { kind = other; text = "no such table" })
    else none

abbrev answers : Answers
answers = record {
  connect = none;
  exec = refuse_scores;
  disks = found ("ch-0\t10\t100" ∷ "ch-1\t95" ∷ []);
  write = none;
}

reconcile-retention_example :
    let statements = build_retention_statements retaining.spec.click_house policy in
    ((reconcile listed differ (found retaining) answers).sent ≡ sent_to answers statements)
    × OnSome (reconcile listed differ (found retaining) answers).written (λ st.
      (is_met (find_in st.conditions "RetentionConfigured") ≡ false)
      × (applied_flag st.click_house ≡ some false))
unfolding build_retention_statements build_retention_statements_for table_statement
reconcile-retention_example =
    reconcile-retention listed differ retaining policy answers refl refl refl
