-- ===== src/Retention/Rows.antt =====
-- queryDiskUsage: the rows that ClickHouse answers with, one node each.
use langfuse_operator.Common.{
  ℕ, ◌+◌, ◌-◌, ◌*◌, ◌^◌, ltb, leb, String, ◌<>◌, split, trim_space, quoted, Bool, ◌&&◌, List, [],
  ◌∷◌, Result, ok, err, ◌>>=◌, if◌then◌else◌,
}
use Prim.Native.Char.{code}
use langfuse_operator.Client.{other, Got, found, failed}
use langfuse_operator.Retention.Disks.{NodeDiskUsage}

-- The digits of strconv.ParseUint behind the first; `whole` is the text that its errors name.
parse_digits : String → String → ℕ → Result ℕ
unfolding quoted
parse_digits whole String.[] n = ok n
parse_digits whole (String.◌∷◌ c s) n =
    let next = n * 10 + (code c - 48) in
    let rest = parse_digits whole s next in
    if leb 48 (code c) && leb (code c) 57
    then (if ltb next (2 ^ 64)
        then rest
        else err ("strconv.ParseUint: parsing " <> (quoted whole <> ": value out of range")))
    else err ("strconv.ParseUint: parsing " <> (quoted whole <> ": invalid syntax"))

-- strconv.ParseUint(s, 10, 64)
unfoldable pub parse_uint : String → Result ℕ
unfolding parse_digits quoted
parse_uint String.[] = err "strconv.ParseUint: parsing \"\": invalid syntax"
parse_uint (String.◌∷◌ c s) = parse_digits (String.◌∷◌ c s) (String.◌∷◌ c s) 0

-- fmt.Errorf("what: %w", err)
abbrev in_context : {A : Type 0} → String → Result A → Result A
in_context what (ok a) = ok a
in_context what (err e) = err (what <> (": " <> e))

parse_fields : String → String → List String → Result NodeDiskUsage
unfolding parse_uint trim_space quoted
parse_fields source row (node ∷ used ∷ total ∷ []) = do
  u ← in_context "parsing used bytes" (parse_uint (trim_space used))
  t ← in_context "parsing total bytes" (parse_uint (trim_space total))
  ok (record { node = trim_space node; used = u; total = t })
parse_fields source row _ = err ("unexpected " <> (source <> (" response " <> quoted row)))

-- A row has its fields between tabulators.
unfoldable pub parse_row : String → String → Result NodeDiskUsage
unfolding parse_fields split
parse_row source row = parse_fields source row (split 9 row)

unfoldable pub parse_rows : String → List String → Result (List NodeDiskUsage)
unfolding parse_row
parse_rows source [] = ok []
parse_rows source (row ∷ rows) = do
  node ← parse_row source row
  nodes ← parse_rows source rows
  ok (node ∷ nodes)

unfoldable pub disks_source : Bool → String
disks_source clustered =
    if clustered then "clusterAllReplicas('default', system.disks)" else "system.disks"

or_failed : {A : Type 0} → Result A → Got A
or_failed (ok a) = found a
or_failed (err e) = failed (record { kind = other; text = e })

-- `rows` is the answer of the client, or the error of making one.
unfoldable pub query_disk_usage : Bool → Got (List String) → Got (List NodeDiskUsage)
unfolding parse_rows disks_source or_failed
query_disk_usage clustered (failed e) = failed e
query_disk_usage clustered (found []) =
    failed (record { kind = other; text = disks_source clustered <> " returned no rows" })
query_disk_usage clustered (found (row ∷ rows)) =
    or_failed (parse_rows (disks_source clustered) (row ∷ rows))
