-- ===== src/Examples/Phases.antt =====
-- Pods and phases.
use langfuse_operator.Common.{true, false, none, List, [], ◌∷◌, ◌≡◌, ◌↔◌}
use langfuse_operator.Api.{listed, Condition, Instance}
use langfuse_operator.Pods.{collect_pod_issues, all_pod_issues, has_fatal_issue}
use langfuse_operator.Pods.Laws.{has_fatal-collect}
use langfuse_operator.Phase.{
  derive_phase, dependency_conditions, phase_running, datastore_target_changed, migration_failed,
  migration_running, instance_has_fatal_pod_issue, components_ready,
}
use langfuse_operator.Phase.Laws.{derive_phase-running, AllTrue}
use langfuse_operator.Examples.Values.{instance_with, met, broken_pod}

has_fatal-collect_example :
    has_fatal_issue (collect_pod_issues (broken_pod ∷ []))
    ≡ has_fatal_issue (all_pod_issues (broken_pod ∷ []))
has_fatal-collect_example = has_fatal-collect (broken_pod ∷ [])

abbrev healthy : Instance (List Condition)
healthy =
    instance_with
      (met "ClickHouseReady" ∷ met "DatabaseReady" ∷ met "RedisReady" ∷ met "BlobStorageReady" ∷ [])
      none

derive_phase-running_example : (derive_phase listed healthy ≡ (phase_running, true)) ↔ (
    (datastore_target_changed listed healthy ≡ false)
    × (migration_failed listed healthy ≡ false)
    × (instance_has_fatal_pod_issue listed healthy ≡ false)
    × (migration_running listed healthy ≡ false)
    × (components_ready listed healthy ≡ true)
    × AllTrue listed healthy.status.conditions dependency_conditions)
derive_phase-running_example = derive_phase-running listed healthy
