-- ===== src/Phase.antt =====
-- internal/controller/phase.go: the phase of an instance, derived from the published conditions.
pub mod Laws
use langfuse_operator.Common.{
  ℕ, String, ◌==◌, Bool, true, false, not, ◌&&◌, ◌||◌, Option, none, some, List, [], ◌∷◌, ltb,
  if◌then◌else◌,
}
use langfuse_operator.Api.{
  Condition, ConditionStatus, condition_true, condition_false, condition_unknown, ConditionApi,
  Instance, ComponentStatus, WorkerComponentStatus, MigrationStatus,
}
use langfuse_operator.Pods.{has_fatal_issue}

abbrev pub is_true : ConditionStatus → Bool
is_true condition_true = true
is_true condition_false = false
is_true condition_unknown = false

abbrev pub is_false : ConditionStatus → Bool
is_false condition_true = false
is_false condition_false = true
is_false condition_unknown = false

-- Whether a condition is reported as True.
abbrev pub is_met : Option Condition → Bool
is_met none = false
is_met (some c) = is_true c.status

-- phasePending and the others: the CRD's enum of phases.
abbrev pub phase_pending : String
phase_pending = "Pending"

abbrev pub phase_running : String
phase_running = "Running"

abbrev pub phase_migrating : String
phase_migrating = "Migrating"

abbrev pub phase_degraded : String
phase_degraded = "Degraded"

abbrev pub phase_error : String
phase_error = "Error"

abbrev pub migrations_complete : String
migrations_complete = "MigrationsComplete"

abbrev pub datastore_target : String
datastore_target = "DatastoreTargetUnchanged"

abbrev pub reason_migration_failed : String
reason_migration_failed = "MigrationFailed"

abbrev pub dependency_conditions : List String
dependency_conditions = "DatabaseReady" ∷ "ClickHouseReady" ∷ "RedisReady" ∷ "BlobStorageReady" ∷ []

has_ready_web : Option ComponentStatus → Bool
has_ready_web none = false
has_ready_web (some w) = ltb 0 w.ready_replicas

has_ready_worker : Option WorkerComponentStatus → Bool
has_ready_worker none = false
has_ready_worker (some w) = ltb 0 w.ready_replicas

web_fatal : Option ComponentStatus → Bool
web_fatal none = false
web_fatal (some w) = has_fatal_issue w.issues

worker_fatal : Option WorkerComponentStatus → Bool
worker_fatal none = false
worker_fatal (some w) = has_fatal_issue w.issues

migration_fatal : Option MigrationStatus → Bool
migration_fatal none = false
migration_fatal (some m) = has_fatal_issue m.issues

unfoldable pub holds_false : Option Condition → Bool
holds_false none = false
holds_false (some c) = is_false c.status

unfoldable pub running_condition : Option Condition → Bool
running_condition none = false
running_condition (some c) = is_false c.status && not (c.reason == reason_migration_failed)

unfoldable pub failed_condition : Option Condition → Bool
failed_condition none = false
failed_condition (some c) = is_false c.status && c.reason == reason_migration_failed

module _ (api : ConditionApi) where
  open api use {Conditions, find}

  -- The loop of dependencyHealth: `healthy` is `allHealthy` so far.
  unfoldable pub health_loop : Conditions → List String → Bool → Bool × Bool
  health_loop cs [] healthy = (false, healthy)
  health_loop cs (t ∷ ts) healthy =
      let missing = health_loop cs ts false in
      let good = health_loop cs ts healthy in
      elim (find cs t) [
        | none ↦ missing
        | some c ↦ if is_true c.status then good else (true, false)
      ]

  unfoldable pub dependency_health : Instance Conditions → Bool × Bool
  unfolding health_loop
  dependency_health i = health_loop i.status.conditions dependency_conditions true

  unfoldable pub components_ready : Instance Conditions → Bool
  unfolding has_ready_web has_ready_worker
  components_ready i = has_ready_web i.status.web && has_ready_worker i.status.worker

  unfoldable pub datastore_target_changed : Instance Conditions → Bool
  unfolding holds_false
  datastore_target_changed i = holds_false (find i.status.conditions datastore_target)

  unfoldable pub migration_running : Instance Conditions → Bool
  unfolding running_condition
  migration_running i = running_condition (find i.status.conditions migrations_complete)

  unfoldable pub migration_failed : Instance Conditions → Bool
  unfolding failed_condition
  migration_failed i = failed_condition (find i.status.conditions migrations_complete)

  -- instanceHasFatalPodIssue, of health_monitor.go
  unfoldable pub instance_has_fatal_pod_issue : Instance Conditions → Bool
  unfolding web_fatal worker_fatal migration_fatal
  instance_has_fatal_pod_issue i =
      if web_fatal i.status.web
      then true
      else if worker_fatal i.status.worker
      then true
      else migration_fatal i.status.migration

  -- The switch of derivePhase, in its order.
  unfoldable pub derive_phase : Instance Conditions → String × Bool
  derive_phase i =
      let (any_unhealthy, all_healthy) = dependency_health i in
      if datastore_target_changed i
      then (phase_error, false)
      else if migration_failed i || instance_has_fatal_pod_issue i
      then (phase_error, false)
      else if migration_running i
      then (phase_migrating, false)
      else if not (components_ready i)
      then (phase_pending, false)
      else if any_unhealthy
      then (phase_degraded, false)
      else if all_healthy
      then (phase_running, true)
      else (phase_pending, false)
