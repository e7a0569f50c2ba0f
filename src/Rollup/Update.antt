-- ===== src/Rollup/Update.antt =====
-- updateStatus, podIssuesFor, phaseToReason and setDeprecationCondition.
use langfuse_operator.Common.{
  ℕ, ltb, leb, String, ◌==◌, ◌<>◌, join, Bool, true, false, ◌&&◌, is_some, Option, none, some, List,
  [], ◌∷◌, ◌++◌, only_if, if◌then◌else◌,
}
use langfuse_operator.Api.{
  ConditionApi, Condition, ConditionStatus, condition_true, condition_false, Instance,
  InstanceStatus, InstanceSpec, ComponentStatus, WorkerComponentStatus, new_worker_status, PodIssue,
  ClickHouseSpec, RedisSpec, ObservabilitySpec,
}
use langfuse_operator.Client.{ApiError, is_not_found, wrap, Got, found, failed}
use langfuse_operator.Pods.{Pod, collect_pod_issues}
use langfuse_operator.StatusWrite.{update_instance_status}
use langfuse_operator.Phase.{
  phase_running, phase_pending, phase_migrating, phase_degraded, phase_error, derive_phase,
}

unfoldable pub phase_to_reason : String → String
phase_to_reason phase =
    if phase == phase_running
    then "AllComponentsReady"
    else if phase == phase_pending
    then "ComponentsStarting"
    else if phase == phase_migrating
    then "MigrationInProgress"
    else if phase == phase_degraded
    then "ComponentDegraded"
    else if phase == phase_error
    then "ReconcileError"
    else "Unknown"

unfoldable pub bool_to_condition_status : Bool → ConditionStatus
bool_to_condition_status true = condition_true
bool_to_condition_status false = condition_false

abbrev pub managed_click_house : Option ClickHouseSpec → Bool
managed_click_house none = false
managed_click_house (some ch) = is_some ch.managed

abbrev pub managed_redis : Option RedisSpec → Bool
managed_redis none = false
managed_redis (some r) = r.managed

abbrev pub service_monitor : Option ObservabilitySpec → Bool
service_monitor none = false
service_monitor (some o) = o.service_monitor

unfoldable pub deprecated_fields : InstanceSpec → List String
deprecated_fields s =
    only_if (managed_click_house s.click_house) (
      "spec.clickhouse.managed (single-node, no replication or backups, unsuitable for production — use external: ClickHouse Cloud or the Altinity operator)"
      ∷ [])
    ++ (only_if (managed_redis s.redis) (
          "spec.redis.managed (single-node, no replication or backups, unsuitable for production — use external: a managed Redis service or a Redis operator)"
          ∷ [])
        ++ only_if (service_monitor s.observability) (
            "spec.observability.serviceMonitor (ignored: Langfuse serves no Prometheus endpoint, so the ServiceMonitor only ever pointed Prometheus at a JSON health route and reported the target down — use spec.observability.otel)"
            ∷ []))

-- A Deployment's status, and the answer to the List call of its pods.
pub record Workload : Type 0 where
  pub replicas : ℕ
  pub ready_replicas : ℕ
  pub pods : Got (List Pod)

-- A failed List call is only logged.
issues_or_none : Got (List Pod) → List PodIssue
issues_or_none (failed e) = []
issues_or_none (found pods) = collect_pod_issues pods

unfoldable pub pod_issues_for : Workload → List PodIssue
unfolding issues_or_none
pod_issues_for w =
    if ltb 0 w.ready_replicas && leb w.replicas w.ready_replicas then [] else issues_or_none w.pods

unfoldable pub web_status : String → String → Workload → ComponentStatus
web_status name namespace w = record {
  replicas = w.replicas;
  ready_replicas = w.ready_replicas;
  endpoint = "http://" <> name <> "-web." <> namespace <> ".svc:3000";
  issues = pod_issues_for w;
}

abbrev pub or_new_worker : Option WorkerComponentStatus → WorkerComponentStatus
or_new_worker none = new_worker_status
or_new_worker (some s) = s

-- In place: the circuit breaker owns the rest.
unfoldable pub worker_status : Option WorkerComponentStatus → Workload → WorkerComponentStatus
worker_status old w = record (or_new_worker old) {
  replicas = w.replicas;
  ready_replicas = w.ready_replicas;
  issues = pod_issues_for w;
}

-- What the Get of a Deployment does to the status: a missing one leaves it.
unfoldable pub observed {ℓ} : {S : Type ℓ} → String → (Workload → S) → S → Got Workload → Got S
observed what put old (found w) = found (put w)
observed what put old (failed e) =
    if is_not_found e.kind
    then found old
    else failed (wrap ("getting " <> what <> " deployment status") e)

module _ (api : ConditionApi) where
  open api use {Conditions, set, remove}

  unfoldable pub flag_deprecated : Conditions → ℕ → List String → Conditions
  unfolding join
  flag_deprecated cs generation [] = remove cs "Deprecated"
  flag_deprecated cs generation (f ∷ fs) = set cs (record {
    type = "Deprecated";
    status = condition_true;
    reason = "ManagedDatastoresDeprecated";
    message = "Deprecated fields in use, removal in 0.11.0: " <> join (f ∷ fs) "; ";
    observed_generation = generation;
  })

  unfoldable pub set_deprecation_condition : Instance Conditions → Conditions
  unfolding deprecated_fields flag_deprecated
  set_deprecation_condition i =
      flag_deprecated i.status.conditions i.generation (deprecated_fields i.spec)

  unfoldable pub with_web : Instance Conditions → Workload → Instance Conditions
  with_web i w = record i {
    status = record (i.status) { web = some (web_status i.name i.namespace w) };
  }

  unfoldable pub with_worker : Instance Conditions → Workload → Instance Conditions
  with_worker i w = record i {
    status = record (i.status) { worker = some (worker_status i.status.worker w) };
  }

  ready_condition : ℕ → String → Bool → Condition
  ready_condition generation phase ready = record {
    type = "Ready";
    status = bool_to_condition_status ready;
    reason = phase_to_reason phase;
    message = "Phase: " <> phase;
    observed_generation = generation;
  }

  -- The status behind the two reads. `applied` is workloadApplied.
  unfoldable pub rolled_up : Instance Conditions → Bool → InstanceStatus Conditions
  unfolding ready_condition bool_to_condition_status phase_to_reason derive_phase
  rolled_up i applied =
      let (phase, ready) = derive_phase api i in
      record (i.status) {
        phase = phase;
        ready = ready;
        version = if applied then i.spec.image_tag else i.status.version;
        public_url = if applied then i.spec.auth.next_auth_url else i.status.public_url;
        conditions = set i.status.conditions (ready_condition i.generation phase ready);
      }

  unfoldable pub observe :
      Instance Conditions → Got Workload → Got Workload → Got (Instance Conditions)
  unfolding observed
  observe i web worker = elim (observed "web" (with_web i) i web) [
    | failed e ↦ failed e
    | found j ↦ observed "worker" (with_worker j) j worker
  ]

  module _ (equal : InstanceStatus Conditions → InstanceStatus Conditions → Bool) where
    -- The status that is written, if any, and the error. `original` is what the server has.
    unfoldable pub write_back :
        InstanceStatus Conditions
        → Bool
        → Option ApiError
        → Got (Instance Conditions)
        → Option (InstanceStatus Conditions) × Option ApiError
    unfolding rolled_up
    write_back original applied answer (failed e) = (none, some e)
    write_back original applied answer (found j) =
        let status = rolled_up j applied in
        let (sent, error) = update_instance_status equal original status answer in
        (if sent then some status else none, error)

    unfoldable pub update_status :
        InstanceStatus Conditions
        → Instance Conditions
        → Got Workload
        → Got Workload
        → Bool
        → Option ApiError
        → Option (InstanceStatus Conditions) × Option ApiError
    unfolding write_back observe
    update_status original i web worker applied answer =
        write_back original applied answer (observe i web worker)
