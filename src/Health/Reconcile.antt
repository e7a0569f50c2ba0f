-- ===== src/Health/Reconcile.antt =====
-- Reconcile of the health monitor, and the checks that it runs.
use langfuse_operator.Common.{
  ℕ, String, ◌==◌, ◌<>◌, decimal, ltb, leb, Bool, true, false, not, ◌&&◌, ◌||◌, Option, none, some,
  List, [], ◌∷◌, ◌++◌, if◌then◌else◌,
}
use langfuse_operator.Api.{
  ConditionApi, Condition, ConditionStatus, condition_true, condition_false, condition_unknown,
  BlobStorageSpec, Instance, InstanceStatus, PodIssue, new_database_status, new_click_house_status,
  new_component_status, new_worker_status,
}
use langfuse_operator.Client.{
  ApiError, is_not_found, wrap, Got, found, failed, Outcome, done, requeue_after, fail, Event,
}
use langfuse_operator.Phase.{is_false, migration_running}
use langfuse_operator.Pods.{Pod, collect_pod_issues, summarize_pod_issues}
use langfuse_operator.Rollup.Update.{Workload}
use langfuse_operator.StatusWrite.{update_instance_status, status_write_failed}

-- In seconds.
abbrev pub health_check_interval : ℕ
health_check_interval = 30

-- probeResult
pub record ProbeResult : Type 0 where
  pub connected : Bool
  pub reason : String
  pub message : String

-- What a pass reads: the probes, and the Deployments with their pods.
pub record Readings : Type 0 where
  pub database : ProbeResult
  pub click_house : ProbeResult
  pub redis : ProbeResult
  pub blob_storage : ProbeResult
  pub web : Got Workload
  pub worker : Got Workload

unfoldable pub condition_from_probe : String → ProbeResult → ℕ → Condition
condition_from_probe type res generation = record {
  type = type;
  status = if res.connected then condition_true else condition_false;
  reason = res.reason;
  message = res.message;
  observed_generation = generation;
}

-- Blob storage that is not configured counts as healthy.
unfoldable pub blob_result : Option BlobStorageSpec → ProbeResult → ProbeResult
blob_result none res = record {
  connected = true;
  reason = "NotConfigured";
  message = "Blob storage is not configured (using default)";
}
blob_result (some b) res = res

-- The condition of checkComponentDeployment less its type and generation, with the issues.
pub record Verdict : Type 0 where
  pub result : ProbeResult
  pub issues : List PodIssue

not_ready : String → Got (List Pod) → Verdict
not_ready summary (failed e) = record {
  result = record { connected = false; reason = "DeploymentNotReady"; message = summary };
  issues = [];
}
not_ready summary (found pods) =
    let issues = collect_pod_issues pods in
    let (reason, message) = summarize_pod_issues issues "DeploymentNotReady" summary in
    record {
      result = record { connected = false; reason = reason; message = message };
      issues = issues;
    }

unfoldable pub check_component_deployment : String → Got Workload → Verdict
unfolding not_ready
check_component_deployment component (failed e) = record {
  result =
      if is_not_found e.kind
      then record {
        connected = false;
        reason = "DeploymentNotFound";
        message = component <> " deployment does not exist";
      }
      else record {
        connected = false;
        reason = "FetchError";
        message = "Failed to check " <> component <> " deployment: " <> e.text;
      };
  issues = [];
}
check_component_deployment component (found w) =
    let summary =
      component
      <> " deployment has "
      <> decimal w.ready_replicas
      <> "/"
      <> decimal w.replicas
      <> " ready replicas" in
    if ltb 0 w.ready_replicas && leb w.replicas w.ready_replicas
    then record {
      result = record { connected = true; reason = "DeploymentReady"; message = summary };
      issues = [];
    }
    else not_ready summary w.pods

abbrev pub or_zero {ℓ} : {A : Type ℓ} → A → Option A → A
or_zero d none = d
or_zero d (some a) = a

abbrev status_text : ConditionStatus → String
status_text condition_true = "True"
status_text condition_false = "False"
status_text condition_unknown = "Unknown"

unfoldable pub condition_changed : Condition → Condition → Bool
condition_changed existing updated =
    not (status_text existing.status == status_text updated.status)
    || not (existing.reason == updated.reason)

-- The event of applyCondition, if any: a first report has none.
unfoldable pub change_event : Option Condition → Condition → List Event
unfolding condition_changed
change_event none c = []
change_event (some existing) c =
    if condition_changed existing c
    then record {
      type = if is_false c.status then "Warning" else "Normal";
      reason = c.reason;
      message = c.type <> ": " <> c.message;
    }
      ∷ []
    else []

module _ (api : ConditionApi) where
  open api use {Conditions, find, set}

  -- The instance's conditions and the events so far.
  unfoldable pub apply_condition : Conditions × List Event → Condition → Conditions × List Event
  unfolding change_event
  apply_condition (cs, es) c = (set cs c, es ++ change_event (find cs c.type) c)

  unfoldable pub check_all : Instance Conditions → Readings → Conditions × List Event
  unfolding condition_from_probe blob_result check_component_deployment apply_condition
  check_all i r =
      let n = i.generation in
      let web = check_component_deployment "web" r.web in
      let worker = check_component_deployment "worker" r.worker in
      let blob = blob_result i.spec.blob_storage r.blob_storage in
      let s0 : Conditions × List Event = (i.status.conditions, []) in
      let s1 = apply_condition s0 (condition_from_probe "DatabaseReady" r.database n) in
      let s2 = apply_condition s1 (condition_from_probe "ClickHouseReady" r.click_house n) in
      let s3 = apply_condition s2 (condition_from_probe "RedisReady" r.redis n) in
      let s4 = apply_condition s3 (condition_from_probe "BlobStorageReady" blob n) in
      let s5 = apply_condition s4 (condition_from_probe "WebReady" web.result n) in
      apply_condition s5 (condition_from_probe "WorkerReady" worker.result n)

  -- The probes are mirrored into the status; without blob storage its part stays.
  blob_mirror :
      Option BlobStorageSpec → Option (Option Bool × String) → Bool → Option (Option Bool × String)
  blob_mirror none old connected = old
  blob_mirror (some b) old connected = some (some connected, b.provider)

  unfoldable pub health_status : Instance Conditions → Readings → InstanceStatus Conditions
  unfolding check_all blob_mirror
  health_status i r = record (i.status) {
    database = some (record (or_zero new_database_status i.status.database) {
      connected = some r.database.connected;
    });
    click_house = some (record (or_zero new_click_house_status i.status.click_house) {
      connected = some r.click_house.connected;
    });
    redis = some (some r.redis.connected);
    blob_storage = blob_mirror i.spec.blob_storage i.status.blob_storage r.blob_storage.connected;
    web = some (record (or_zero new_component_status i.status.web) {
      issues = (check_component_deployment "web" r.web).issues;
    });
    worker = some (record (or_zero new_worker_status i.status.worker) {
      issues = (check_component_deployment "worker" r.worker).issues;
    });
    conditions = (check_all i r).0;
  }

  pub record HealthPass : Type 0 where
    pub written : Option (InstanceStatus Conditions)
    pub events : List Event
    pub outcome : Outcome

  module _ (equal : InstanceStatus Conditions → InstanceStatus Conditions → Bool) where
    -- `answer` is that to the status update.
    unfoldable pub reconcile : Got (Instance Conditions) → Readings → Option ApiError → HealthPass
    unfolding health_status
    reconcile (failed e) r answer = record {
      written = none;
      events = [];
      outcome = if is_not_found e.kind then done else fail (wrap "fetching LangfuseInstance" e);
    }
    reconcile (found i) r answer =
        let status = health_status i r in
        let (sent, error) = update_instance_status equal i.status status answer in
        if i.deleting
        then record { written = none; events = []; outcome = done }
        else if migration_running api i
        then record { written = none; events = []; outcome = requeue_after health_check_interval }
        else record {
          written = if sent then some status else none;
          events = (check_all i r).1;
          outcome = elim error [
            | some e ↦ status_write_failed e "updating health status"
            | none ↦ requeue_after health_check_interval
          ];
        }
