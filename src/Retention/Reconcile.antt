-- ===== src/Retention/Reconcile.antt =====
-- evaluateStoragePressure and Reconcile of the retention controller.
use langfuse_operator.Common.{
  ℕ, String, ◌<>◌, decimal, length, Bool, not, is_some, is_empty, eqb, Option, none, some, List, [],
  if◌then◌else◌,
}
use langfuse_operator.Api.{
  ConditionApi, Condition, ConditionStatus, condition_true, condition_false, condition_unknown,
  ClickHouseSpec, RetentionSpec, StoragePressureSpec, Instance, InstanceStatus, cluster_enabled,
}
use langfuse_operator.Client.{
  ApiError, is_not_found, wrap, Got, found, failed, Outcome, done, requeue_after, fail,
}
use langfuse_operator.StatusWrite.{update_instance_status, status_write_failed}
use langfuse_operator.SchemaDrift.Reconcile.{or_new}
use langfuse_operator.Retention.Statements.{build_retention_statements, apply_statements}
use langfuse_operator.Retention.Disks.{
  NodeDiskUsage, DiskUsage, summarize_disk_usage, pressure_reason,
}
use langfuse_operator.Retention.Size.{humanize_bytes, summary}
use langfuse_operator.Retention.Rows.{query_disk_usage}

-- What ClickHouse and the API server answer: the error of making a client, the answers to the statements, the
-- answer to the query of the disks (or the error of making the client for it), and that to the status write.
pub record Answers : Type 0 where
  pub connect : Option ApiError
  pub exec : String → Option ApiError
  pub disks : Got (List String)
  pub write : Option ApiError

pub record RetentionPass (C : Type 0) : Type 0 where
  pub sent : List String
  pub written : Option (InstanceStatus C)
  pub outcome : Outcome

-- retentionRequeueInterval, in seconds.
abbrev pub retention_requeue_interval : ℕ
retention_requeue_interval = 300

-- The client is made first; without it nothing is sent.
unfoldable pub apply_retention :
    Option ApiError → (String → Option ApiError) → List String → List String × ℕ × Option ApiError
unfolding apply_statements
apply_retention (some e) exec statements = ([], 0, some e)
apply_retention none exec statements = apply_statements exec statements 0

abbrev pub retention_of : Option ClickHouseSpec → Option RetentionSpec
retention_of none = none
retention_of (some ch) = ch.retention

module _ (api : ConditionApi) where
  open api use {Conditions, set}

  condition : String → ℕ → ConditionStatus → String → String → Condition
  condition type generation status reason message = record {
    type = type;
    status = status;
    reason = reason;
    message = message;
    observed_generation = generation;
  }

  unfoldable pub with_condition :
      InstanceStatus Conditions
      → String
      → ℕ
      → ConditionStatus
      → String
      → String
      → InstanceStatus Conditions
  unfolding condition
  with_condition s type generation status reason message = record s {
    conditions = set s.conditions (condition type generation status reason message);
  }

  -- What the answers to the statements make of the status; `total` is their number.
  unfoldable pub applied_status :
      InstanceStatus Conditions → ℕ → ℕ → ℕ → Option ApiError → InstanceStatus Conditions
  unfolding with_condition decimal
  applied_status s generation total applied error =
      let flagged = record s {
        click_house =
            some (record (or_new s.click_house) { retention_applied = some (not (is_some error)) });
      } in
      elim error [
        | some e ↦
            with_condition flagged "RetentionConfigured" generation condition_false "ApplyFailed" (
              "Applied "
              <> (decimal applied
                  <> ("/" <> (decimal total <> (" retention TTL statements: " <> e.text)))))
        | none ↦
            with_condition flagged "RetentionConfigured" generation condition_true "PoliciesApplied"
              ("Applied " <> (decimal applied <> " retention TTL statements"))
      ]

  -- Step 3, with the statements that were sent.
  unfoldable pub apply_step :
      InstanceStatus Conditions
      → ℕ
      → List String
      → Answers
      → List String × InstanceStatus Conditions
  unfolding with_condition applied_status apply_retention
  apply_step s generation statements ans =
      let (sent, applied, error) = apply_retention ans.connect ans.exec statements in
      if is_empty statements
      then (
        [],
        with_condition s "RetentionConfigured" generation condition_false "NoTTLConfigured"
            "Retention spec present but no table TTLs configured",
      )
      else (sent, applied_status s generation (length statements) applied error)

  -- The condition of the disks that were read.
  unfoldable pub pressure_status :
      InstanceStatus Conditions → ℕ → StoragePressureSpec → DiskUsage → InstanceStatus Conditions
  unfolding with_condition pressure_reason humanize_bytes summary
  pressure_status s generation p usage =
      let (status, reason) = pressure_reason p usage in
      with_condition
        (record s {
          click_house = some (record (or_new s.click_house) {
            storage_used = humanize_bytes usage.used;
            storage_total = humanize_bytes usage.total;
          });
        })
        "StoragePressure" generation status reason
        (if eqb usage.total 0
          then "ClickHouse reported zero total disk capacity"
          else summary usage p.warning_threshold_percent p.critical_threshold_percent)

  unfoldable pub evaluate_storage_pressure :
      InstanceStatus Conditions
      → ℕ
      → StoragePressureSpec
      → Got (List NodeDiskUsage)
      → InstanceStatus Conditions
  unfolding with_condition pressure_status summarize_disk_usage
  evaluate_storage_pressure s generation p (failed e) =
      with_condition s "StoragePressure" generation condition_unknown "QueryFailed"
        ("Cannot read ClickHouse disk usage: " <> e.text)
  evaluate_storage_pressure s generation p (found nodes) =
      pressure_status s generation p (summarize_disk_usage nodes)

  -- Step 4.
  unfoldable pub pressure_step :
      InstanceStatus Conditions
      → ℕ
      → Option StoragePressureSpec
      → Got (List NodeDiskUsage)
      → InstanceStatus Conditions
  unfolding evaluate_storage_pressure
  pressure_step s generation none disks = s
  pressure_step s generation (some p) disks =
      if p.enabled then evaluate_storage_pressure s generation p disks else s

  -- The statements that a pass sends and the status that it computes.
  unfoldable pub retained :
      Instance Conditions → Option RetentionSpec → Answers → List String × InstanceStatus Conditions
  unfolding with_condition apply_step pressure_step build_retention_statements query_disk_usage
  retained i none ans = (
    [],
    with_condition i.status "RetentionConfigured" i.generation condition_false "NotConfigured"
        "No ClickHouse retention policy configured",
  )
  retained i (some r) ans =
      let statements = build_retention_statements i.spec.click_house r in
      let (sent, status) = apply_step i.status i.generation statements ans in
      (
        sent,
        pressure_step status i.generation r.storage_pressure
            (query_disk_usage (cluster_enabled i.spec.click_house) ans.disks),
      )

  module _ (equal : InstanceStatus Conditions → InstanceStatus Conditions → Bool) where
    unfoldable pub publish :
        Instance Conditions
        → List String × InstanceStatus Conditions
        → Option ApiError
        → RetentionPass Conditions
    unfolding update_instance_status status_write_failed
    publish i (sent, status) answer =
        let (wrote, error) = update_instance_status equal i.status status answer in
        record {
          sent = sent;
          written = if wrote then some status else none;
          outcome = elim error [
            | some e ↦ status_write_failed e "updating retention status"
            | none ↦ requeue_after retention_requeue_interval
          ];
        }

    unfoldable pub reconcile : Got (Instance Conditions) → Answers → RetentionPass Conditions
    unfolding publish retained
    reconcile (failed e) ans = record {
      sent = [];
      written = none;
      outcome = if is_not_found e.kind then done else fail (wrap "fetching LangfuseInstance" e);
    }
    reconcile (found i) ans =
        if i.deleting
        then record { sent = []; written = none; outcome = done }
        else publish i (retained i (retention_of i.spec.click_house) ans) ans.write
