-- ===== src/SchemaDrift/Reconcile.antt =====
-- findMissingTables and Reconcile of the schema drift controller.
use langfuse_operator.Common.{
  ℕ, ◌*◌, is_pos, to_ℕ, String, ◌<>◌, join, trim_space, quoted, decimal, Bool, true, false, not,
  contains, only_if, map, length, Option, none, some, List, [], ◌∷◌, ◌++◌, if◌then◌else◌,
}
use langfuse_operator.Api.{
  ConditionApi, Condition, ConditionStatus, condition_true, condition_false, condition_unknown,
  ClickHouseSpec, SchemaDriftSpec, ClickHouseStatus, Instance, InstanceStatus,
  new_click_house_status,
}
use langfuse_operator.Client.{
  ApiError, is_not_found, wrap, Got, found, failed, Outcome, done, requeue_after, fail,
}
use langfuse_operator.StatusWrite.{update_instance_status, status_write_failed}
use langfuse_operator.Identity.Target.{click_house_database}

abbrev pub expected_click_house_tables : List String
expected_click_house_tables = "traces" ∷ "observations" ∷ "scores" ∷ "schema_migrations" ∷ []

-- The loop over the expected tables; `present` are the rows of the answer, trimmed.
unfoldable pub missing_of : List String → List String → List String
missing_of [] present = []
missing_of (table ∷ tables) present =
    only_if (not (contains table present)) (table ∷ []) ++ missing_of tables present

unfoldable pub find_missing_tables : Got (List String) → Got (List String)
unfolding missing_of trim_space
find_missing_tables (failed e) = failed e
find_missing_tables (found rows) =
    found (missing_of expected_click_house_tables (map trim_space rows))

abbrev pub drift_of : Option ClickHouseSpec → Option SchemaDriftSpec
drift_of none = none
drift_of (some ch) = ch.schema_drift

-- In minutes; defaultSchemaDriftCheckIntervalMinutes where none is set.
unfoldable pub check_interval : Option SchemaDriftSpec → ℕ
check_interval none = 60
check_interval (some d) =
    if is_pos d.check_interval_minutes then to_ℕ d.check_interval_minutes else 60

abbrev pub is_enabled : Option SchemaDriftSpec → Bool
is_enabled none = false
is_enabled (some d) = d.enabled

abbrev auto_repairs : Option SchemaDriftSpec → Bool
auto_repairs none = false
auto_repairs (some d) = d.auto_repair

abbrev pub or_new : Option ClickHouseStatus → ClickHouseStatus
or_new none = new_click_house_status
or_new (some s) = s

pub record DriftPass (C : Type 0) : Type 0 where
  pub written : Option (InstanceStatus C)
  pub outcome : Outcome

module _ (api : ConditionApi) where
  open api use {Conditions, set}

  drift_condition : ℕ → ConditionStatus → String → String → Condition
  drift_condition generation status reason message = record {
    type = "SchemaDriftChecked";
    status = status;
    reason = reason;
    message = message;
    observed_generation = generation;
  }

  -- The status with the condition and with the drift flag, where the check told.
  unfoldable pub checked :
      Instance Conditions
      → Option Bool
      → ConditionStatus
      → String
      → String
      → InstanceStatus Conditions
  unfolding drift_condition
  checked i drift status reason message =
      let ch = or_new i.status.click_house in
      record (i.status) {
        click_house =
            some (elim drift [ none ↦ ch | some b ↦ record ch { schema_drift = some b } ]);
        conditions = set i.status.conditions (drift_condition i.generation status reason message);
      }

  repair_note : Bool → String
  repair_note true =
      " autoRepair cannot fix this — Langfuse owns its schema; check that migrations completed."
  repair_note false = ""

  -- The status behind a check, by the answer.
  unfoldable pub drift_status : Instance Conditions → Got (List String) → InstanceStatus Conditions
  unfolding checked repair_note join quoted check_interval
  drift_status i (failed e) =
      checked i none condition_unknown "CheckFailed"
        ("Cannot inspect ClickHouse schema: " <> e.text)
  drift_status i (found []) = checked i (some false) condition_true "NoDriftDetected" (
      "All "
      <> decimal (length expected_click_house_tables)
      <> " expected Langfuse tables present in database "
      <> quoted (click_house_database i.spec.click_house)
      <> " (next check in "
      <> decimal (check_interval (drift_of i.spec.click_house))
      <> "m)")
  drift_status i (found (t ∷ ts)) = checked i (some true) condition_false "TablesMissing" (
      "Expected Langfuse tables missing from ClickHouse database "
      <> quoted (click_house_database i.spec.click_house)
      <> ": "
      <> join (t ∷ ts) ", "
      <> "."
      <> repair_note (auto_repairs (drift_of i.spec.click_house)))

  unfoldable pub disabled_status : Instance Conditions → InstanceStatus Conditions
  unfolding drift_condition
  disabled_status i = record (i.status) {
    conditions = set i.status.conditions (
        drift_condition i.generation condition_false "Disabled"
          "Schema drift detection is disabled");
  }

  module _ (equal : InstanceStatus Conditions → InstanceStatus Conditions → Bool) where
    unfoldable pub send_status :
        Instance Conditions → InstanceStatus Conditions → Option ApiError → ℕ → DriftPass Conditions
    send_status i status answer seconds =
        let (sent, error) = update_instance_status equal i.status status answer in
        record {
          written = if sent then some status else none;
          outcome = elim error [
            | some e ↦ status_write_failed e "updating schema drift status"
            | none ↦ requeue_after seconds
          ];
        }

    -- `rows` is the answer to the query of the tables, `answer` that to the status update.
    unfoldable pub reconcile :
        Got (Instance Conditions) → Got (List String) → Option ApiError → DriftPass Conditions
    unfolding send_status disabled_status drift_status find_missing_tables
    reconcile (failed e) rows answer = record {
      written = none;
      outcome = if is_not_found e.kind then done else fail (wrap "fetching LangfuseInstance" e);
    }
    reconcile (found i) rows answer =
        let drift = drift_of i.spec.click_house in
        let seconds = check_interval drift * 60 in
        if i.deleting
        then record { written = none; outcome = done }
        else if not (is_enabled drift)
        then send_status i (disabled_status i) answer seconds
        else send_status i (drift_status i (find_missing_tables rows)) answer seconds
