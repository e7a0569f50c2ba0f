-- ===== src/Examples/Drift.antt =====
-- A check that finds a table missing.
use langfuse_operator.Common.{
  pos, String, trim_space, true, false, not, map, none, some, List, [], ◌∷◌, ◌≡◌, refl,
}
use langfuse_operator.Api.{listed, find_in, Condition, Instance, InstanceStatus}
use langfuse_operator.Client.{found}
use langfuse_operator.Phase.{is_met}
use langfuse_operator.StatusWrite.{update_instance_status}
use langfuse_operator.SchemaDrift.Reconcile.{
  reconcile, send_status, drift_status, find_missing_tables, expected_click_house_tables,
}
use langfuse_operator.SchemaDrift.Tables.{drift_flag, all_in, reconcile-drift}
use langfuse_operator.Examples.Values.{differ, fresh, spec, click_house}

abbrev watched : Instance (List Condition)
watched = record fresh {
  spec = record spec {
    click_house = some (record click_house {
      schema_drift =
          some (record { enabled = true; check_interval_minutes = pos 5; auto_repair = false });
    });
  };
}

abbrev rows : List String
rows = "traces" ∷ " scores " ∷ "observations" ∷ []

abbrev after_check : InstanceStatus (List Condition)
after_check = drift_status listed watched (find_missing_tables (found rows))

run_check : (reconcile listed differ (found watched) (found rows) none).written ≡ some after_check
unfolding reconcile send_status update_instance_status
run_check = refl

reconcile-drift_example :
    let full = all_in expected_click_house_tables (map trim_space rows) in
    (is_met (find_in after_check.conditions "SchemaDriftChecked") ≡ full)
    × (drift_flag after_check.click_house ≡ some (not full))
reconcile-drift_example = reconcile-drift listed differ watched rows none refl refl run_check
