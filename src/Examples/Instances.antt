-- ===== src/Examples/Instances.antt =====
-- Passes of the instance controller over an instance that is to be deployed, and over one that moved.
use langfuse_operator.Common.{true, false, OnSome, none, some, List, [], ◌≡◌, refl, Option}
use langfuse_operator.Api.{listed, find_in, Condition, Instance, InstanceStatus}
use langfuse_operator.Client.{ApiError, found, failed}
use langfuse_operator.Phase.{phase_error, datastore_target, holds_false}
use langfuse_operator.StatusWrite.{update_instance_status}
use langfuse_operator.Config.Build.{build_config}
use langfuse_operator.Identity.Target.{migration_identity}
use langfuse_operator.Identity.Recorded.{
  identity_version, identity_component, refs_agree, migration_up_to_date, retargeted_components,
}
use langfuse_operator.Identity.Applied.{applied_migration_identity, legacy_baseline_identity}
use langfuse_operator.Migration.Parts.{run_on_deploy}
use langfuse_operator.Migration.Requests.{created}
use langfuse_operator.Migration.Reconcile.{reconcile as run_migration}
use langfuse_operator.Rollup.Published.{published}
use langfuse_operator.Rollup.Update.{update_status, write_back, observe, observed}
use langfuse_operator.Instances.Resources.{Resource}
use langfuse_operator.Instances.Apply.{Server}
use langfuse_operator.Instances.Reconcile.{
  Reads, moved_components, with_phase, freeze, reconcile, reconcile_alive,
}
use langfuse_operator.Instances.Planned.{planned, up_to_failure, all_work}
use langfuse_operator.Instances.Frozen.{reconcile_frozen}
use langfuse_operator.Instances.Applied.{reconcile_applied}
use langfuse_operator.Instances.Agreement.{Agrees, reconcile-Agrees}
use langfuse_operator.Instances.Together.{Moved, start, turn, instance_turn, Turns-frozen}
use langfuse_operator.Examples.Values.{database, differ, fresh, moved, no_job}
use langfuse_operator.Examples.Rollup.{up, gone}
use langfuse_operator.Examples.Migrations.{config}

abbrev no_answer : Resource → Option ApiError
no_answer r = none

abbrev pub server : Server
server = record {
  set_owner = no_answer;
  find_gvk = no_answer;
  patched = no_answer;
  removed = none;
  is_no_match = λ e. false;
  go_type = λ r. "";
}

abbrev pub reads : Reads
reads = record { web = found up; worker = failed gone; write = none }

moved-Moved : Moved listed moved
unfolding moved_components legacy_baseline_identity retargeted_components applied_migration_identity
    run_on_deploy migration_up_to_date identity_version migration_identity identity_component
    refs_agree
moved-Moved = record { alive = refl; recorded = refl; migrates = refl; due = refl; moved = refl }

-- What the first pass writes over it.
abbrev written_once : Option (InstanceStatus (List Condition)) → InstanceStatus (List Condition)
written_once none = moved.status
written_once (some st) = st

abbrev held : InstanceStatus (List Condition)
held = written_once (reconcile listed differ (found moved) server reads).written

run_hold : (reconcile listed differ (found moved) server reads).written ≡ some held
unfolding reconcile reconcile_alive with_phase moved_components retargeted_components
    applied_migration_identity identity_version migration_identity identity_component refs_agree
    freeze update_status write_back observe observed update_instance_status
run_hold = refl

Turns-frozen_example :
    ((reconcile listed differ (found (published listed moved held)) server reads).requests ≡ [])
    × (created ((run_migration listed differ (found (published listed moved held)) no_job).actions)
        ≡ none)
Turns-frozen_example =
    Turns-frozen listed differ moved (published listed moved held) server reads no_job moved-Moved
      (turn start (instance_turn server reads run_hold))

reconcile_applied_example :
    ((reconcile listed differ (found fresh) server reads).requests
      ≡ up_to_failure server (planned fresh config))
    × OnSome (reconcile listed differ (found fresh) server reads).written (λ st.
      (all_work server (planned fresh config) ≡ true)
      × (st.version ≡ "v3.1.0")
      × (st.public_url ≡ "https://langfuse.example.com")
      × (find_in st.conditions datastore_target ≡ none))
unfolding moved_components applied_migration_identity retargeted_components build_config
reconcile_applied_example = reconcile_applied listed differ fresh server reads config refl refl refl

reconcile_frozen_example :
    ((reconcile listed differ (found moved) server reads).requests ≡ [])
    × OnSome (reconcile listed differ (found moved) server reads).written (λ st.
      (st.phase ≡ phase_error)
      × (st.ready ≡ false)
      × (st.version ≡ "")
      × (st.public_url ≡ "")
      × (holds_false (find_in st.conditions datastore_target) ≡ true))
reconcile_frozen_example = reconcile_frozen listed differ moved server reads refl moved-Moved.moved

reconcile-Agrees_example :
    OnSome (reconcile listed differ (found fresh) server reads).written (Agrees listed fresh)
unfolding moved_components applied_migration_identity retargeted_components build_config
reconcile-Agrees_example = reconcile-Agrees listed differ fresh server reads refl refl

-- The instance was running when its spec came to ask for a PostgreSQL of the operator's.
abbrev unconfigured : Instance (List Condition)
unconfigured = record fresh {
  spec = record (fresh.spec) { database = some (record database { managed = true }) };
  status = record (fresh.status) { phase = "Running"; ready = true };
}
