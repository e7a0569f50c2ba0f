-- ===== src/Examples/Migrations.antt =====
-- Passes of the migration controller over an instance that was never migrated, and over one that moved.
use langfuse_operator.Common.{
  OnSome, ◌==◌, true, false, none, some, [], ◌≡◌, ◌≢◌, ◌⊎◌, refl, ap, Result, ok,
}
use langfuse_operator.Api.{listed}
use langfuse_operator.Client.{found}
use langfuse_operator.Phase.{derive_phase, phase_error}
use langfuse_operator.Config.Env.{Config}
use langfuse_operator.Config.Build.{build_config}
use langfuse_operator.Identity.Target.{migration_identity}
use langfuse_operator.Identity.Recorded.{
  migration_up_to_date, retargeted_components, identity_version, identity_component, refs_agree,
}
use langfuse_operator.Identity.Applied.{
  recorded_identity, applied_migration_identity, legacy_baseline_identity,
  missing_click_house_migration_keys,
}
use langfuse_operator.Migration.Job.{Answers}
use langfuse_operator.Migration.Reconcile.{
  reconcile, reconcile_instance, past_baseline, migrate, configure, ensure_job, check_job,
}
use langfuse_operator.Migration.Parts.{run_on_deploy, record_identity}
use langfuse_operator.Migration.Passes.{start_job, finish_job, publish}
use langfuse_operator.StatusWrite.{update_instance_status}
use langfuse_operator.Migration.Statuses.{migrated_status}
use langfuse_operator.Migration.Requests.{created, is_absent}
use langfuse_operator.Migration.Creation.{reconcile-creates, IsDue}
use langfuse_operator.Migration.Writes.{written}
use langfuse_operator.Migration.Credit.{reconcile-credits, Succeeded}
use langfuse_operator.Migration.Frame.{reconcile-keeps, KeepsOthers}
use langfuse_operator.Migration.Settled.{migrated, reconcile-migrated}
use langfuse_operator.Migration.Refusal.{reconcile_retargeted}
use langfuse_operator.Examples.Values.{differ, fresh, moved, no_job, answers}

-- The Config of the instance.
abbrev pub config_of : Result Config → Config
config_of (ok c) = c
config_of (Result.err e) = record {
  common_env = [];
  web_env = [];
  worker_env = [];
  volumes = [];
  volume_mounts = [];
}

abbrev pub config : Config
config = config_of (build_config fresh)

run_start :
    created ((reconcile listed differ (found fresh) no_job).actions)
    ≡ some (migration_identity fresh, config)
unfolding reconcile reconcile_instance past_baseline legacy_baseline_identity
    applied_migration_identity run_on_deploy migration_up_to_date migrate retargeted_components
    missing_click_house_migration_keys configure build_config ensure_job check_job start_job
    finish_job publish update_instance_status migration_identity
run_start = refl

reconcile-creates_example :
    IsDue fresh
    × (migration_identity fresh ≡ migration_identity fresh)
    × (build_config fresh ≡ ok config)
    × (is_absent no_job.job ≡ true)
reconcile-creates_example = reconcile-creates listed differ fresh no_job run_start

abbrev succeeded : Answers
succeeded = answers (
    found (record {
      identity = migration_identity fresh;
      deleting = false;
      succeeded = 1;
      failed = 0;
      backoff_limit = none;
      finished_for = none;
    }))

run_credit :
    written ((reconcile listed differ (found fresh) succeeded).actions)
    ≡ some (migrated_status listed fresh)
unfolding reconcile reconcile_instance past_baseline legacy_baseline_identity
    applied_migration_identity run_on_deploy migration_up_to_date migrate retargeted_components
    missing_click_house_migration_keys configure build_config ensure_job check_job start_job
    finish_job publish update_instance_status migration_identity
run_credit = refl

reconcile-keeps_example : KeepsOthers listed fresh.status (migrated_status listed fresh)
reconcile-keeps_example = reconcile-keeps listed differ fresh succeeded run_credit

unrecorded :
    recorded_identity ((migrated_status listed fresh).migration)
    ≢ recorded_identity fresh.status.migration
unfolding recorded_identity migrated_status record_identity migration_identity
unrecorded e = let p : false ≡ true = ap (λ t. t == "") e in cc p

reconcile-credits_example :
    (recorded_identity ((migrated_status listed fresh).migration) ≡ migration_identity fresh)
    × ((migration_up_to_date (applied_migration_identity fresh) (migration_identity fresh) ≡ true)
        ⊎ Succeeded succeeded.job (migration_identity fresh))
reconcile-credits_example = reconcile-credits listed differ fresh succeeded run_credit unrecorded

reconcile-migrated_example :
    (created ((reconcile listed differ (found (migrated listed fresh)) no_job).actions) ≡ none)
    × (written ((reconcile listed differ (found (migrated listed fresh)) no_job).actions) ≡ none)
reconcile-migrated_example = reconcile-migrated listed differ fresh no_job

reconcile_retargeted_example :
    (created ((reconcile listed differ (found moved) no_job).actions) ≡ none)
    × OnSome
        (written ((reconcile listed differ (found moved) no_job).actions))
        (λ s. derive_phase listed (record moved { status = s }) ≡ (phase_error, false))
unfolding legacy_baseline_identity retargeted_components applied_migration_identity run_on_deploy
    migration_up_to_date identity_version migration_identity identity_component refs_agree
reconcile_retargeted_example =
    reconcile_retargeted listed differ moved no_job refl refl refl refl refl
