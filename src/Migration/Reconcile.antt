-- ===== src/Migration/Reconcile.antt =====
-- Reconcile of the migration controller: the order of its tests.
use langfuse_operator.Common.{
  ℕ, ltb, leb, String, ◌==◌, Bool, not, ◌&&◌, Option, none, some, [], Result, ok, err,
  if◌then◌else◌,
}
use langfuse_operator.Api.{ConditionApi, Instance, InstanceStatus}
use langfuse_operator.Client.{other, is_not_found, wrap, Got, found, failed, done, fail}
use langfuse_operator.Identity.Target.{migration_identity}
use langfuse_operator.Identity.Recorded.{migration_up_to_date, retargeted_components}
use langfuse_operator.Identity.Applied.{
  applied_migration_identity, legacy_baseline_identity, missing_click_house_migration_keys,
}
use langfuse_operator.Config.Env.{Config}
use langfuse_operator.Config.Build.{build_config}
use langfuse_operator.Migration.Job.{Job, Answers, Pass}
use langfuse_operator.Migration.Parts.{
  run_on_deploy, only_actions, replace_job, cleanup_completed_jobs, any_of, retarget_message,
  missing_message,
}
use langfuse_operator.Migration.Passes.{
  record_baseline, refuse, start_job, finish_job, give_up, keep_waiting,
}

module _ (api : ConditionApi) where
  open api use {Conditions}

  module _ (equal : InstanceStatus Conditions → InstanceStatus Conditions → Bool) where
    abbrev attempts : Option ℕ → ℕ
    attempts none = 3
    attempts (some n) = n

    -- What an existing Job means.
    unfoldable pub check_job : Instance Conditions → Job → Answers → Pass Conditions
    check_job i job ans =
        if not (job.identity == migration_identity i)
        then replace_job job ans
        else if ltb 0 job.succeeded
        then finish_job api equal i ans
        else if ltb 0 job.failed && leb (attempts job.backoff_limit) job.failed
        then give_up api equal i job ans
        else keep_waiting api equal i job ans

    -- `got` is the answer to the Get of the Job.
    unfoldable pub ensure_job : Instance Conditions → Config → Got Job → Answers → Pass Conditions
    unfolding only_actions
    ensure_job i config (found job) ans = check_job i job ans
    ensure_job i config (failed e) ans =
        if is_not_found e.kind
        then start_job api equal i config ans.owner ans
        else only_actions [] (fail (wrap "getting migration job" e))

    unfoldable pub configure : Instance Conditions → Result Config → Answers → Pass Conditions
    unfolding only_actions
    configure i (err e) ans =
        only_actions []
          (fail (wrap "building config for migration" (record { kind = other; text = e })))
    configure i (ok config) ans = ensure_job i config ans.job ans

    -- An instance that a migration is due for.
    unfoldable pub migrate : Instance Conditions → Answers → Pass Conditions
    unfolding only_actions
    migrate i ans =
        let moved = retargeted_components (applied_migration_identity i) (migration_identity i) in
        let missing = missing_click_house_migration_keys i.spec.click_house in
        if any_of moved
        then refuse api equal i (retarget_message moved) ans
        else if any_of missing
        then refuse api equal i (missing_message missing) ans
        else configure i (build_config i) ans

    -- Behind the baseline, which is there for an instance migrated before identities were recorded.
    unfoldable pub past_baseline : Instance Conditions → Option String → Answers → Pass Conditions
    unfolding only_actions
    past_baseline i (some baseline) ans = record_baseline api equal i baseline ans
    past_baseline i none ans =
        if not (run_on_deploy i.spec.database)
        then only_actions [] done
        else if migration_up_to_date (applied_migration_identity i) (migration_identity i)
        then cleanup_completed_jobs ans.job ans
        else migrate i ans

    unfoldable pub reconcile_instance : Instance Conditions → Answers → Pass Conditions
    unfolding only_actions
    reconcile_instance i ans =
        if i.deleting
        then only_actions [] done
        else past_baseline i (legacy_baseline_identity i (migration_identity i)) ans

    unfoldable pub reconcile : Got (Instance Conditions) → Answers → Pass Conditions
    unfolding only_actions
    reconcile (failed e) ans = only_actions [] (if is_not_found e.kind then done else fail e)
    reconcile (found i) ans = reconcile_instance i ans
