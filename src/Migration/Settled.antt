-- ===== src/Migration/Settled.antt =====
-- After a migration was recorded.
use langfuse_operator.Common.{
  ◌==◌, Bool, false, not, none, [], ◌≡◌, refl, sym, ◌∙◌, arith, if◌then◌else◌,
}
use langfuse_operator.Api.{ConditionApi, Instance, InstanceStatus}
use langfuse_operator.Client.{found}
use langfuse_operator.Identity.Target.{migration_identity}
use langfuse_operator.Identity.Applied.{
  recorded_identity, applied_migration_identity, legacy_baseline_identity,
}
use langfuse_operator.Migration.Job.{Answers}
use langfuse_operator.Migration.Parts.{record_identity}
use langfuse_operator.Migration.Statuses.{migrated_status}
use langfuse_operator.Migration.Reconcile.{reconcile}
use langfuse_operator.Migration.Writes.{written}
use langfuse_operator.Identity.Target.{desired_target}
use langfuse_operator.Migration.Parts.{run_on_deploy, cleanup_completed_jobs, only_actions}
use langfuse_operator.Migration.Reconcile.{reconcile_instance, past_baseline}
use langfuse_operator.Migration.Requests.{created, created-cleanup}
use langfuse_operator.Migration.Writes.{written-cleanup}
use langfuse_operator.Migration.Reflexive.{
  migration_up_to_date_refl, build_migration_identity-nonempty,
}
use langfuse_operator.Client.{done}

module _ (api : ConditionApi) where
  open api use {Conditions}

  -- The instance with the status that a succeeded Job leaves.
  abbrev pub migrated : Instance Conditions → Instance Conditions
  migrated i = record i { status = migrated_status api i }

  migrated-identity :
      (i : Instance Conditions) → migration_identity (migrated i) ≡ migration_identity i
  unfolding migration_identity desired_target
  migrated-identity i = refl

  migrated-recorded :
      (i : Instance Conditions)
      → recorded_identity (migrated i).status.migration ≡ migration_identity i
  unfolding migrated_status record_identity recorded_identity
  migrated-recorded i = refl

  identity-nonempty : (i : Instance Conditions) → (migration_identity i == "") ≡ false
  unfolding migration_identity
  identity-nonempty i = build_migration_identity-nonempty (desired_target i)

  baseline-none :
      (i : Instance Conditions)
      → recorded_identity i.status.migration ≡ migration_identity i
      → legacy_baseline_identity i (migration_identity i) ≡ none
  unfolding legacy_baseline_identity
  baseline-none i e = rw (e, identity-nonempty i) refl

  applied-recorded :
      (i : Instance Conditions)
      → recorded_identity i.status.migration ≡ migration_identity i
      → applied_migration_identity i ≡ migration_identity i
  unfolding applied_migration_identity
  applied-recorded i e = rw (e, identity-nonempty i) refl

  module _ (equal : InstanceStatus Conditions → InstanceStatus Conditions → Bool) where
    settled-reconcile :
        (i : Instance Conditions) (ans : Answers)
        → recorded_identity i.status.migration ≡ migration_identity i
        → reconcile_instance api equal i ans ≡ (
            if i.deleting
            then only_actions [] done
            else if not (run_on_deploy i.spec.database)
            then only_actions [] done
            else cleanup_completed_jobs ans.job ans)
    unfolding reconcile_instance past_baseline
    settled-reconcile i ans e =
        let u = migration_up_to_date_refl (migration_identity i) (identity-nonempty i) in
        rw (baseline-none i e, applied-recorded i e, u) refl

    -- Once the identity that is recorded is the spec's own, a pass asks for no Job and writes no status.
    settled-rests :
        (i : Instance Conditions) (ans : Answers)
        → recorded_identity i.status.migration ≡ migration_identity i
        → (created ((reconcile api equal (found i) ans).actions) ≡ none)
          × (written ((reconcile api equal (found i) ans).actions) ≡ none)
    unfolding reconcile
    settled-rests i ans e =
        let c = created-cleanup Conditions ans.job ans in
        let w = written-cleanup Conditions ans.job ans in
        rw (settled-reconcile i ans e) (ground (arith, c), ground (arith, w))

    -- A pass over the status that a succeeded migration leaves, whatever the API server answers, asks for
    -- no Job and writes no status: a migration is not repeated.
    pub reconcile-migrated :
        (i : Instance Conditions) (ans : Answers)
        → (created ((reconcile api equal (found (migrated i)) ans).actions) ≡ none)
          × (written ((reconcile api equal (found (migrated i)) ans).actions) ≡ none)
    reconcile-migrated i ans =
        settled-rests (migrated i) ans (migrated-recorded i ∙ sym (migrated-identity i))
