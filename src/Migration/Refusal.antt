-- ===== src/Migration/Refusal.antt =====
-- A spec that moved a migrated instance to another datastore.
use langfuse_operator.Common.{
  OnSome, on_some, String, Bool, true, false, none, some, ◌≡◌, refl, ap, arith,
}
use langfuse_operator.Api.{ConditionApi, condition_false, Instance, InstanceStatus}
use langfuse_operator.Client.{found}
use langfuse_operator.Phase.{
  migrations_complete, reason_migration_failed, phase_error, derive_phase, migration_failed,
  failed_condition,
}
use langfuse_operator.Identity.Target.{migration_identity}
use langfuse_operator.Identity.Recorded.{migration_up_to_date, retargeted_components}
use langfuse_operator.Identity.Applied.{applied_migration_identity, legacy_baseline_identity}
use langfuse_operator.Migration.Job.{Answers}
use langfuse_operator.Migration.Parts.{any_of, retarget_message, run_on_deploy}
use langfuse_operator.Migration.Statuses.{set_migrations}
use langfuse_operator.Migration.Passes.{refuse}
use langfuse_operator.Migration.Reconcile.{reconcile, reconcile_instance, past_baseline, migrate}
use langfuse_operator.Migration.Requests.{created, created-refuse}
use langfuse_operator.Migration.Writes.{written, written-publish}

module _ (api : ConditionApi) where
  open api use {Conditions, find}

  refused_status-failed :
      (i : Instance Conditions) (m : String)
      → migration_failed api (record i {
        status = set_migrations api i condition_false reason_migration_failed m i.status;
      })
        ≡ true
  unfolding migration_failed set_migrations failed_condition
  refused_status-failed i m = rw (api.find-set i.status.conditions _ migrations_complete) refl

  refused_status-phase :
      (i : Instance Conditions) (m : String) {s : InstanceStatus Conditions}
      → s ≡ set_migrations api i condition_false reason_migration_failed m i.status
      → derive_phase api (record i { status = s }) ≡ (phase_error, false)
  unfolding derive_phase
  refused_status-phase i m p = rw p (ground (arith, refused_status-failed i m))

  module _ (equal : InstanceStatus Conditions → InstanceStatus Conditions → Bool) where
    refuse-writes :
        (i : Instance Conditions) (m : String) (ans : Answers) {s : InstanceStatus Conditions}
        → written ((refuse api equal i m ans).actions) ≡ some s
        → s ≡ set_migrations api i condition_false reason_migration_failed m i.status
    unfolding refuse
    refuse-writes i m ans h = written-publish api equal i _ ans h

    retargeted-reconcile :
        (i : Instance Conditions) (ans : Answers)
        → i.deleting ≡ false
        → legacy_baseline_identity i (migration_identity i) ≡ none
        → run_on_deploy i.spec.database ≡ true
        → migration_up_to_date (applied_migration_identity i) (migration_identity i) ≡ false
        → any_of (retargeted_components (applied_migration_identity i) (migration_identity i))
          ≡ true
        → (reconcile api equal (found i) ans)
          ≡ refuse api equal i
              (retarget_message
                (retargeted_components (applied_migration_identity i) (migration_identity i)))
              ans
    unfolding reconcile reconcile_instance past_baseline migrate
    retargeted-reconcile i ans a b r u m = rw (b, r, u, m, a) refl

    -- What the migration is judged by is left as it was.
    pub retargeted-status :
        (i : Instance Conditions) (ans : Answers) {s : InstanceStatus Conditions}
        → i.deleting ≡ false
        → legacy_baseline_identity i (migration_identity i) ≡ none
        → run_on_deploy i.spec.database ≡ true
        → migration_up_to_date (applied_migration_identity i) (migration_identity i) ≡ false
        → any_of (retargeted_components (applied_migration_identity i) (migration_identity i))
          ≡ true
        → written ((reconcile api equal (found i) ans).actions) ≡ some s
        → (s.migration ≡ i.status.migration) × (s.database ≡ i.status.database)
    unfolding set_migrations
    retargeted-status i ans a b r u m h =
        let e = retargeted-reconcile i ans a b r u m in
        let same = refuse-writes i _ ans (rw e at h) in
        (ap (λ s. s.migration) same, ap (λ s. s.database) same)

    -- An instance that was migrated, is alive and has migrations enabled, whose spec now names another
    -- datastore: the pass asks for no Job, and the phase of every status that it writes is Error, with
    -- readiness off, whatever the other conditions say.
    pub reconcile_retargeted :
        (i : Instance Conditions) (ans : Answers)
        → i.deleting ≡ false
        → legacy_baseline_identity i (migration_identity i) ≡ none
        → run_on_deploy i.spec.database ≡ true
        → migration_up_to_date (applied_migration_identity i) (migration_identity i) ≡ false
        → any_of (retargeted_components (applied_migration_identity i) (migration_identity i))
          ≡ true
        → (created ((reconcile api equal (found i) ans).actions) ≡ none)
          × OnSome
              (written ((reconcile api equal (found i) ans).actions))
              (λ s. derive_phase api (record i { status = s }) ≡ (phase_error, false))
    reconcile_retargeted i ans a b r u m =
        let e = retargeted-reconcile i ans a b r u m in
        (
          rw e (created-refuse api equal i _ ans),
          on_some (written ((reconcile api equal (found i) ans).actions)) _
              (λ s h. refused_status-phase i _ (refuse-writes i _ ans (rw e at h))),
        )
