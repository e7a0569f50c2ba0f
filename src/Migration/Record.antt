-- ===== src/Migration/Record.antt =====
-- What a written status records, and what it leaves alone.
use langfuse_operator.Common.{
  String, Bool, true, false, not, Option, none, some, [], ◌≡◌, inl, inr, refl, Result, ok, err,
  if◌then◌else◌,
}
use langfuse_operator.Api.{ConditionApi, Instance, InstanceStatus}
use langfuse_operator.Client.{ApiError, is_not_found, done, Got, found, failed}
use langfuse_operator.Identity.Target.{migration_identity}
use langfuse_operator.Identity.Applied.{legacy_baseline_identity}
use langfuse_operator.Config.Env.{Config}
use langfuse_operator.Config.Build.{build_config}
use langfuse_operator.Migration.Job.{Job, Answers, Pass}
use langfuse_operator.Migration.Parts.{
  cleanup_completed_jobs, only_actions, retarget_message, missing_message, any_of, run_on_deploy,
}
use langfuse_operator.Migration.Statuses.{started_status}
use langfuse_operator.Migration.Passes.{publish, record_baseline, refuse, start_job}
use langfuse_operator.Migration.Requests.{clear_of}
use langfuse_operator.Migration.Reconcile.{
  ensure_job, configure, migrate, past_baseline, reconcile_instance, reconcile,
}
use langfuse_operator.Identity.Applied.{
  applied_migration_identity, missing_click_house_migration_keys,
}
use langfuse_operator.Identity.Recorded.{retargeted_components, migration_up_to_date}
use langfuse_operator.Migration.Writes.{
  written, written_then, written-cleanup, Writes, baseline, refused, started, written_if,
  written-publish, writes-check_job,
}

written_either :
    {X C : Type 0} (b : Bool) (p q : Pass C) {s : InstanceStatus C}
    → written ((if b then p else q).actions) ≡ some s
    → (written p.actions ≡ some s → X)
    → (written q.actions ≡ some s → X)
    → X
written_either true p q h f g = f h
written_either false p q h f g = g h

module _ (api : ConditionApi) where
  open api use {Conditions, find}

  module _ (equal : InstanceStatus Conditions → InstanceStatus Conditions → Bool) where
    writes-start :
        (i : Instance Conditions) (config : Config) (owner : Option ApiError) (ans : Answers)
        {s : InstanceStatus Conditions}
        → written ((start_job api equal i config owner ans).actions) ≡ some s
        → Writes api i ans s
    unfolding start_job publish
    writes-start i config (some e) ans h = absurd (clear_of refl h)
    writes-start i config none ans h = started (written_then _ (started_status api i) _ _ config h)

    writes-refuse :
        (i : Instance Conditions) (m : String) (ans : Answers) {s : InstanceStatus Conditions}
        → written ((refuse api equal i m ans).actions) ≡ some s
        → Writes api i ans s
    unfolding refuse
    writes-refuse i m ans h = refused m (written-publish api equal i _ ans h)

    writes-baseline :
        (i : Instance Conditions) (b : String) (ans : Answers) {s : InstanceStatus Conditions}
        → legacy_baseline_identity i (migration_identity i) ≡ some b
        → written ((record_baseline api equal i b ans).actions) ≡ some s
        → Writes api i ans s
    unfolding record_baseline
    writes-baseline i b ans e h = baseline b e (written-publish api equal i _ ans h)

    writes-ensure :
        (i : Instance Conditions) (config : Config) (got : Got Job) (ans : Answers)
        {s : InstanceStatus Conditions}
        → ans.job ≡ got
        → written ((ensure_job api equal i config got ans).actions) ≡ some s
        → Writes api i ans s
    unfolding ensure_job
    writes-ensure i config (found job) ans e h = writes-check_job api equal i job ans e h
    writes-ensure i config (failed e) ans p h =
        elim (written_if api equal (is_not_found e.kind)
          (start_job api equal i config ans.owner ans) _ h) [
            | inl a ↦ writes-start i config ans.owner ans a.1
            | inr a ↦ absurd (clear_of refl a.1)
          ]

    writes-configure :
        (i : Instance Conditions) (r : Result Config) (ans : Answers)
        {s : InstanceStatus Conditions}
        → written ((configure api equal i r ans).actions) ≡ some s
        → Writes api i ans s
    unfolding configure
    writes-configure i (err e) ans h = absurd (clear_of refl h)
    writes-configure i (ok config) ans h = writes-ensure i config ans.job ans refl h

    writes-migrate :
        (i : Instance Conditions) (ans : Answers) {s : InstanceStatus Conditions}
        → written ((migrate api equal i ans).actions) ≡ some s
        → Writes api i ans s
    unfolding migrate
    writes-migrate i ans h =
        let moved = retargeted_components (applied_migration_identity i) (migration_identity i) in
        let missing = missing_click_house_migration_keys i.spec.click_house in
        let refusal = refuse api equal i (missing_message missing) ans in
        let go_on = configure api equal i (build_config i) ans in
        written_either (any_of moved) (refuse api equal i (retarget_message moved) ans)
          (if any_of missing then refusal else go_on) h (writes-refuse i _ ans)
          (λ rest.
            written_either (any_of missing) refusal go_on rest (writes-refuse i _ ans)
              (writes-configure i (build_config i) ans))

    writes-past :
        (i : Instance Conditions) (o : Option String) (ans : Answers)
        {s : InstanceStatus Conditions}
        → legacy_baseline_identity i (migration_identity i) ≡ o
        → written ((past_baseline api equal i o ans).actions) ≡ some s
        → Writes api i ans s
    unfolding past_baseline
    writes-past i (some b) ans e h = writes-baseline i b ans e h
    writes-past i none ans e h =
        let current = migration_up_to_date (applied_migration_identity i) (migration_identity i) in
        let cleanup = cleanup_completed_jobs ans.job ans in
        let due = migrate api equal i ans in
        written_either (not (run_on_deploy i.spec.database)) (only_actions [] done)
          (if current then cleanup else due) h (λ k. absurd (clear_of refl k))
          (λ rest.
            written_either current cleanup due rest
              (λ k. absurd (clear_of (written-cleanup Conditions ans.job ans) k))
              (writes-migrate i ans))

    -- Every status that Reconcile writes has one of the six reasons of the relation.
    pub reconcile-writes :
        (i : Instance Conditions) (ans : Answers) {s : InstanceStatus Conditions}
        → written ((reconcile api equal (found i) ans).actions) ≡ some s
        → Writes api i ans s
    unfolding reconcile reconcile_instance
    reconcile-writes i ans h =
        written_either i.deleting _ _ h (λ k. absurd (clear_of refl k)) (writes-past i _ ans refl)
