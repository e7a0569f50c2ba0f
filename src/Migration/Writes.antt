-- ===== src/Migration/Writes.antt =====
-- The statuses that the migration controller writes.
use langfuse_operator.Common.{
  ◌<◌, ltb, String, ◌==◌, Bool, true, false, not, Option, none, some, List, [], ◌∷◌, ◌++◌, ◌≡◌, ◌⊎◌,
  inl, inr, refl, arith, only_if, if◌then◌else◌, eq_iff,
}
use langfuse_operator.Api.{ConditionApi, condition_false, Instance, InstanceStatus}
use langfuse_operator.Client.{Got, found, failed}
use langfuse_operator.Phase.{reason_migration_failed}
use langfuse_operator.Identity.Target.{migration_identity}
use langfuse_operator.Identity.Applied.{legacy_baseline_identity}
use langfuse_operator.Config.Env.{Config}
use langfuse_operator.Migration.Job.{
  Job, Answers, Action, write_status, create_job, delete_job, Pass,
}
use langfuse_operator.Migration.Parts.{
  cleanup_completed_jobs, record_identity, migration_pod_issues, replace_job,
}
use langfuse_operator.Migration.Statuses.{
  set_migrations, started_status, migrated_status, watched_status, progress_status,
}
use langfuse_operator.Migration.Passes.{publish, finish_job, give_up, keep_waiting}
use langfuse_operator.Migration.Requests.{clear_of}
use langfuse_operator.Migration.Reconcile.{check_job}

-- The first status that a pass writes.
abbrev pub written : {C : Type 0} → List (Action C) → Option (InstanceStatus C)
written [] = none
written (write_status s ∷ rest) = some s
written (create_job identity config ∷ rest) = written rest
written (delete_job p ∷ rest) = written rest

pub written-cleanup :
    (C : Type 0) (got : Got Job) (ans : Answers)
    → written ((cleanup_completed_jobs {C = C} got ans).actions) ≡ none
unfolding cleanup_completed_jobs
written-cleanup C (failed e) ans = refl
written-cleanup C (found job) ans = ground arith

written_only :
    {C : Type 0} (b : Bool) (s t : InstanceStatus C)
    → written (only_if b (write_status s ∷ [])) ≡ some t
    → t ≡ s
written_only true s t h = cc h
written_only false s t h = cc h

pub written_then :
    {C : Type 0} (b : Bool) (s t : InstanceStatus C) (a : String) (c : Config)
    → written (only_if b (write_status s ∷ []) ++ create_job a c ∷ []) ≡ some t
    → t ≡ s
written_then true s t a c h = cc h
written_then false s t a c h = cc h

module _ (api : ConditionApi) where
  open api use {Conditions}

  -- The status `s` that a pass writes, and what the pass found.
  pub data Writes (i : Instance Conditions) (ans : Answers) (s : InstanceStatus Conditions)
      : Type 0 where
    baseline :
        (b : String)
        → legacy_baseline_identity i (migration_identity i) ≡ some b
        → s ≡ record_identity b i.status
        → Writes i ans s
    refused :
        (message : String)
        → s ≡ set_migrations api i condition_false reason_migration_failed message i.status
        → Writes i ans s
    started : s ≡ started_status api i → Writes i ans s
    finished :
        (job : Job)
        → ans.job ≡ found job
        → job.identity ≡ migration_identity i
        → 0 < job.succeeded
        → s ≡ migrated_status api i
        → Writes i ans s
    gave_up :
        (job : Job) (message : String)
        → ans.job ≡ found job
        → job.identity ≡ migration_identity i
        → s
          ≡ set_migrations api i condition_false reason_migration_failed message
              (watched_status api i job (migration_pod_issues ans))
        → Writes i ans s
    progressed :
        (job : Job)
        → ans.job ≡ found job
        → job.identity ≡ migration_identity i
        → s ≡ progress_status api i job (migration_pod_issues ans)
        → Writes i ans s

  module _ (equal : InstanceStatus Conditions → InstanceStatus Conditions → Bool) where
    -- A test of two passes: the status is that of the branch taken.
    pub written_if :
        (b : Bool) (p q : Pass Conditions) {s : InstanceStatus Conditions}
        → written ((if b then p else q).actions) ≡ some s
        → ((b ≡ true) × (written p.actions ≡ some s)) ⊎ ((b ≡ false) × (written q.actions ≡ some s))
    written_if true p q h = inl (refl, h)
    written_if false p q h = inr (refl, h)

    pub written-publish :
        (i : Instance Conditions) (t : InstanceStatus Conditions) (ans : Answers)
        {s : InstanceStatus Conditions}
        → written ((publish api equal i t ans).0) ≡ some s
        → s ≡ t
    unfolding publish
    written-publish i t ans h = written_only _ t _ h

    written-replace :
        (job : Job) (ans : Answers)
        → written ((replace_job {C = Conditions} job ans).actions) ≡ none
    unfolding replace_job
    written-replace job ans = ground arith

    writes-finish :
        (i : Instance Conditions) (ans : Answers) {s : InstanceStatus Conditions}
        → written ((finish_job api equal i ans).actions) ≡ some s
        → s ≡ migrated_status api i
    unfolding finish_job
    writes-finish i ans h = written-publish i _ ans h

    writes-give_up :
        (i : Instance Conditions) (job : Job) (ans : Answers) {s : InstanceStatus Conditions}
        → written ((give_up api equal i job ans).actions) ≡ some s
        → (message : String) × (s
            ≡ set_migrations api i condition_false reason_migration_failed message
                (watched_status api i job (migration_pod_issues ans)))
    unfolding give_up
    writes-give_up i job ans h = (_, written-publish i _ ans h)

    writes-keep :
        (i : Instance Conditions) (job : Job) (ans : Answers) {s : InstanceStatus Conditions}
        → written ((keep_waiting api equal i job ans).actions) ≡ some s
        → s ≡ progress_status api i job (migration_pod_issues ans)
    unfolding keep_waiting
    writes-keep i job ans h = written-publish i _ ans h

    pub writes-check_job :
        (i : Instance Conditions) (job : Job) (ans : Answers) {s : InstanceStatus Conditions}
        → ans.job ≡ found job
        → written ((check_job api equal i job ans).actions) ≡ some s
        → Writes i ans s
    unfolding check_job
    writes-check_job i job ans e h =
        elim (written_if (not (job.identity == migration_identity i)) (replace_job job ans) _ h) [
          | inl a ↦ absurd (clear_of (written-replace job ans) a.1)
          | inr a ↦
              let same = (eq_iff job.identity (migration_identity i)).0 (ground (arith, a.0)) in
              elim (written_if (ltb 0 job.succeeded) (finish_job api equal i ans) _ a.1) [
                | inl b ↦ finished job e same (ground (arith, b.0)) (writes-finish i ans b.1)
                | inr b ↦
                    elim (written_if _ (give_up api equal i job ans)
                      (keep_waiting api equal i job ans) b.1) [
                        | inl c ↦ let g = writes-give_up i job ans c.1 in gave_up job g.0 e same g.1
                        | inr c ↦ progressed job e same (writes-keep i job ans c.1)
                      ]
              ]
        ]
