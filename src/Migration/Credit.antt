-- ===== src/Migration/Credit.antt =====
-- A migration is credited only where it ran, and a credited one is not run again.
use langfuse_operator.Common.{
  ℕ, ◌<◌, String, Bool, true, Option, none, some, List, [], ◌∷◌, ◌≡◌, ◌≢◌, ◌⊎◌, inl, inr, refl, ap,
  ◌∙◌, arith,
}
use langfuse_operator.Api.{ConditionApi, Instance, InstanceStatus, PodIssue, MigrationStatus}
use langfuse_operator.Client.{Got, found, failed}
use langfuse_operator.Identity.Target.{migration_identity}
use langfuse_operator.Identity.Recorded.{migration_up_to_date}
use langfuse_operator.Identity.Applied.{
  recorded_identity, applied_migration_identity, legacy_baseline_identity,
}
use langfuse_operator.Migration.Job.{Job, Answers}
use langfuse_operator.Migration.Parts.{or_new_migration, record_identity}
use langfuse_operator.Migration.Statuses.{
  set_migrations, started_status, migrated_status, watched_status, progress_status,
}
use langfuse_operator.Migration.Reconcile.{reconcile}
use langfuse_operator.Migration.Writes.{
  written, Writes, baseline, refused, started, finished, gave_up, progressed,
}
use langfuse_operator.Migration.Record.{reconcile-writes}

legacy_baseline-some :
    {C : Type 0} (i : Instance C) (desired : String) {b : String}
    → legacy_baseline_identity i desired ≡ some b
    → (b ≡ desired) × (migration_up_to_date (applied_migration_identity i) desired ≡ true)
unfolding legacy_baseline_identity
legacy_baseline-some i desired h = (ground arith, ground arith)

kept_identity :
    (o : Option MigrationStatus) (name : String) (n : ℕ) (issues : List PodIssue)
    → recorded_identity
        (some (record (or_new_migration o) { job_name = name; failed = n; issues = issues }))
      ≡ recorded_identity o
unfolding recorded_identity
kept_identity none name n issues = refl
kept_identity (some m) name n issues = refl

-- The Job that was answered ran for this identity and succeeded.
abbrev pub Succeeded : Got Job → String → Type 0
Succeeded (failed e) identity = ⊥
Succeeded (found job) identity = (job.identity ≡ identity) × (0 < job.succeeded)

module _ (api : ConditionApi) where
  open api use {Conditions, find}

  watched-kept :
      (i : Instance Conditions) (job : Job) (issues : List PodIssue)
      → recorded_identity ((watched_status api i job issues).migration)
        ≡ recorded_identity i.status.migration
  unfolding watched_status
  watched-kept i job issues = kept_identity i.status.migration _ job.failed issues

  progress-kept :
      (i : Instance Conditions) (job : Job) (issues : List PodIssue)
      → recorded_identity ((progress_status api i job issues).migration)
        ≡ recorded_identity i.status.migration
  unfolding progress_status set_migrations
  progress-kept i job [] = watched-kept i job []
  progress-kept i job (p ∷ ps) = watched-kept i job (p ∷ ps)

  -- What a status of each kind records.
  writes-credit :
      (i : Instance Conditions) (ans : Answers) {s : InstanceStatus Conditions}
      → Writes api i ans s
      → (recorded_identity s.migration ≡ recorded_identity i.status.migration)
        ⊎ ((recorded_identity s.migration ≡ migration_identity i)
            × ((migration_up_to_date (applied_migration_identity i) (migration_identity i) ≡ true)
                ⊎ Succeeded ans.job (migration_identity i)))
  unfolding set_migrations record_identity started_status migrated_status recorded_identity
  writes-credit i ans (baseline b e p) =
      let l = legacy_baseline-some i (migration_identity i) e in
      inr (ap (λ t. recorded_identity t.migration) p ∙ l.0, inl l.1)
  writes-credit i ans (refused m p) = inl (ap (λ t. recorded_identity t.migration) p)
  writes-credit i ans (started p) = inl (ap (λ t. recorded_identity t.migration) p)
  writes-credit i ans (finished job e same lt p) =
      inr (ap (λ t. recorded_identity t.migration) p, inr (rw e (same, lt)))
  writes-credit i ans (gave_up job m e same p) =
      inl (ap (λ t. recorded_identity t.migration) p ∙ watched-kept i job _)
  writes-credit i ans (progressed job e same p) =
      inl (ap (λ t. recorded_identity t.migration) p ∙ progress-kept i job _)

  module _ (equal : InstanceStatus Conditions → InstanceStatus Conditions → Bool) where
    -- Where a pass writes another applied identity than the one recorded, it is the identity of the
    -- spec, and either what the status recorded before already covers it, or the Job that was found
    -- ran for that very identity and succeeded.
    pub reconcile-credits :
        (i : Instance Conditions) (ans : Answers) {s : InstanceStatus Conditions}
        → written ((reconcile api equal (found i) ans).actions) ≡ some s
        → recorded_identity s.migration ≢ recorded_identity i.status.migration
        → (recorded_identity s.migration ≡ migration_identity i)
          × ((migration_up_to_date (applied_migration_identity i) (migration_identity i) ≡ true)
              ⊎ Succeeded ans.job (migration_identity i))
    reconcile-credits i ans h ne = elim (writes-credit i ans (reconcile-writes api equal i ans h)) [
      | inl same ↦ absurd (ne same)
      | inr c ↦ c
    ]
