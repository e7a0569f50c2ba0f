-- ===== src/Migration/Creation.antt =====
-- When a migration Job is created.
use langfuse_operator.Common.{
  String, Bool, true, false, not, Option, none, some, [], ◌≡◌, refl, ap, arith, Result, ok, err,
  Bool-cases, inl, inr,
}
use langfuse_operator.Api.{ConditionApi, Instance, InstanceStatus}
use langfuse_operator.Client.{is_not_found, done, Got, found, failed}
use langfuse_operator.Identity.Target.{migration_identity}
use langfuse_operator.Identity.Recorded.{migration_up_to_date, retargeted_components}
use langfuse_operator.Identity.Applied.{
  applied_migration_identity, missing_click_house_migration_keys,
}
use langfuse_operator.Config.Env.{Config}
use langfuse_operator.Config.Build.{build_config}
use langfuse_operator.Migration.Job.{Job, Answers}
use langfuse_operator.Migration.Parts.{run_on_deploy, only_actions, any_of}
use langfuse_operator.Migration.Reconcile.{
  ensure_job, configure, migrate, past_baseline, reconcile_instance, reconcile,
}
use langfuse_operator.Migration.Requests.{
  created, is_absent, clear_of, created-cleanup, created_else, created-start, created-refuse,
  created-baseline, created-check_job,
}

-- The conditions under which a Job is asked for, apart from the Job's absence.
pub record IsDue {C : Type 0} (i : Instance C) : Type 0 where
  pub alive : i.deleting ≡ false
  pub enabled : run_on_deploy i.spec.database ≡ true
  pub behind : migration_up_to_date (applied_migration_identity i) (migration_identity i) ≡ false
  pub fixed :
      any_of (retargeted_components (applied_migration_identity i) (migration_identity i)) ≡ false
  pub complete : any_of (missing_click_house_migration_keys i.spec.click_house) ≡ false

module _ (api : ConditionApi) where
  open api use {Conditions}

  module _ (equal : InstanceStatus Conditions → InstanceStatus Conditions → Bool) where
    created-ensure :
        (i : Instance Conditions) (config : Config) (got : Got Job) (ans : Answers)
        {c : String × Config}
        → created ((ensure_job api equal i config got ans).actions) ≡ some c
        → (c ≡ (migration_identity i, config)) × (is_absent got ≡ true)
    unfolding ensure_job
    created-ensure i config (found job) ans h =
        ground (arith, created-check_job api equal i job ans)
    created-ensure i config (failed e) ans h = elim (Bool-cases (is_not_found e.kind)) [
      | inl p ↦ (created-start api equal i config ans.owner ans (rw p at h), p)
      | inr p ↦ ground arith
    ]

    created-configure :
        (i : Instance Conditions) (r : Result Config) (ans : Answers) {c : String × Config}
        → created ((configure api equal i r ans).actions) ≡ some c
        → (c.0 ≡ migration_identity i) × (r ≡ ok c.1) × (is_absent ans.job ≡ true)
    unfolding configure
    created-configure i (err e) ans h = ground arith
    created-configure i (ok config) ans h =
        let g = created-ensure i config ans.job ans h in (ap (λ p. p.0) g.0, cc g.0, g.1)

    created-migrate :
        (i : Instance Conditions) (ans : Answers) {c : String × Config}
        → created ((migrate api equal i ans).actions) ≡ some c
        → (any_of (retargeted_components (applied_migration_identity i) (migration_identity i))
            ≡ false)
          × (any_of (missing_click_house_migration_keys i.spec.click_house) ≡ false)
          × (created ((configure api equal i (build_config i) ans).actions) ≡ some c)
    unfolding migrate
    created-migrate i ans h =
        let a = created_else _ _ _ (created-refuse api equal i _ ans) h in
        let b = created_else _ _ _ (created-refuse api equal i _ ans) a.1 in (a.0, b.0, b.1)

    created-past :
        (i : Instance Conditions) (o : Option String) (ans : Answers) {c : String × Config}
        → created ((past_baseline api equal i o ans).actions) ≡ some c
        → (run_on_deploy i.spec.database ≡ true)
          × (migration_up_to_date (applied_migration_identity i) (migration_identity i) ≡ false)
          × (created ((migrate api equal i ans).actions) ≡ some c)
    unfolding past_baseline
    created-past i (some b) ans h = absurd (clear_of (created-baseline api equal i b ans) h)
    created-past i none ans h =
        let a =
          created_else (not (run_on_deploy i.spec.database)) (only_actions [] done) _ refl h in
        let b =
          created_else _ _ (migrate api equal i ans) (created-cleanup Conditions ans.job ans) a.1 in
        (ground (arith, a.0), b.0, b.1)

    -- A pass that asks for a Job: the instance is not being deleted, migrations are enabled, the last
    -- recorded migration does not cover the spec, no component has moved to another datastore, no
    -- key is missing and no Job exists. The Job bears the spec's own identity and Config.
    pub reconcile-creates :
        (i : Instance Conditions) (ans : Answers) {identity : String} {config : Config}
        → created ((reconcile api equal (found i) ans).actions) ≡ some (identity, config)
        → IsDue i
          × (identity ≡ migration_identity i)
          × (build_config i ≡ ok config)
          × (is_absent ans.job ≡ true)
    unfolding reconcile reconcile_instance
    reconcile-creates i ans h =
        let l = created_else i.deleting _ _ refl h in
        let a = created-past i _ ans l.1 in
        let b = created-migrate i ans a.2 in
        let c = created-configure i _ ans b.2 in
        (
          record { alive = l.0; enabled = a.0; behind = a.1; fixed = b.0; complete = b.1 },
          c.0,
          c.1,
          c.2,
        )
