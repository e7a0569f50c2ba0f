-- ===== src/Phase/Laws.antt =====
-- When an instance is Running, and what the other phases rest on.
use langfuse_operator.Common.{
  String, Bool, true, false, not, Option, none, some, List, [], ◌∷◌, ◌≡◌, ◌↔◌, refl, ap, arith,
  eq_iff, any,
}
use langfuse_operator.Api.{Condition, condition_true, ConditionApi, Instance}
use langfuse_operator.Phase.{
  is_true, phase_pending, phase_running, phase_migrating, phase_degraded, phase_error,
  dependency_conditions, health_loop, dependency_health, components_ready, datastore_target_changed,
  migration_running, migration_failed, instance_has_fatal_pod_issue, derive_phase,
}

-- A condition that is reported and does not hold.
abbrev pub is_bad : Option Condition → Bool
is_bad none = false
is_bad (some c) = not (is_true c.status)

abbrev pub IsTrueIn : Option Condition → Type 0
IsTrueIn none = ⊥
IsTrueIn (some c) = c.status ≡ condition_true

is_true-eq : (c : Condition) → is_true c.status ≡ true → c.status ≡ condition_true
is_true-eq c h = ground arith

module _ (api : ConditionApi) where
  open api use {Conditions, find}

  abbrev pub AllTrue : Conditions → List String → Type 0
  AllTrue cs [] = Unit
  AllTrue cs (t ∷ ts) = IsTrueIn (find cs t) × AllTrue cs ts

  -- The first part says whether some reported condition does not hold, in any place of the list.
  health_loop-any :
      (cs : Conditions) (ts : List String) (h : Bool)
      → (health_loop api cs ts h).0 ≡ any (λ t. is_bad (find cs t)) ts
  unfolding health_loop
  health_loop-any cs [] h = refl
  health_loop-any cs (t ∷ ts) h =
      ground (arith, health_loop-any cs ts h, health_loop-any cs ts false)

  health_loop-false : (cs : Conditions) (ts : List String) → (health_loop api cs ts false).1 ≡ false
  unfolding health_loop
  health_loop-false cs [] = refl
  health_loop-false cs (t ∷ ts) = ground (arith, health_loop-false cs ts)

  health_loop-AllTrue :
      (cs : Conditions) (ts : List String)
      → health_loop api cs ts true ≡ (false, true)
      → AllTrue cs ts
  unfolding health_loop
  health_loop-AllTrue cs [] h = tt
  health_loop-AllTrue cs (t ∷ ts) h =
      ground (arith, health_loop-false cs ts, health_loop-AllTrue cs ts)

  AllTrue-health_loop :
      (cs : Conditions) (ts : List String)
      → AllTrue cs ts
      → health_loop api cs ts true ≡ (false, true)
  unfolding health_loop
  AllTrue-health_loop cs [] h = refl
  AllTrue-health_loop cs (t ∷ ts) h = ground (arith, AllTrue-health_loop cs ts h.1)

  derive_phase-healthy :
      (i : Instance Conditions)
      → datastore_target_changed api i ≡ false
      → migration_failed api i ≡ false
      → instance_has_fatal_pod_issue api i ≡ false
      → migration_running api i ≡ false
      → components_ready api i ≡ true
      → dependency_health api i ≡ (false, true)
      → derive_phase api i ≡ (phase_running, true)
  unfolding derive_phase
  derive_phase-healthy i a b c d e f = ground arith

  -- The five tests above the dependencies, and what the dependencies report.
  derive_phase_gates :
      (i : Instance Conditions)
      → (derive_phase api i).1 ≡ true
      → (datastore_target_changed api i ≡ false)
        × (migration_failed api i ≡ false)
        × (instance_has_fatal_pod_issue api i ≡ false)
        × (migration_running api i ≡ false)
        × (components_ready api i ≡ true)
        × (dependency_health api i ≡ (false, true))
  unfolding derive_phase
  derive_phase_gates i h = ground arith

  -- An instance is Running and ready exactly when the datastore target is unchanged, no migration
  -- has failed or is running, no pod issue is fatal, web and worker each have a ready replica, and
  -- all four datastore conditions are reported True.
  pub derive_phase-running :
      (i : Instance Conditions)
      → (derive_phase api i ≡ (phase_running, true)) ↔ (
          (datastore_target_changed api i ≡ false)
          × (migration_failed api i ≡ false)
          × (instance_has_fatal_pod_issue api i ≡ false)
          × (migration_running api i ≡ false)
          × (components_ready api i ≡ true)
          × AllTrue i.status.conditions dependency_conditions)
  unfolding dependency_health
  derive_phase-running i = (
    λ h.
        let g = derive_phase_gates i (ap (λ p. p.1) h) in
        (
          g.0,
          g.1,
          g.2,
          g.3,
          g.4,
          health_loop-AllTrue i.status.conditions dependency_conditions g.5,
        ),
    λ g.
        derive_phase-healthy i g.0 g.1 g.2 g.3 g.4
          (AllTrue-health_loop i.status.conditions dependency_conditions g.5),
  )

  -- The readiness flag and the phase say the same.
  pub derive_phase_ready :
      (i : Instance Conditions)
      → ((derive_phase api i).1 ≡ true) ↔ ((derive_phase api i).0 ≡ phase_running)
  unfolding derive_phase
  derive_phase_ready i = (
    ground arith,
    ground (
      arith,
      eq_iff phase_error phase_running,
      eq_iff phase_migrating phase_running,
      eq_iff phase_pending phase_running,
      eq_iff phase_degraded phase_running,
    ),
  )

  -- With the workload up and no migration in the way, one reported condition that does not hold
  -- makes the instance Degraded, whatever the others say and in whatever order they stand.
  pub derive_phase_degraded :
      (i : Instance Conditions)
      → datastore_target_changed api i ≡ false
      → migration_failed api i ≡ false
      → instance_has_fatal_pod_issue api i ≡ false
      → migration_running api i ≡ false
      → components_ready api i ≡ true
      → any (λ t. is_bad (find i.status.conditions t)) dependency_conditions ≡ true
      → derive_phase api i ≡ (phase_degraded, false)
  unfolding derive_phase dependency_health
  derive_phase_degraded i a b c d e bad =
      ground (arith, health_loop-any i.status.conditions dependency_conditions true)
