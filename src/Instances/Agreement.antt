-- ===== src/Instances/Agreement.antt =====
-- The Ready condition against the phase and the flag that a pass publishes.
use langfuse_operator.Common.{
  OnSome, on_some, Bool, true, false, ◌||◌, some, none, ◌≡◌, ◌∙◌, sym, ap, arith, Bool-cases, inl,
  inr, Result, ok, err,
}
use langfuse_operator.Api.{ConditionApi, Instance, InstanceStatus}
use langfuse_operator.Client.{found}
use langfuse_operator.Phase.{is_met, derive_phase}
use langfuse_operator.Migration.Parts.{any_of}
use langfuse_operator.Config.Env.{Config}
use langfuse_operator.Config.Build.{build_config}
use langfuse_operator.Rollup.Published.{published, update_status-phase}
use langfuse_operator.Instances.Apply.{Server, Steps, reconcile_workload}
use langfuse_operator.Instances.Frozen.{reconcile-freeze}
use langfuse_operator.Instances.Applied.{reconcile-deploy, ready_to_apply}
use langfuse_operator.Instances.Reconcile.{
  Reads, moved_components, with_phase, with_conditions, hold, flagged, release, freeze, finish,
  deploy, reconcile,
}

-- Whether a pass gets as far as updateStatus: it freezes, or it has a configuration.
abbrev pub configured : Result Config → Bool
configured (ok config) = true
configured (err e) = false

module _ (api : ConditionApi) where
  open api use {Conditions, find}

  -- The phase and the flag are those that derivePhase gives for the instance as it is published, and the
  -- Ready condition is True exactly when the flag is set.
  abbrev pub Agrees : Instance Conditions → InstanceStatus Conditions → Type 0
  Agrees i st =
      (derive_phase api (published api i st) ≡ (st.phase, st.ready))
      × (is_met (find st.conditions "Ready") ≡ st.ready)

  module _ (equal : InstanceStatus Conditions → InstanceStatus Conditions → Bool) where
    freeze-Agrees :
        (i : Instance Conditions) (r : Reads) (st : InstanceStatus Conditions)
        → (freeze api equal i (with_phase api i) (moved_components i) r).written ≡ some st
        → Agrees i st
    unfolding freeze hold with_conditions with_phase
    freeze-Agrees i r st h =
        update_status-phase api equal i.status st (hold api (with_phase api i) (moved_components i))
          r.web r.worker false r.write h

    finish-Agrees :
        (i : Instance Conditions) (r : Reads) (steps : Steps) (st : InstanceStatus Conditions)
        → (finish api equal i (ready_to_apply api i) r steps).written ≡ some st
        → Agrees i st
    unfolding finish flagged release with_conditions with_phase
    finish-Agrees i r (sent, some e) st h = ground arith
    finish-Agrees i r (sent, none) st h =
        update_status-phase api equal i.status st (ready_to_apply api i) r.web r.worker true r.write
          h

    deploy-Agrees :
        (i : Instance Conditions) (s : Server) (r : Reads) (built : Result Config)
        (st : InstanceStatus Conditions)
        → configured built ≡ true
        → (deploy api equal i (release api (with_phase api i)) s r built).written ≡ some st
        → Agrees i st
    unfolding deploy
    deploy-Agrees i s r (ok config) st c h =
        finish-Agrees i r (reconcile_workload (ready_to_apply api i) s config) st h
    deploy-Agrees i s r (err e) st c h = absurd (cc c)

    -- A pass over an instance that moved, or that has a configuration: in a status that it writes, the phase and the flag
    -- are those that derivePhase gives for the instance with that status, and Ready is True exactly when the flag is
    -- set.
    pub reconcile-Agrees :
        (i : Instance Conditions) (s : Server) (r : Reads)
        → i.deleting ≡ false
        → (any_of (moved_components i) || configured (build_config i)) ≡ true
        → OnSome (reconcile api equal (found i) s r).written (Agrees i)
    reconcile-Agrees i s r alive goes =
        on_some (reconcile api equal (found i) s r).written (Agrees i) (λ st h.
          elim (Bool-cases (any_of (moved_components i))) [
            | inl moved ↦
                freeze-Agrees i r st
                  (ap (λ p. p.written) (sym (reconcile-freeze api equal i s r alive moved)) ∙ h)
            | inr still ↦
                deploy-Agrees i s r (build_config i) st (ground (arith, goes, still))
                  (ap (λ p. p.written) (sym (reconcile-deploy api equal i s r alive still)) ∙ h)
          ])
