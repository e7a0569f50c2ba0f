-- ===== src/Instances/Frozen.antt =====
-- A pass over a spec that moved to another datastore after its migrations ran.
use langfuse_operator.Common.{
  OnSome, on_some, String, Bool, true, false, some, List, [], ◌≡◌, refl, ◌∙◌, sym, ap, arith,
}
use langfuse_operator.Api.{ConditionApi, Instance, InstanceStatus}
use langfuse_operator.Client.{found}
use langfuse_operator.Phase.{
  phase_error, datastore_target, derive_phase, datastore_target_changed, holds_false,
}
use langfuse_operator.Identity.Target.{migration_identity}
use langfuse_operator.Identity.Applied.{applied_migration_identity}
use langfuse_operator.Migration.Parts.{any_of}
use langfuse_operator.Rollup.Published.{published, update_status-phase, update_status-keeps}
use langfuse_operator.Instances.Apply.{Server}
use langfuse_operator.Instances.Reconcile.{
  Reads, moved_components, with_phase, hold, with_conditions, freeze, reconcile_alive, reconcile,
}

module _ (api : ConditionApi) where
  open api use {Conditions, find}

  -- The phase is no part of what moved.
  pub with_phase-moved :
      (i : Instance Conditions) → moved_components (with_phase api i) ≡ moved_components i
  unfolding with_phase moved_components applied_migration_identity migration_identity
  with_phase-moved i = refl

  hold-find :
      (i : Instance Conditions) (changed : List String)
      → holds_false (find (hold api i changed).status.conditions datastore_target) ≡ true
  unfolding hold with_conditions holds_false
  hold-find i changed = rw (api.find-set i.status.conditions _ datastore_target) refl

  -- The first case of the switch.
  target-phase :
      (i : Instance Conditions)
      → holds_false (find i.status.conditions datastore_target) ≡ true
      → derive_phase api i ≡ (phase_error, false)
  unfolding derive_phase datastore_target_changed
  target-phase i h = ground (arith, h)

  module _ (equal : InstanceStatus Conditions → InstanceStatus Conditions → Bool) where
    pub reconcile-alive :
        (i : Instance Conditions) (s : Server) (r : Reads)
        → i.deleting ≡ false
        → reconcile api equal (found i) s r ≡ reconcile_alive api equal i (with_phase api i) s r
    unfolding reconcile
    reconcile-alive i s r alive = simp alive refl

    reconcile_alive-freeze :
        (original i : Instance Conditions) (s : Server) (r : Reads)
        → any_of (moved_components i) ≡ true
        → reconcile_alive api equal original i s r
          ≡ freeze api equal original i (moved_components i) r
    unfolding reconcile_alive
    reconcile_alive-freeze original i s r moved = rw moved refl

    pub reconcile-freeze :
        (i : Instance Conditions) (s : Server) (r : Reads)
        → i.deleting ≡ false
        → any_of (moved_components i) ≡ true
        → reconcile api equal (found i) s r
          ≡ freeze api equal i (with_phase api i) (moved_components i) r
    reconcile-freeze i s r alive moved =
        let same = with_phase-moved i in
        reconcile-alive i s r alive
        ∙ reconcile_alive-freeze i (with_phase api i) s r (ap any_of same ∙ moved)
        ∙ ap (λ changed. freeze api equal i (with_phase api i) changed r) same

    -- What a status that is written by a frozen pass says.
    abbrev Frozen : Instance Conditions → InstanceStatus Conditions → Type 0
    Frozen i st =
        (st.phase ≡ phase_error)
        × (st.ready ≡ false)
        × (st.version ≡ i.status.version)
        × (st.public_url ≡ i.status.public_url)
        × (holds_false (find st.conditions datastore_target) ≡ true)

    freeze-Frozen :
        (original i : Instance Conditions) (changed : List String) (r : Reads)
        (st : InstanceStatus Conditions)
        → (freeze api equal original i changed r).written ≡ some st
        → Frozen i st
    unfolding freeze hold with_conditions
    freeze-Frozen original i changed r st h =
        let held = hold api i changed in
        let (told, _) =
          update_status-phase api equal original.status st held r.web r.worker false r.write h in
        let (_, _, kept, version, url) =
          update_status-keeps api equal original.status st held r.web r.worker false r.write
            datastore_target h refl in
        let down = ap holds_false kept ∙ hold-find i changed in
        let phase = sym told ∙ target-phase (published api held st) down in
        (ap (λ p. p.0) phase, ap (λ p. p.1) phase, version, url, down)

    -- An instance that is alive and whose spec moved to another datastore after its migrations ran: the pass
    -- sends no request for the workload, and a status that it writes says Error and not ready, keeps
    -- the version and the URL that are published, and says that the target changed.
    pub reconcile_frozen :
        (i : Instance Conditions) (s : Server) (r : Reads)
        → i.deleting ≡ false
        → any_of (moved_components i) ≡ true
        → ((reconcile api equal (found i) s r).requests ≡ [])
          × OnSome (reconcile api equal (found i) s r).written (λ st.
            (st.phase ≡ phase_error)
            × (st.ready ≡ false)
            × (st.version ≡ i.status.version)
            × (st.public_url ≡ i.status.public_url)
            × (holds_false (find st.conditions datastore_target) ≡ true))
    unfolding freeze with_phase
    reconcile_frozen i s r alive moved =
        let e = reconcile-freeze i s r alive moved in
        (
          ap (λ p. p.requests) e,
          on_some (reconcile api equal (found i) s r).written (Frozen i) (λ st h.
              freeze-Frozen i (with_phase api i) (moved_components i) r st
                (ap (λ p. p.written) (sym e) ∙ h)),
        )

    -- A frozen pass leaves what the migration is judged by.
    pub frozen-keeps :
        (i : Instance Conditions) (s : Server) (r : Reads) (st : InstanceStatus Conditions)
        → i.deleting ≡ false
        → any_of (moved_components i) ≡ true
        → (reconcile api equal (found i) s r).written ≡ some st
        → (st.migration ≡ i.status.migration) × (st.database ≡ i.status.database)
    unfolding freeze hold with_conditions with_phase
    frozen-keeps i s r st alive moved h =
        let e = reconcile-freeze i s r alive moved in
        let held = hold api (with_phase api i) (moved_components i) in
        let w = ap (λ p. p.written) (sym e) ∙ h in
        let (_, same, _, _, _) =
          update_status-keeps api equal i.status st held r.web r.worker false r.write
            datastore_target w refl in
        (same.1, same.0)
