-- ===== src/Instances/Together.antt =====
-- The instance controller and the migration controller taking turns on an instance that moved. Each pass
-- reads the instance as the last write left it.
use langfuse_operator.Common.{Bool, true, false, none, some, [], ◌≡◌, refl, ◌∙◌, ap}
use langfuse_operator.Api.{ConditionApi, Instance, InstanceStatus}
use langfuse_operator.Client.{found}
use langfuse_operator.Identity.Target.{migration_identity}
use langfuse_operator.Identity.Recorded.{migration_up_to_date}
use langfuse_operator.Identity.Applied.{applied_migration_identity, legacy_baseline_identity}
use langfuse_operator.Migration.Job.{Answers}
use langfuse_operator.Migration.Parts.{any_of, run_on_deploy}
use langfuse_operator.Migration.Requests.{created}
use langfuse_operator.Migration.Writes.{written}
use langfuse_operator.Migration.Refusal.{reconcile_retargeted, retargeted-status}
use langfuse_operator.Rollup.Published.{published}
use langfuse_operator.Instances.Apply.{Server}
use langfuse_operator.Instances.Reconcile.{reconcile as run_instance, Reads, moved_components}
use langfuse_operator.Migration.Reconcile.{reconcile as run_migration}
use langfuse_operator.Instances.Frozen.{reconcile_frozen, frozen-keeps}

module _ (api : ConditionApi) where
  open api use {Conditions}

  -- Migrated, alive, with migrations enabled, and moved to another datastore.
  pub record Moved (i : Instance Conditions) : Type 0 where
    pub alive : i.deleting ≡ false
    pub recorded : legacy_baseline_identity i (migration_identity i) ≡ none
    pub migrates : run_on_deploy i.spec.database ≡ true
    pub due : migration_up_to_date (applied_migration_identity i) (migration_identity i) ≡ false
    pub moved : any_of (moved_components i) ≡ true

  applied-published :
      (i : Instance Conditions) (st : InstanceStatus Conditions)
      → st.migration ≡ i.status.migration
      → st.database ≡ i.status.database
      → applied_migration_identity (published api i st) ≡ applied_migration_identity i
  unfolding applied_migration_identity
  applied-published i st m d = rw (m, d) refl

  identity-published :
      (i : Instance Conditions) (st : InstanceStatus Conditions)
      → migration_identity (published api i st) ≡ migration_identity i
  unfolding migration_identity
  identity-published i st = refl

  baseline-published :
      (i : Instance Conditions) (st : InstanceStatus Conditions)
      → st.migration ≡ i.status.migration
      → st.database ≡ i.status.database
      → legacy_baseline_identity (published api i st) (migration_identity i)
        ≡ legacy_baseline_identity i (migration_identity i)
  unfolding legacy_baseline_identity applied_migration_identity
  baseline-published i st m d = rw (m, d) refl

  moved-published :
      (i : Instance Conditions) (st : InstanceStatus Conditions)
      → st.migration ≡ i.status.migration
      → st.database ≡ i.status.database
      → moved_components (published api i st) ≡ moved_components i
  unfolding moved_components
  moved-published i st m d = rw (applied-published i st m d, identity-published i st) refl

  -- What a write must keep.
  Moved-published :
      (i : Instance Conditions) (st : InstanceStatus Conditions)
      → Moved i
      → st.migration ≡ i.status.migration
      → st.database ≡ i.status.database
      → Moved (published api i st)
  Moved-published i st p m d =
      let wanted = identity-published i st in
      record {
        alive = p.alive;
        recorded =
            ap (legacy_baseline_identity (published api i st)) wanted
            ∙ baseline-published i st m d
            ∙ p.recorded;
        migrates = p.migrates;
        due = rw (applied-published i st m d, wanted) p.due;
        moved = ap any_of (moved-published i st m d) ∙ p.moved;
      }

  module _ (equal : InstanceStatus Conditions → InstanceStatus Conditions → Bool) where
    -- A status that a pass of one of the controllers writes, whatever the servers answer.
    pub data Turn (i : Instance Conditions) (st : InstanceStatus Conditions) : Type 0 where
      instance_turn :
          (s : Server) (r : Reads)
          → (run_instance api equal (found i) s r).written ≡ some st
          → Turn i st
      migration_turn :
          (ans : Answers)
          → written ((run_migration api equal (found i) ans).actions) ≡ some st
          → Turn i st

    pub data Turns (i : Instance Conditions) : Instance Conditions → Type 0 where
      start : Turns i i
      turn :
          {j : Instance Conditions} {st : InstanceStatus Conditions}
          → Turns i j
          → Turn j st
          → Turns i (published api j st)

    Turn-kept :
        (i : Instance Conditions) (st : InstanceStatus Conditions)
        → Moved i
        → Turn i st
        → (st.migration ≡ i.status.migration) × (st.database ≡ i.status.database)
    unfolding moved_components
    Turn-kept i st p (instance_turn s r h) = frozen-keeps api equal i s r st p.alive p.moved h
    Turn-kept i st p (migration_turn ans h) =
        retargeted-status api equal i ans p.alive p.recorded p.migrates p.due p.moved h

    Turns-Moved : (i j : Instance Conditions) → Moved i → Turns i j → Moved j
    Turns-Moved i j p start = p
    Turns-Moved i _ p (turn {j} {st} before t) =
        let q = Turns-Moved i j p before in
        let (m, d) = Turn-kept j st q t in Moved-published j st q m d

    -- An instance that was migrated, is alive, has migrations enabled and moved to another datastore: after any
    -- turns of the two controllers, whatever the servers answer, a pass of the instance controller still
    -- sends no request for the workload, and one of the migration controller asks for no Job.
    pub Turns-frozen :
        (i j : Instance Conditions) (s : Server) (r : Reads) (ans : Answers)
        → Moved i
        → Turns i j
        → ((run_instance api equal (found j) s r).requests ≡ [])
          × (created ((run_migration api equal (found j) ans).actions) ≡ none)
    unfolding moved_components
    Turns-frozen i j s r ans p turns =
        let q = Turns-Moved i j p turns in
        (
          (reconcile_frozen api equal j s r q.alive q.moved).0,
          (reconcile_retargeted api equal j ans q.alive q.recorded q.migrates q.due q.moved).0,
        )
