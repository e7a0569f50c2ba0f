-- ===== src/Rollup/Published.antt =====
-- What a published status says.
use langfuse_operator.Common.{
  if_some, String, ◌==◌, Bool, true, false, Option, some, any, List, [], ◌∷◌, ◌≡◌, ◌∙◌, sym, ap,
  refl, arith, if◌then◌else◌,
}
use mathlib.Core.Path.{subst}
use langfuse_operator.Api.{ConditionApi, Instance, InstanceStatus, WorkerComponentStatus}
use langfuse_operator.Client.{ApiError, Got, found, failed}
use langfuse_operator.Phase.{
  is_met, is_true, derive_phase, dependency_health, health_loop, dependency_conditions,
  components_ready, datastore_target_changed, migration_running, migration_failed,
  instance_has_fatal_pod_issue,
}
use langfuse_operator.Rollup.Update.{
  Workload, bool_to_condition_status, with_web, with_worker, worker_status, observed, observe,
  rolled_up, write_back, update_status, or_new_worker,
}

status-true : (b : Bool) → is_true (bool_to_condition_status b) ≡ b
unfolding bool_to_condition_status
status-true true = refl
status-true false = refl

module _ (api : ConditionApi) where
  open api use {Conditions, find, set}

  -- The instance as the server has it behind the write.
  abbrev pub published : Instance Conditions → InstanceStatus Conditions → Instance Conditions
  published i s = record i { status = s }

  ready-other :
      (i : Instance Conditions) (applied : Bool) (t : String)
      → ("Ready" == t) ≡ false
      → find (rolled_up api i applied).conditions t ≡ find i.status.conditions t
  unfolding rolled_up
  ready-other i applied t h = api.find-set i.status.conditions _ t ∙ ground (arith, h)

  health_loop-rolled_up :
      (i : Instance Conditions) (applied : Bool) (ts : List String) (healthy : Bool)
      → any (λ t. "Ready" == t) ts ≡ false
      → health_loop api (rolled_up api i applied).conditions ts healthy
        ≡ health_loop api i.status.conditions ts healthy
  unfolding health_loop
  health_loop-rolled_up i applied [] healthy h = refl
  health_loop-rolled_up i applied (t ∷ ts) healthy h = ground (
    arith,
    ready-other i applied t,
    health_loop-rolled_up i applied ts healthy,
    health_loop-rolled_up i applied ts false,
  )

  -- No test of derivePhase reads the condition that is set from it.
  rolled_up-derive_phase :
      (i : Instance Conditions) (applied : Bool)
      → derive_phase api (published i (rolled_up api i applied)) ≡ derive_phase api i
  unfolding derive_phase dependency_health datastore_target_changed migration_running
      migration_failed instance_has_fatal_pod_issue components_ready rolled_up
  rolled_up-derive_phase i applied =
      rw (health_loop-rolled_up i applied dependency_conditions true refl) (
        rw (ready-other i applied "DatastoreTargetUnchanged" refl)
          (rw (ready-other i applied "MigrationsComplete" refl) refl))

  -- What the breaker writes into the status of the worker.
  abbrev pub breaker_of : Option WorkerComponentStatus → Bool × String
  breaker_of o = let w = or_new_worker o in (w.circuit_breaker_active, w.circuit_breaker_reason)

  -- The parts of a status that the roll-up has no say in.
  abbrev pub KeptParts : InstanceStatus Conditions → InstanceStatus Conditions → Type 0
  KeptParts s t =
      (t.database ≡ s.database)
      × (t.migration ≡ s.migration)
      × (t.click_house ≡ s.click_house)
      × (t.redis ≡ s.redis)
      × (t.blob_storage ≡ s.blob_storage)

  abbrev Kept : Instance Conditions → Instance Conditions → Type 0
  Kept i j =
      (j.status.conditions ≡ i.status.conditions)
      × (breaker_of j.status.worker ≡ breaker_of i.status.worker)
      × (j.spec ≡ i.spec)
      × (j.status.version ≡ i.status.version)
      × (j.status.public_url ≡ i.status.public_url)
      × KeptParts i.status j.status

  observe-Kept :
      (i : Instance Conditions) (web worker : Got Workload) (j : Instance Conditions)
      → observe api i web worker ≡ found j
      → Kept i j
  unfolding observe observed with_web with_worker worker_status
  observe-Kept i (found w) (found v) j h = ground arith
  observe-Kept i (found w) (failed e) j h = ground arith
  observe-Kept i (failed e) (found v) j h = ground arith
  observe-Kept i (failed e) (failed f) j h = ground arith

  ready-told :
      (i : Instance Conditions) (applied : Bool)
      → is_met (find (rolled_up api i applied).conditions "Ready") ≡ (rolled_up api i applied).ready
  unfolding rolled_up
  ready-told i applied =
      ap is_met (api.find-set i.status.conditions _ "Ready") ∙ status-true (derive_phase api i).1

  phase-again :
      (i j : Instance Conditions) (applied : Bool)
      → let s = rolled_up api j applied in derive_phase api (published i s) ≡ (s.phase, s.ready)
  unfolding rolled_up derive_phase dependency_health datastore_target_changed migration_running
      migration_failed instance_has_fatal_pod_issue components_ready
  phase-again i j applied = rolled_up-derive_phase j applied

  Kept-rolled_up :
      (i j : Instance Conditions) (applied : Bool) (t : String)
      → ("Ready" == t) ≡ false
      → Kept i j
      → let s = rolled_up api j applied in
        (breaker_of s.worker ≡ breaker_of i.status.worker)
        × KeptParts i.status s
        × (find s.conditions t ≡ find i.status.conditions t)
        × (s.version ≡ (if applied then i.spec.image_tag else i.status.version))
        × (s.public_url ≡ (if applied then i.spec.auth.next_auth_url else i.status.public_url))
  unfolding rolled_up
  Kept-rolled_up i j applied t h k = (
    k.1,
    k.5,
    ready-other j applied t h ∙ ap (λ cs. find cs t) k.0,
    ground (arith, k),
    ground (arith, k),
  )

  module _ (equal : InstanceStatus Conditions → InstanceStatus Conditions → Bool) where
    -- What is written is the status rolled up from what was observed.
    written_lem :
        (P : InstanceStatus Conditions → Type 0) (original s : InstanceStatus Conditions)
        (applied : Bool) (answer : Option ApiError) (o : Got (Instance Conditions))
        → ((j : Instance Conditions) → o ≡ found j → P (rolled_up api j applied))
        → (write_back api equal original applied answer o).0 ≡ some s
        → P s
    unfolding write_back
    written_lem P original s applied answer (failed e) k h = ground arith
    written_lem P original s applied answer (found j) k h =
        subst P (sym (if_some _ _ _ h)) (k j refl)

    -- The phase and the flag that updateStatus writes are those that derivePhase gives again for the instance as
    -- published, and the Ready condition is True exactly when the flag is set: the condition does not feed back.
    pub update_status-phase :
        (original s : InstanceStatus Conditions) (i : Instance Conditions)
        (web worker : Got Workload) (applied : Bool) (answer : Option ApiError)
        → (update_status api equal original i web worker applied answer).0 ≡ some s
        → (derive_phase api (published i s) ≡ (s.phase, s.ready))
          × (is_met (find s.conditions "Ready") ≡ s.ready)
    unfolding update_status
    update_status-phase original s i web worker applied answer =
        written_lem
          (λ s.
            (derive_phase api (published i s) ≡ (s.phase, s.ready))
            × (is_met (find s.conditions "Ready") ≡ s.ready))
          original s applied answer (observe api i web worker)
          (λ j _. (phase-again i j applied, ready-told j applied))

    -- Whatever the Deployments answer, the status that updateStatus writes keeps what the circuit breaker wrote into
    -- the worker's part, the parts of the database, the migration, ClickHouse, Redis and the blob store, and
    -- every condition but Ready; the version and the URL are those of the spec if the workload was applied,
    -- and those of before if not.
    pub update_status-keeps :
        (original s : InstanceStatus Conditions) (i : Instance Conditions)
        (web worker : Got Workload) (applied : Bool) (answer : Option ApiError) (t : String)
        → (update_status api equal original i web worker applied answer).0 ≡ some s
        → ("Ready" == t) ≡ false
        → (breaker_of s.worker ≡ breaker_of i.status.worker)
          × KeptParts i.status s
          × (find s.conditions t ≡ find i.status.conditions t)
          × (s.version ≡ (if applied then i.spec.image_tag else i.status.version))
          × (s.public_url ≡ (if applied then i.spec.auth.next_auth_url else i.status.public_url))
    unfolding update_status
    update_status-keeps original s i web worker applied answer t h other =
        written_lem
          (λ s.
            (breaker_of s.worker ≡ breaker_of i.status.worker)
            × KeptParts i.status s
            × (find s.conditions t ≡ find i.status.conditions t)
            × (s.version ≡ (if applied then i.spec.image_tag else i.status.version))
            × (s.public_url ≡ (if applied then i.spec.auth.next_auth_url else i.status.public_url)))
          original s applied answer (observe api i web worker)
          (λ j o. Kept-rolled_up i j applied t other (observe-Kept i web worker j o)) h
