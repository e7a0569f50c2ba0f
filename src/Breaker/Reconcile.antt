-- ===== src/Breaker/Reconcile.antt =====
-- Reconcile of circuit_breaker.go.
use langfuse_operator.Common.{
  bool_or, ℕ, String, Bool, true, not, Option, none, some, List, if◌then◌else◌,
}
use langfuse_operator.Api.{CircuitBreakerSpec, ConditionApi, Instance, InstanceStatus}
use langfuse_operator.Client.{
  ApiError, is_not_found, wrap, Got, found, failed, Event, Outcome, done, requeue_after, fail,
}
use langfuse_operator.Breaker.State.{Counts, forget}
use langfuse_operator.StatusWrite.{update_instance_status, status_write_failed}
use langfuse_operator.Breaker.Check.{Inputs, check_components, shortest_interval, breaker_condition}

-- What one pass leaves: the two maps, the Deployment, the events so far, the status that was sent, if
-- one was, and the result.
pub record Pass (C : Type 0) : Type 0 where
  pub counts : Counts
  pub saved : Counts
  pub deployment : Option (Option ℕ)
  pub events : List Event
  pub written : Option (InstanceStatus C)
  pub outcome : Outcome

module _ (api : ConditionApi) where
  open api use {Conditions, set}

  -- The end of a pass that changes nothing but the maps.
  leave : Counts → Counts → Option (Option ℕ) → List Event → Outcome → Pass Conditions
  leave counts saved d events o = record {
    counts = counts;
    saved = saved;
    deployment = d;
    events = events;
    written = none;
    outcome = o;
  }

  result : ℕ → Option ApiError → Outcome
  result shortest none = requeue_after shortest
  result shortest (some e) = status_write_failed e "updating circuit breaker status"

  -- Steps 3 to 5, for a breaker that is not disabled.
  run_checks :
      (InstanceStatus Conditions → InstanceStatus Conditions → Bool)
      → String
      → Instance Conditions
      → CircuitBreakerSpec
      → Inputs
      → Option ApiError
      → Counts
      → Counts
      → Option (Option ℕ)
      → List Event
      → Pass Conditions
  unfolding result
  run_checks equal key i cb inp update_error counts saved d events =
      let b = check_components key cb inp (record {
        counts = counts;
        saved = saved;
        worker = i.status.worker;
        deployment = d;
        events = events;
      }) in
      let status = record (i.status) {
        worker = b.worker;
        conditions = set i.status.conditions (breaker_condition i.generation b.worker);
      } in
      let sent = update_instance_status equal i.status status update_error in
      record {
        counts = b.counts;
        saved = b.saved;
        deployment = b.deployment;
        events = b.events;
        written = if sent.0 then some status else none;
        outcome = result (shortest_interval cb) sent.1;
      }

  -- `got` is the answer to the Get of the instance, `update_error` that to the status update.
  unfoldable pub reconcile :
      (InstanceStatus Conditions → InstanceStatus Conditions → Bool)
      → String
      → Got (Instance Conditions)
      → Inputs
      → Option ApiError
      → Counts
      → Counts
      → Option (Option ℕ)
      → List Event
      → Pass Conditions
  unfolding leave run_checks
  reconcile equal key (failed e) inp update_error counts saved d events =
      if is_not_found e.kind
      then leave (forget counts key) (forget saved key) d events done
      else leave counts saved d events (fail (wrap "fetching LangfuseInstance" e))
  reconcile equal key (found i) inp update_error counts saved d events =
      if i.deleting
      then leave (forget counts key) (forget saved key) d events done
      else elim i.spec.circuit_breaker [
        | none ↦ leave counts saved d events done
        | some cb ↦
            if not (bool_or cb.enabled true)
            then leave counts saved d events done
            else run_checks equal key i cb inp update_error counts saved d events
      ]
