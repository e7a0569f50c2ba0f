-- ===== src/Breaker/State.antt =====
-- The state that the circuit breaker works on. A nil map reads as an empty one, so the maps of the
-- controller are functions from the instance's key and the component's name, and making an empty map is
-- no step.
use langfuse_operator.Common.{
  ℕ, String, ◌==◌, Bool, false, ◌&&◌, Option, none, some, List, [], ◌∷◌, ◌++◌, if◌then◌else◌,
}
use langfuse_operator.Api.{WorkerComponentStatus, new_worker_status}
use langfuse_operator.Client.{ApiError, Event}

abbrev pub Counts : Type 0
Counts = String → String → Option ℕ

-- m[key][component] = v
unfoldable pub put : Counts → String → String → Option ℕ → Counts
put m key component v k c = if k == key && c == component then v else m k c

-- delete(m, key)
unfoldable pub forget : Counts → String → Counts
forget m key k c = if k == key then none else m k c

-- Reading a missing entry of a map of numbers gives 0.
abbrev pub or_zero : Option ℕ → ℕ
or_zero none = 0
or_zero (some n) = n

-- The controller's memory, the part of the status that the breaker owns, and the cluster: `deployment`
-- is the worker's Deployment, if there is one, with its `spec.replicas`.
pub record Breaker : Type 0 where
  pub counts : Counts
  pub saved : Counts
  pub worker : Option WorkerComponentStatus
  pub deployment : Option (Option ℕ)
  pub events : List Event

-- The errors that the API server gives to the Get and the Patch of a component's check, if it does.
pub record Answers : Type 0 where
  pub get_error : Option ApiError
  pub patch_error : Option ApiError

abbrev pub is_tripped : Option WorkerComponentStatus → Bool
is_tripped none = false
is_tripped (some w) = w.circuit_breaker_active

-- `if instance.Status.Worker == nil { … }`
abbrev pub worker_or_new : Option WorkerComponentStatus → WorkerComponentStatus
worker_or_new none = new_worker_status
worker_or_new (some w) = w

unfoldable pub emit : String → String → String → Breaker → Breaker
emit type reason message b = record b {
  events = b.events ++ record { type = type; reason = reason; message = message } ∷ [];
}

unfoldable pub failure_count : String → String → Breaker → ℕ
failure_count key component b = or_zero (b.counts key component)
