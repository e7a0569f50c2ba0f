-- ===== src/Breaker/Check.antt =====
-- The loop of Reconcile in circuit_breaker.go. An `int` counter of probes, one in a second at most,
-- does not reach 2 ^ 63.
use langfuse_operator.Common.{
  ℕ, is_pos, to_ℕ, ◌+◌, String, ◌<>◌, Bool, Option, none, some, ltb, leb, if◌then◌else◌,
}
use langfuse_operator.Api.{
  ComponentCircuitBreakerSpec, CircuitBreakerSpec, Condition, condition_true, condition_false,
  WorkerComponentStatus,
}
use langfuse_operator.Breaker.State.{put, Breaker, Answers, is_tripped, failure_count}
use langfuse_operator.Breaker.Actions.{open_circuit_breaker, recover_circuit_breaker}

abbrev pub default_probe_interval_seconds : ℕ
default_probe_interval_seconds = 15

abbrev pub default_failure_threshold : ℕ
default_failure_threshold = 3

unfoldable pub threshold_of : ComponentCircuitBreakerSpec → ℕ
threshold_of spec =
    if is_pos spec.failure_threshold then to_ℕ spec.failure_threshold else default_failure_threshold

unfoldable pub probe_interval : ComponentCircuitBreakerSpec → ℕ
probe_interval spec =
    if is_pos spec.probe_interval_seconds
    then to_ℕ spec.probe_interval_seconds
    else default_probe_interval_seconds

set_count : String → String → ℕ → Breaker → Breaker
set_count key component n b = record b { counts = put b.counts key component (some n) }

-- One round of the loop over the components; errors of the actions are only logged. `connected` is the
-- result of the component's probe.
unfoldable pub check_component :
    String → String → Option ComponentCircuitBreakerSpec → Bool → Answers → Breaker → Breaker
unfolding set_count threshold_of failure_count
check_component key component none connected ans b = b
check_component key component (some spec) connected ans b =
    let previous = failure_count key component b in
    let reset = set_count key component 0 b in
    let raised = set_count key component (previous + 1) b in
    if connected
    then (if leb (threshold_of spec) previous
        then (recover_circuit_breaker key component spec ans reset).0
        else reset)
    else if leb (threshold_of spec) (previous + 1)
    then (open_circuit_breaker key component spec ans raised).0
    else raised

-- The shortest interval so far.
shorten : Option ComponentCircuitBreakerSpec → ℕ → ℕ
unfolding probe_interval
shorten none shortest = shortest
shorten (some spec) shortest =
    if ltb (probe_interval spec) shortest then probe_interval spec else shortest

-- What the probes of the three components find, and the API server's answers to each check.
pub record Inputs : Type 0 where
  pub click_house_connected : Bool
  pub redis_connected : Bool
  pub database_connected : Bool
  pub click_house_answers : Answers
  pub redis_answers : Answers
  pub database_answers : Answers

-- The loop over the components, in its order.
unfoldable pub check_components : String → CircuitBreakerSpec → Inputs → Breaker → Breaker
unfolding check_component
check_components key cb inp b =
    check_component key "database" cb.database inp.database_connected inp.database_answers (
      check_component key "redis" cb.redis inp.redis_connected inp.redis_answers (
        check_component key "clickhouse" cb.click_house inp.click_house_connected
          inp.click_house_answers b))

unfoldable pub shortest_interval : CircuitBreakerSpec → ℕ
unfolding shorten
shortest_interval cb =
    shorten cb.database (shorten cb.redis (shorten cb.click_house default_probe_interval_seconds))

unfoldable pub breaker_message : Option WorkerComponentStatus → String
breaker_message none = "All dependency circuit breakers are closed"
breaker_message (some w) =
    if w.circuit_breaker_active
    then "Circuit breaker active: " <> w.circuit_breaker_reason
    else "All dependency circuit breakers are closed"

unfoldable pub breaker_condition : ℕ → Option WorkerComponentStatus → Condition
unfolding breaker_message
breaker_condition generation w = record {
  type = "CircuitBreakerHealthy";
  status = if is_tripped w then condition_false else condition_true;
  reason = if is_tripped w then "CircuitOpen" else "AllDependenciesHealthy";
  message = breaker_message w;
  observed_generation = generation;
}
