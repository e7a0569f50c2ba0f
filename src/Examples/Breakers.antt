-- ===== src/Examples/Breakers.antt =====
-- A worker with three replicas that Redis and ClickHouse guard.
use langfuse_operator.Common.{◌≤◌, ◌<◌, pos, true, false, none, some, [], ◌∷◌, ◌≡◌, refl, arith}
use langfuse_operator.Api.{ComponentCircuitBreakerSpec, new_worker_status}
use langfuse_operator.Client.{other}
use langfuse_operator.Breaker.State.{Breaker, Answers, is_tripped, failure_count}
use langfuse_operator.Breaker.Actions.{restore_point}
use langfuse_operator.Breaker.Check.{check_component, check_components, threshold_of}
use langfuse_operator.Breaker.Scale.{scales, restores}
use langfuse_operator.Breaker.Passes.{scaled_to, fail_passes, open_then_recover}
use langfuse_operator.Breaker.Faults.{
  two_guards, redis_back, early_recovery, succeed_passes, lost_recovery,
}

abbrev guard : ComponentCircuitBreakerSpec
guard = record {
  action = scales;
  probe_interval_seconds = pos 30;
  failure_threshold = pos 3;
  recovery_action = restores;
}

abbrev clean : Answers
clean = record { get_error = none; patch_error = none }

-- Two probes of each component failed.
abbrev shaky : Breaker
shaky = record {
  counts = λ k c. some 2;
  saved = λ k c. none;
  worker = none;
  deployment = some (some 3);
  events = [];
}

-- Both circuits are open.
abbrev both_open : Breaker
both_open = record shaky {
  counts = λ k c. some 3;
  saved = λ k c. some 3;
  worker = some (record new_worker_status { circuit_breaker_active = true });
  deployment = some (some 0);
}

open_then_recover_example :
    let opened = check_component "ns/demo" "redis" (some guard) false clean shaky in
    let held =
      scaled_to (some 1) (fail_passes "ns/demo" "redis" guard clean (some 5 ∷ none ∷ []) opened) in
    let closed = check_component "ns/demo" "redis" (some guard) true clean held in
    (closed.deployment ≡ some (some 3))
    × (is_tripped closed.worker ≡ false)
    × (closed.saved "ns/demo" "redis" ≡ none)
    × (failure_count "ns/demo" "redis" closed ≡ 0)
unfolding failure_count threshold_of
open_then_recover_example =
    open_then_recover "ns/demo" "redis" guard clean refl (refl, refl) 2 (some 5 ∷ none ∷ [])
      (some 1) shaky refl refl refl (omega arith)

early_recovery_example :
    let b' =
      check_components "ns/demo" (two_guards none guard guard) (redis_back clean) both_open in
    (threshold_of guard ≤ failure_count "ns/demo" "clickhouse" b')
    × (b'.deployment ≡ some (some (restore_point (both_open.saved "ns/demo" "redis"))))
    × (0 < restore_point (both_open.saved "ns/demo" "redis"))
    × (is_tripped b'.worker ≡ false)
unfolding failure_count threshold_of
early_recovery_example =
    early_recovery "ns/demo" guard guard clean both_open none (some 0) refl refl refl (refl, refl)
      refl (omega arith) (omega arith)

abbrev refused : Answers
refused = record { get_error = none; patch_error = some (record { kind = other; text = "no" }) }

lost_recovery_example :
    let b' =
      succeed_passes "ns/demo" "redis" guard
        (clean ∷ clean ∷ [])
        (check_component "ns/demo" "redis" (some guard) true refused both_open) in
    (b'.deployment ≡ both_open.deployment) × (b'.worker ≡ both_open.worker)
lost_recovery_example =
    lost_recovery "ns/demo" "redis" guard both_open (record { kind = other; text = "no" }) refused
      (clean ∷ clean ∷ []) refl
