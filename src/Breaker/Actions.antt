-- ===== src/Breaker/Actions.antt =====
-- openCircuitBreaker and recoverCircuitBreaker of circuit_breaker.go.
use langfuse_operator.Common.{
  ℕ, zero, suc, String, ◌==◌, ◌<>◌, decimal, Bool, true, false, not, ◌&&◌, Option, none, some, eqb,
  if◌then◌else◌,
}
use langfuse_operator.Api.{ComponentCircuitBreakerSpec}
use langfuse_operator.Client.{ApiError, not_found, is_not_found, wrap, Got, found, failed}
use langfuse_operator.Breaker.State.{
  put, Breaker, Answers, is_tripped, worker_or_new, emit, failure_count,
}

-- The Get of the worker's Deployment: its replicas, 1 where the pointer is nil.
get_deployment : Answers → Option (Option ℕ) → Got ℕ
get_deployment ans d = elim ans.get_error [
  | some e ↦ failed e
  | none ↦ elim d [
    | none ↦ failed (record { kind = not_found; text = "" })
    | some none ↦ found 1
    | some (some n) ↦ found n
  ]
]

-- What follows the successful patch of openCircuitBreaker.
mark_open : String → String → Bool → Breaker → Breaker
unfolding emit failure_count
mark_open key component already b =
    let marked = record b {
      deployment = some (some 0);
      worker = some (record (worker_or_new b.worker) {
        circuit_breaker_active = true;
        circuit_breaker_reason = component <> " dependency unhealthy";
      });
    } in
    if already
    then marked
    else emit "Warning" "CircuitBreakerOpen"
        ("Scaled worker to 0: "
          <> component
          <> " dependency unhealthy (failures="
          <> decimal (failure_count key component b)
          <> ")")
        marked

-- openCircuitBreaker behind the Get, with the replicas that it read.
open_at : String → String → Answers → ℕ → Breaker → Breaker × Option ApiError
unfolding mark_open
open_at key component ans current b =
    let already = is_tripped b.worker in
    let kept =
      if already then b else record b { saved = put b.saved key component (some current) } in
    if already && eqb current 0 then (b, none) else elim ans.patch_error [
      | some e ↦ (kept, some (wrap "scaling worker to zero" e))
      | none ↦ (mark_open key component already kept, none)
    ]

unfoldable pub open_circuit_breaker :
    String → String → ComponentCircuitBreakerSpec → Answers → Breaker → Breaker × Option ApiError
unfolding get_deployment open_at
open_circuit_breaker key component spec ans b =
    if not (spec.action == "scaleWorkerToZero")
    then (
      if spec.action == "emitCriticalEvent"
          then emit "Warning" "CircuitBreakerOpen"
              ("Circuit breaker opened for " <> component <> ": dependency unhealthy") b
          else b,
      none,
    )
    else elim (get_deployment ans b.deployment) [
      | failed e ↦
          (b, if is_not_found e.kind then none else some (wrap "getting worker deployment" e))
      | found current ↦ open_at key component ans current b
    ]

-- The saved replicas, 1 where none are saved or zero were.
unfoldable pub restore_point : Option ℕ → ℕ
restore_point none = 1
restore_point (some zero) = 1
restore_point (some (suc n)) = suc n

mark_closed : String → String → ℕ → Breaker → Breaker
unfolding emit
mark_closed key component replicas b =
    emit "Normal" "CircuitBreakerClosed"
      ("Restored worker to "
        <> decimal replicas
        <> " replicas: "
        <> component
        <> " dependency recovered")
      (record b {
        deployment = some (some replicas);
        worker = some (record (worker_or_new b.worker) {
          circuit_breaker_active = false;
          circuit_breaker_reason = "";
        });
        saved = put b.saved key component none;
      })

unfoldable pub recover_circuit_breaker :
    String → String → ComponentCircuitBreakerSpec → Answers → Breaker → Breaker × Option ApiError
unfolding get_deployment mark_closed
recover_circuit_breaker key component spec ans b =
    if not (spec.action == "scaleWorkerToZero" && spec.recovery_action == "restoreScale")
    then (
      if spec.action == "emitCriticalEvent"
          then emit "Normal" "CircuitBreakerClosed"
              ("Circuit breaker closed for " <> component <> ": dependency recovered") b
          else b,
      none,
    )
    else let replicas = restore_point (b.saved key component) in
      elim (get_deployment ans b.deployment) [
        | failed e ↦ (
          b,
          if is_not_found e.kind
              then none
              else some (wrap "getting worker deployment for recovery" e),
        )
        | found current ↦ elim ans.patch_error [
          | some e ↦ (b, some (wrap "restoring worker replicas" e))
          | none ↦ (mark_closed key component replicas b, none)
        ]
      ]
