-- ===== src/Breaker/Faults.antt =====
-- Where the breaker does not protect the worker: two components that share it, and a recovery whose
-- patch fails.
use langfuse_operator.Common.{
  ℕ, ◌+◌, ◌≤◌, ◌<◌, String, ◌==◌, Bool, true, false, Option, none, some, ◌≡◌, ◌∙◌, ap, List, [],
  ◌∷◌, refl, arith, eq_refl, eq_iff,
}
use langfuse_operator.Api.{ComponentCircuitBreakerSpec, CircuitBreakerSpec}
use langfuse_operator.Client.{ApiError}
use langfuse_operator.Breaker.State.{put, Breaker, Answers, is_tripped, failure_count}
use langfuse_operator.Breaker.Actions.{open_circuit_breaker, recover_circuit_breaker, restore_point}
use langfuse_operator.Breaker.Check.{check_component, threshold_of, Inputs, check_components}
use langfuse_operator.Breaker.Scale.{
  scales, restores, IsClean, check_component_opens, check_component_recovers,
  check_component_counts,
}

-- A check of one component leaves the counts and the restore points of the others.
pub check_component_frame :
    (key component other : String) (spec : ComponentCircuitBreakerSpec) (connected : Bool)
    (ans : Answers) (b : Breaker)
    → (component == other) ≡ false
    → let b' = check_component key component (some spec) connected ans b in
      (failure_count key other b' ≡ failure_count key other b)
      × (b'.saved key other ≡ b.saved key other)
unfolding check_component open_circuit_breaker recover_circuit_breaker put
check_component_frame key component other spec true ans b ne =
    ground (arith, eq_refl key, eq_iff other component, eq_iff component other)
check_component_frame key component other spec false ans b ne =
    ground (arith, eq_refl key, eq_iff other component, eq_iff component other)

restore_point-pos : (o : Option ℕ) → 0 < restore_point o
unfolding restore_point
restore_point-pos o = ground arith

-- ClickHouse's probe fails and Redis's succeeds; the server answers alike.
abbrev pub redis_back : Answers → Inputs
redis_back ans = record {
  click_house_connected = false;
  redis_connected = true;
  database_connected = false;
  click_house_answers = ans;
  redis_answers = ans;
  database_answers = ans;
}

abbrev pub two_guards :
    Option Bool → ComponentCircuitBreakerSpec → ComponentCircuitBreakerSpec → CircuitBreakerSpec
two_guards enabled s1 s2 = record {
  enabled = enabled;
  click_house = some s1;
  redis = some s2;
  database = none;
}

module _ (key : String) (s1 s2 : ComponentCircuitBreakerSpec) (ans : Answers) (b : Breaker) where
  -- ClickHouse and Redis guard one worker. In a pass in which ClickHouse still fails with its circuit
  -- open and Redis recovers from an open circuit, the worker is scaled up again, to Redis's restore
  -- point or to 1, and the breaker is closed, though ClickHouse's count is past its threshold.
  pub early_recovery :
      (enabled : Option Bool) (d : Option ℕ)
      → s1.action ≡ scales
      → s2.action ≡ scales
      → s2.recovery_action ≡ restores
      → IsClean ans
      → b.deployment ≡ some d
      → threshold_of s1 ≤ failure_count key "clickhouse" b + 1
      → threshold_of s2 ≤ failure_count key "redis" b
      → let b' = check_components key (two_guards enabled s1 s2) (redis_back ans) b in
        (threshold_of s1 ≤ failure_count key "clickhouse" b')
        × (b'.deployment ≡ some (some (restore_point (b.saved key "redis"))))
        × (0 < restore_point (b.saved key "redis"))
        × (is_tripped b'.worker ≡ false)
  unfolding check_components
  early_recovery enabled d a1 a2 r clean e t1 t2 =
      let b1 = check_component key "clickhouse" (some s1) false ans b in
      let opened = check_component_opens key "clickhouse" s1 ans b d a1 clean e t1 in
      let frame1 = check_component_frame key "clickhouse" "redis" s1 false ans b refl in
      let frame2 = check_component_frame key "redis" "clickhouse" s2 true ans b1 refl in
      let closed =
        check_component_recovers key "redis" s2 ans b1 (some 0) a2 r clean opened.0
          (omega (arith, frame1)) in
      (
        omega (arith, frame2, check_component_counts key "clickhouse" s1 ans b),
        closed.0 ∙ ap (λ o. some (some (restore_point o))) frame1.1,
        restore_point-pos (b.saved key "redis"),
        closed.1,
      )

module _ (key component : String) (spec : ComponentCircuitBreakerSpec) (ans : Answers)
    (b : Breaker) where
  -- A probe that succeeds, and whose patch fails or is not due, leaves the worker and resets the count.
  unrestored :
      (e : ApiError)
      → ans.patch_error ≡ some e
      → let b' = check_component key component (some spec) true ans b in
        (b'.deployment ≡ b.deployment)
        × (b'.worker ≡ b.worker)
        × (failure_count key component b' ≡ 0)
  unfolding check_component recover_circuit_breaker put
  unrestored e p = ground (arith, eq_refl key, eq_refl component)

  not_due :
      0 < threshold_of spec
      → failure_count key component b ≡ 0
      → let b' = check_component key component (some spec) true ans b in
        (b'.deployment ≡ b.deployment)
        × (b'.worker ≡ b.worker)
        × (failure_count key component b' ≡ 0)
  unfolding check_component put
  not_due t z = ground (arith, eq_refl key, eq_refl component)

threshold-pos : (spec : ComponentCircuitBreakerSpec) → 0 < threshold_of spec
unfolding threshold_of
threshold-pos spec = ground arith

module _ (key component : String) (spec : ComponentCircuitBreakerSpec) where
  -- Further probes that succeed, each with the server's answers to its check.
  pub succeed_passes : List Answers → Breaker → Breaker
  succeed_passes [] b = b
  succeed_passes (ans ∷ rest) b =
      succeed_passes rest (check_component key component (some spec) true ans b)

  succeed_idle :
      (rest : List Answers) (b : Breaker)
      → failure_count key component b ≡ 0
      → let b' = succeed_passes rest b in (b'.deployment ≡ b.deployment) × (b'.worker ≡ b.worker)
  unfolding succeed_passes
  succeed_idle [] b z = (refl, refl)
  succeed_idle (ans ∷ rest) b z =
      let n = not_due key component spec ans b (threshold-pos spec) z in
      let r = succeed_idle rest (check_component key component (some spec) true ans b) n.2 in
      (r.0 ∙ n.0, r.1 ∙ n.1)

  -- A recovery whose patch fails is not tried again, however many probes succeed afterwards and
  -- however the server answers: the Deployment stays as it was, and so does the worker's status.
  pub lost_recovery :
      (b : Breaker) (e : ApiError) (ans : Answers) (rest : List Answers)
      → ans.patch_error ≡ some e
      → let b' = succeed_passes rest (check_component key component (some spec) true ans b) in
        (b'.deployment ≡ b.deployment) × (b'.worker ≡ b.worker)
  lost_recovery b e ans rest p =
      let u = unrestored key component spec ans b e p in
      let r = succeed_idle rest (check_component key component (some spec) true ans b) u.2 in
      (r.0 ∙ u.0, r.1 ∙ u.1)
