-- ===== src/Breaker/Scale.antt =====
-- What one check of one component does to the worker, on every branch.
use langfuse_operator.Common.{
  ℕ, ◌+◌, ◌≤◌, ◌<◌, String, true, false, Option, none, some, ◌≡◌, arith, eq_refl, eq_iff,
}
use langfuse_operator.Api.{ComponentCircuitBreakerSpec}
use langfuse_operator.Breaker.State.{put, Breaker, Answers, is_tripped, failure_count}
use langfuse_operator.Breaker.Actions.{open_circuit_breaker, recover_circuit_breaker, restore_point}
use langfuse_operator.Breaker.Check.{check_component, threshold_of}

abbrev pub scales : String
scales = "scaleWorkerToZero"

abbrev pub restores : String
restores = "restoreScale"

-- The API server answers a check without an error.
abbrev pub IsClean : Answers → Type 0
IsClean ans = (ans.get_error ≡ none) × (ans.patch_error ≡ none)

module _ (key component : String) (spec : ComponentCircuitBreakerSpec) (ans : Answers)
    (b : Breaker) where
  -- A failed probe that reaches the threshold leaves the worker's Deployment at zero replicas and the
  -- breaker tripped, also where the breaker was tripped before and something scaled the worker up.
  pub check_component_opens :
      (d : Option ℕ)
      → spec.action ≡ scales
      → IsClean ans
      → b.deployment ≡ some d
      → threshold_of spec ≤ failure_count key component b + 1
      → let b' = check_component key component (some spec) false ans b in
        (b'.deployment ≡ some (some 0)) × (is_tripped b'.worker ≡ true)
  unfolding check_component open_circuit_breaker
  check_component_opens d acts clean e t = ground (arith, eq_iff spec.action scales)

  -- Below the threshold a failed probe only counts.
  pub check_component_waits :
      failure_count key component b + 1 < threshold_of spec
      → let b' = check_component key component (some spec) false ans b in
        (b'.deployment ≡ b.deployment)
        × (b'.worker ≡ b.worker)
        × (b'.saved ≡ b.saved)
        × (b'.events ≡ b.events)
        × (failure_count key component b' ≡ failure_count key component b + 1)
  unfolding check_component put
  check_component_waits t = ground (arith, eq_refl key, eq_refl component)

  -- A failed probe never changes a restore point while the breaker is tripped.
  pub check_component_keeps :
      is_tripped b.worker ≡ true
      → (check_component key component (some spec) false ans b).saved ≡ b.saved
  unfolding check_component open_circuit_breaker
  check_component_keeps t = ground arith

  -- The transition saves the replicas that the worker had.
  pub check_component_saves :
      (n : ℕ)
      → spec.action ≡ scales
      → IsClean ans
      → b.deployment ≡ some (some n)
      → is_tripped b.worker ≡ false
      → threshold_of spec ≤ failure_count key component b + 1
      → (check_component key component (some spec) false ans b).saved key component ≡ some n
  unfolding check_component open_circuit_breaker put
  check_component_saves n acts clean e t th =
      ground (arith, eq_iff spec.action scales, eq_refl key, eq_refl component)

  -- Every failed probe adds one to the component's count.
  pub check_component_counts :
      failure_count key component (check_component key component (some spec) false ans b)
      ≡ failure_count key component b + 1
  unfolding check_component open_circuit_breaker put
  check_component_counts = ground (arith, eq_refl key, eq_refl component)

  -- A probe that succeeds behind an open circuit restores the saved replicas, closes the breaker,
  -- forgets the restore point and resets the count.
  pub check_component_recovers :
      (d : Option ℕ)
      → spec.action ≡ scales
      → spec.recovery_action ≡ restores
      → IsClean ans
      → b.deployment ≡ some d
      → threshold_of spec ≤ failure_count key component b
      → let b' = check_component key component (some spec) true ans b in
        (b'.deployment ≡ some (some (restore_point (b.saved key component))))
        × (is_tripped b'.worker ≡ false)
        × (b'.saved key component ≡ none)
        × (failure_count key component b' ≡ 0)
  unfolding check_component recover_circuit_breaker put
  check_component_recovers d acts rec clean e th = ground (
    arith,
    eq_iff spec.action scales,
    eq_iff spec.recovery_action restores,
    eq_refl key,
    eq_refl component,
  )
