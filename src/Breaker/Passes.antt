-- ===== src/Breaker/Passes.antt =====
-- From the first failure to recovery: many passes, between which other controllers scale the worker.
use langfuse_operator.Common.{
  ℕ, suc, ◌+◌, ◌≤◌, String, true, false, Option, none, some, List, [], ◌∷◌, ◌≡◌, ◌∙◌, refl, ap,
  arith,
}
use langfuse_operator.Api.{ComponentCircuitBreakerSpec}
use langfuse_operator.Breaker.State.{Breaker, Answers, is_tripped, failure_count}
use langfuse_operator.Breaker.Actions.{restore_point}
use langfuse_operator.Breaker.Check.{check_component, threshold_of}
use langfuse_operator.Breaker.Scale.{
  scales, restores, IsClean, check_component_opens, check_component_keeps, check_component_saves,
  check_component_counts, check_component_recovers,
}

-- Another controller writes the Deployment's replicas.
abbrev pub scaled_to : Option ℕ → Breaker → Breaker
scaled_to d b = record b { deployment = some d }

module _ (key component : String) (spec : ComponentCircuitBreakerSpec) (ans : Answers) where
  -- Failed probes, each after a write of the replicas by someone else.
  pub fail_passes : List (Option ℕ) → Breaker → Breaker
  fail_passes [] b = b
  fail_passes (d ∷ ds) b =
      fail_passes ds (check_component key component (some spec) false ans (scaled_to d b))

  -- The circuit is open, and the worker had `n` replicas when it opened.
  pub record IsOpen (n : ℕ) (b : Breaker) : Type 0 where
    pub tripped : is_tripped b.worker ≡ true
    pub reached : threshold_of spec ≤ failure_count key component b
    pub kept : b.saved key component ≡ some n

  module _ (acts : spec.action ≡ scales) (clean : IsClean ans) where
    fail-IsOpen :
        (n : ℕ) (d : Option ℕ) (b : Breaker)
        → IsOpen n b
        → IsOpen n (check_component key component (some spec) false ans (scaled_to d b))
    unfolding failure_count
    fail-IsOpen n d b o =
        let b0 = scaled_to d b in
        record {
          tripped =
              (check_component_opens key component spec ans b0 d acts clean refl
                (omega (arith, o.reached))).1;
          reached = omega (arith, o.reached, check_component_counts key component spec ans b0);
          kept = rw (check_component_keeps key component spec ans b0 o.tripped) o.kept;
        }

    fail_passes-IsOpen :
        (n : ℕ) (ds : List (Option ℕ)) (b : Breaker) → IsOpen n b → IsOpen n (fail_passes ds b)
    unfolding fail_passes
    fail_passes-IsOpen n [] b o = o
    fail_passes-IsOpen n (d ∷ ds) b o = fail_passes-IsOpen n ds _ (fail-IsOpen n d b o)

    opening-IsOpen :
        (n : ℕ) (b : Breaker)
        → is_tripped b.worker ≡ false
        → b.deployment ≡ some (some n)
        → threshold_of spec ≤ failure_count key component b + 1
        → IsOpen n (check_component key component (some spec) false ans b)
    opening-IsOpen n b t e th = record {
      tripped = (check_component_opens key component spec ans b (some n) acts clean e th).1;
      reached = omega (arith, check_component_counts key component spec ans b);
      kept = check_component_saves key component spec ans b n acts clean e t th;
    }

    -- The breaker opens on a worker with replicas; then any number of probes fail, and before each
    -- something may scale the worker to any size; then a probe succeeds. The worker is back at the
    -- replicas it had, the breaker is closed, and the count and the restore point are gone.
    pub open_then_recover :
        (n : ℕ) (ds : List (Option ℕ)) (d : Option ℕ) (b : Breaker)
        → spec.recovery_action ≡ restores
        → is_tripped b.worker ≡ false
        → b.deployment ≡ some (some (suc n))
        → threshold_of spec ≤ failure_count key component b + 1
        → let opened = check_component key component (some spec) false ans b in
          let held = scaled_to d (fail_passes ds opened) in
          let closed = check_component key component (some spec) true ans held in
          (closed.deployment ≡ some (some (suc n)))
          × (is_tripped closed.worker ≡ false)
          × (closed.saved key component ≡ none)
          × (failure_count key component closed ≡ 0)
    unfolding restore_point failure_count
    open_then_recover n ds d b rec t e th =
        let opened = check_component key component (some spec) false ans b in
        let o : IsOpen (suc n) (fail_passes ds opened) =
          fail_passes-IsOpen (suc n) ds opened (opening-IsOpen (suc n) b t e th) in
        let held = scaled_to d (fail_passes ds opened) in
        let r =
          check_component_recovers key component spec ans held d acts rec clean refl o.reached in
        (r.0 ∙ ap (λ p. some (some (restore_point p))) o.kept, r.1, r.2, r.3)
