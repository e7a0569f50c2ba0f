-- ===== src/Instances/Yielded.antt =====
-- The replicas of the worker, which the circuit breaker takes over.
use langfuse_operator.Common.{
  ℤ, is_some, any, any-append, ◌||◌, Bool, true, false, not, bool_or, Option, none, some, List, [],
  ◌∷◌, ◌++◌, only_if, ◌≡◌, refl, ◌∙◌, ap, arith, Bool-cases, inl, inr, Result-cases,
}
use langfuse_operator.Api.{ConditionApi, AutoscalingSpec, Instance, InstanceStatus}
use langfuse_operator.Client.{found}
use langfuse_operator.Migration.Parts.{any_of}
use langfuse_operator.Config.Env.{Config}
use langfuse_operator.Config.Build.{build_config}
use langfuse_operator.Builders.Deployments.{
  build_worker_deployment, owned_replicas, circuit_breaker_holds_worker,
}
use langfuse_operator.Rollup.Update.{managed_click_house, managed_redis, service_monitor}
use langfuse_operator.Instances.Resources.{
  click_house_config_map, click_house_service, click_house_stateful_set, redis_service,
  redis_stateful_set, web_deployment, web_service, worker_deployment, web_network_policy,
  worker_network_policy, ingress, route, http_route, web_hpa, worker_hpa, web_pdb, worker_pdb,
}
use langfuse_operator.Instances.Apply.{
  Request, patch, remove_monitor, Server, enabled, autoscaled, budgeted,
}
use langfuse_operator.Instances.Planned.{planned, up_to_failure}
use langfuse_operator.Instances.Frozen.{reconcile_frozen}
use langfuse_operator.Instances.Applied.{reconcile_applied, reconcile-refused}
use langfuse_operator.Instances.Reconcile.{Reads, moved_components, reconcile}

-- Whether a request declares a replica count for the worker.
unfoldable pub declares : Request → Bool
declares (patch (worker_deployment d)) = is_some d.replicas
declares (patch click_house_config_map) = false
declares (patch click_house_service) = false
declares (patch click_house_stateful_set) = false
declares (patch redis_service) = false
declares (patch redis_stateful_set) = false
declares (patch (web_deployment _)) = false
declares (patch web_service) = false
declares (patch web_network_policy) = false
declares (patch worker_network_policy) = false
declares (patch ingress) = false
declares (patch route) = false
declares (patch http_route) = false
declares (patch web_hpa) = false
declares (patch worker_hpa) = false
declares (patch web_pdb) = false
declares (patch worker_pdb) = false
declares remove_monitor = false

-- Another controller scales the worker: the circuit breaker, or an HPA.
abbrev pub scaled_elsewhere : {C : Type 0} → Instance C → Bool
scaled_elsewhere i = circuit_breaker_holds_worker i || autoscaled i.spec.worker.autoscaling

any-up_to_failure :
    (p : Request → Bool) (s : Server) (qs : List Request)
    → any p qs ≡ false
    → any p (up_to_failure s qs) ≡ false
unfolding up_to_failure
any-up_to_failure p s [] h = refl
any-up_to_failure p s (q ∷ qs) h = ground (arith, any-up_to_failure p s qs, h)

-- A list of requests of which one declares a count, or none does.
record Tells (qs : List Request) (told : Bool) : Type 0 where
  tells : any declares qs ≡ told

Tells-if : (b : Bool) {qs : List Request} → Tells qs false → Tells (only_if b qs) false
Tells-if true t = t
Tells-if false t = record { tells = refl }

Tells-append :
    {xs ys : List Request} {a b : Bool} → Tells xs a → Tells ys b → Tells (xs ++ ys) (a || b)
Tells-append {xs} {ys} {a} t u = record {
  tells =
      any-append declares xs ys ∙ ap (λ c. c || any declares ys) t.tells ∙ ap (λ c. a || c) u.tells;
}

Tells-behind :
    (q : Request) {qs : List Request} {b : Bool} → Tells qs b → Tells (q ∷ qs) (declares q || b)
Tells-behind q t = record { tells = ap (λ b. declares q || b) t.tells }

-- Objects that are no Deployment of the worker.
others : (b : Bool) (qs : List Request) → any declares qs ≡ false → Tells (only_if b qs) false
others b qs h = Tells-if b (record { tells = h })

owned-some :
    (configured : Option ℤ) (a : Option AutoscalingSpec) (held : Bool)
    → is_some (owned_replicas configured a held) ≡ not (held || autoscaled a)
unfolding owned_replicas
owned-some configured none held = ground arith
owned-some configured (some a) held = ground arith

-- The plan declares a count exactly when no other controller scales the worker.
pub planned-declares :
    {C : Type 0} (i : Instance C) (config : Config)
    → any declares (planned i config) ≡ not (scaled_elsewhere i)
unfolding planned declares build_worker_deployment
planned-declares i config =
    (Tells-append (others (managed_click_house i.spec.click_house) _ refl) (
      Tells-append (others (managed_redis i.spec.redis) _ refl) (
        Tells-behind _ (
          Tells-behind _ (
            Tells-behind (patch (worker_deployment (build_worker_deployment i config))) (
              Tells-append
                (Tells-append (others (bool_or i.spec.network_policy true) _ refl) (
                  Tells-append (others (enabled i.spec.ingress) _ refl) (
                    Tells-append (others (enabled i.spec.route) _ refl)
                      (others (enabled i.spec.gateway_api) _ refl))))
                (Tells-append
                  (Tells-append (others (autoscaled i.spec.web.autoscaling) _ refl)
                    (others (autoscaled i.spec.worker.autoscaling) _ refl))
                  (Tells-append
                    (Tells-append (others (budgeted i.spec.web.pod_disruption_budget) _ refl)
                      (others (budgeted i.spec.worker.pod_disruption_budget) _ refl))
                    (others (service_monitor i.spec.observability) _ refl))))))))).tells
    ∙ ground (
      arith,
      owned-some i.spec.worker.replicas i.spec.worker.autoscaling (circuit_breaker_holds_worker i),
    )

module _ (api : ConditionApi) where
  open api use {Conditions}

  module _ (equal : InstanceStatus Conditions → InstanceStatus Conditions → Bool) where
    -- Whatever a pass over a live instance does, it leaves the count alone where the plan does.
    pub reconcile_yields :
        (i : Instance Conditions) (s : Server) (r : Reads)
        → i.deleting ≡ false
        → scaled_elsewhere i ≡ true
        → any declares (reconcile api equal (found i) s r).requests ≡ false
    reconcile_yields i s r alive held = elim (Bool-cases (any_of (moved_components i))) [
      | inl moved ↦ ap (any declares) (reconcile_frozen api equal i s r alive moved).0
      | inr still ↦ elim (Result-cases (build_config i)) [
        | inl c ↦
            ap (any declares) (reconcile_applied api equal i s r c.0 alive still c.1).0
            ∙ any-up_to_failure declares s (planned i c.0) (planned-declares i c.0 ∙ ap not held)
        | inr e ↦ ap (any declares) (reconcile-refused api equal i s r e.0 alive still e.1)
      ]
    ]
