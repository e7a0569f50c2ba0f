-- ===== src/Instances/Planned.antt =====
-- The requests of a pass against the list of what an instance asks for.
use langfuse_operator.Common.{
  String, Bool, true, false, not, ◌&&◌, bool_or, Option, none, some, is_some, List, [], ◌∷◌, ◌++◌,
  only_if, ◌≡◌, refl, arith, if◌then◌else◌,
}
use langfuse_operator.Api.{Instance}
use langfuse_operator.Client.{ApiError}
use langfuse_operator.Config.Env.{Config}
use langfuse_operator.Builders.Deployments.{build_web_deployment, build_worker_deployment}
use langfuse_operator.Rollup.Update.{managed_click_house, managed_redis, service_monitor}
use langfuse_operator.Instances.Resources.{
  Resource, click_house_config_map, click_house_service, click_house_stateful_set, redis_service,
  redis_stateful_set, web_deployment, web_service, worker_deployment, web_network_policy,
  worker_network_policy, ingress, route, http_route, web_hpa, worker_hpa, web_pdb, worker_pdb,
}
use langfuse_operator.Instances.Apply.{
  autoscaled, budgeted, Request, patch, remove_monitor, Server, Steps, nothing, ◌>>◌, wrapped,
  within, when, enabled, send, own, apply, removal, remove_retired_service_monitor, apply_as,
}

-- What an instance asks for, in order.
unfoldable pub planned : {C : Type 0} → Instance C → Config → List Request
unfolding build_web_deployment build_worker_deployment
planned i config =
    only_if (managed_click_house i.spec.click_house) (
      patch click_house_config_map
      ∷ patch click_house_service
      ∷ patch click_house_stateful_set
      ∷ [])
    ++ (only_if (managed_redis i.spec.redis) (patch redis_service ∷ patch redis_stateful_set ∷ [])
        ++ (patch (web_deployment (build_web_deployment i config))
            ∷ patch web_service
            ∷ patch (worker_deployment (build_worker_deployment i config))
            ∷ ((only_if (bool_or i.spec.network_policy true)
                    (patch web_network_policy ∷ patch worker_network_policy ∷ [])
                  ++ (only_if (enabled i.spec.ingress) (patch ingress ∷ [])
                      ++ (only_if (enabled i.spec.route) (patch route ∷ [])
                          ++ only_if (enabled i.spec.gateway_api) (patch http_route ∷ []))))
                ++ ((only_if (autoscaled i.spec.web.autoscaling) (patch web_hpa ∷ [])
                      ++ only_if (autoscaled i.spec.worker.autoscaling) (patch worker_hpa ∷ []))
                    ++ ((only_if (budgeted i.spec.web.pod_disruption_budget) (patch web_pdb ∷ [])
                          ++ only_if (budgeted i.spec.worker.pod_disruption_budget)
                              (patch worker_pdb ∷ []))
                        ++ only_if (service_monitor i.spec.observability) (remove_monitor ∷ []))))))

-- Whether a request is sent at all, and whether it is answered well.
unfoldable pub prepared : Server → Request → Bool
prepared s (patch r) = not (is_some (s.set_owner r)) && not (is_some (s.find_gvk r))
prepared s remove_monitor = true

unfoldable pub accepted : Server → Request → Bool
unfolding removal
accepted s (patch r) = not (is_some (s.patched r))
accepted s remove_monitor = not (is_some (removal s s.removed))

-- The requests up to the first that fails, which is among them if it was sent.
unfoldable pub up_to_failure : Server → List Request → List Request
unfolding prepared accepted
up_to_failure s [] = []
up_to_failure s (q ∷ qs) =
    let rest = up_to_failure s qs in
    if prepared s q then (if accepted s q then q ∷ rest else q ∷ []) else []

unfoldable pub all_work : Server → List Request → Bool
unfolding prepared accepted
all_work s [] = true
all_work s (q ∷ qs) = (prepared s q && accepted s q) && all_work s qs

-- Steps that send the requests of a list up to the first failure, and fail exactly if one does.
pub record Performs (s : Server) (steps : Steps) (plan : List Request) : Type 0 where
  pub sent : steps.0 ≡ up_to_failure s plan
  pub worked : not (is_some steps.1) ≡ all_work s plan

module _ (s : Server) where
  up_to_failure-append :
      (xs ys : List Request)
      → up_to_failure s (xs ++ ys)
        ≡ (if all_work s xs then up_to_failure s xs ++ up_to_failure s ys else up_to_failure s xs)
  unfolding up_to_failure all_work
  up_to_failure-append [] ys = refl
  up_to_failure-append (x ∷ xs) ys = ground (arith, up_to_failure-append xs ys)

  all_work-append :
      (xs ys : List Request) → all_work s (xs ++ ys) ≡ (all_work s xs && all_work s ys)
  unfolding all_work
  all_work-append [] ys = refl
  all_work-append (x ∷ xs) ys = ground (arith, all_work-append xs ys)

  pub nothing-Performs : Performs s nothing []
  unfolding nothing up_to_failure all_work
  nothing-Performs = record { sent = refl; worked = refl }

  then-sent :
      (a b : Steps) {xs ys : List Request}
      → Performs s a xs
      → Performs s b ys
      → ((a >> b).0 ≡ up_to_failure s (xs ++ ys))
        × (not (is_some (a >> b).1) ≡ all_work s (xs ++ ys))
  unfolding ◌>>◌
  then-sent (sent, none) b {xs} {ys} p q =
      ground (
        arith,
        up_to_failure-append xs ys,
        all_work-append xs ys,
        p.sent,
        p.worked,
        q.sent,
        q.worked,
      )
  then-sent (sent, some e) b {xs} {ys} p q =
      ground (arith, up_to_failure-append xs ys, all_work-append xs ys, p.sent, p.worked)

  pub >>-Performs :
      (a b : Steps) {xs ys : List Request}
      → Performs s a xs
      → Performs s b ys
      → Performs s (a >> b) (xs ++ ys)
  >>-Performs a b p q =
      let (sent, worked) = then-sent a b p q in record { sent = sent; worked = worked }

  wrapped-some : (what : String) (e : Option ApiError) → is_some (wrapped what e) ≡ is_some e
  wrapped-some what none = refl
  wrapped-some what (some e) = refl

  pub within-Performs :
      (what : String) (a : Steps) {xs : List Request}
      → Performs s a xs
      → Performs s (within what a) xs
  unfolding within
  within-Performs what a p = record { sent = p.sent; worked = rw (wrapped-some what a.1) p.worked }

  pub when-Performs :
      (b : Bool) (a : Steps) {xs : List Request}
      → Performs s a xs
      → Performs s (when b a) (only_if b xs)
  unfolding when
  when-Performs true a p = p
  when-Performs false a p = nothing-Performs

  apply-sent :
      (instance : String) (r : Resource)
      → ((apply instance s r).0 ≡ up_to_failure s (patch r ∷ []))
        × (not (is_some (apply instance s r).1) ≡ all_work s (patch r ∷ []))
  unfolding apply own send up_to_failure all_work prepared accepted
  apply-sent instance r = ground arith

  pub apply-Performs :
      (instance what : String) (r : Resource)
      → Performs s (apply_as instance s what r) (patch r ∷ [])
  unfolding apply_as
  apply-Performs instance what r =
      let (sent, worked) = apply-sent instance r in
      within-Performs what (apply instance s r) (record { sent = sent; worked = worked })

  pub remove-Performs : Performs s (remove_retired_service_monitor s) (remove_monitor ∷ [])
  unfolding remove_retired_service_monitor up_to_failure all_work prepared accepted
  remove-Performs = record { sent = ground arith; worked = ground arith }
