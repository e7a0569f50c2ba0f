-- ===== src/Instances/Workload.antt =====
-- The steps of a pass, composed the way Reconcile composes them, against the plan.
use langfuse_operator.Common.{
  String, Bool, true, false, not, bool_or, [], ◌∷◌, ◌++◌, only_if, if◌then◌else◌,
}
use langfuse_operator.Api.{InstanceSpec, Instance}
use langfuse_operator.Config.Env.{Config}
use langfuse_operator.Builders.Deployments.{build_web_deployment, build_worker_deployment}
use langfuse_operator.Rollup.Update.{service_monitor}
use langfuse_operator.Instances.Resources.{
  Resource, click_house_config_map, click_house_service, click_house_stateful_set, redis_service,
  redis_stateful_set, web_deployment, web_service, worker_deployment, web_network_policy,
  worker_network_policy, ingress, route, http_route, web_hpa, worker_hpa, web_pdb, worker_pdb,
}
use langfuse_operator.Instances.Apply.{
  autoscaled, budgeted, patch, remove_monitor, Server, nothing, ◌>>◌, when, enabled, apply_as,
  reconcile_click_house, reconcile_redis, reconcile_network_policies, reconcile_networking,
  reconcile_hpas, reconcile_pdbs, reconcile_platform, reconcile_workload,
}
use langfuse_operator.Instances.Planned.{
  planned, Performs, >>-Performs, within-Performs, when-Performs, apply-Performs, remove-Performs,
  nothing-Performs,
}

module _ (instance : String) (s : Server) where
  one : (what : String) (r : Resource) → Performs s (apply_as instance s what r) (patch r ∷ [])
  one what r = apply-Performs s instance what r

  reconcile_click_house-Performs : Performs s (reconcile_click_house instance s) (
      patch click_house_config_map
      ∷ patch click_house_service
      ∷ patch click_house_stateful_set
      ∷ [])
  unfolding reconcile_click_house
  reconcile_click_house-Performs =
      >>-Performs s _ _ (one "clickhouse configmap" click_house_config_map) (
        >>-Performs s _ _ (one "clickhouse service" click_house_service)
          (one "clickhouse statefulset" click_house_stateful_set))

  reconcile_redis-Performs :
      Performs s (reconcile_redis instance s) (patch redis_service ∷ patch redis_stateful_set ∷ [])
  unfolding reconcile_redis
  reconcile_redis-Performs =
      >>-Performs s _ _ (one "redis service" redis_service)
        (one "redis statefulset" redis_stateful_set)

  policies-Performs :
      (enabled : Bool)
      → Performs s
          (if not enabled
            then nothing
            else (apply_as instance s "web network policy" web_network_policy
                >> apply_as instance s "worker network policy" worker_network_policy))
          (only_if enabled (patch web_network_policy ∷ patch worker_network_policy ∷ []))
  policies-Performs true =
      >>-Performs s _ _ (one "web network policy" web_network_policy)
        (one "worker network policy" worker_network_policy)
  policies-Performs false = nothing-Performs s

  -- An object that a flag of the spec asks for.
  optional :
      (b : Bool) (what : String) (r : Resource)
      → Performs s (when b (apply_as instance s what r)) (only_if b (patch r ∷ []))
  optional b what r = when-Performs s b _ (one what r)

  reconcile_networking-Performs :
      (spec : InstanceSpec)
      → Performs s (reconcile_networking instance s spec) (
          only_if
            (bool_or spec.network_policy true)
            (patch web_network_policy ∷ patch worker_network_policy ∷ [])
          ++ (only_if (enabled spec.ingress) (patch ingress ∷ [])
              ++ (only_if (enabled spec.route) (patch route ∷ [])
                  ++ only_if (enabled spec.gateway_api) (patch http_route ∷ []))))
  unfolding reconcile_networking reconcile_network_policies
  reconcile_networking-Performs spec =
      >>-Performs s _ _
        (within-Performs s _ _ (policies-Performs (bool_or spec.network_policy true)))
        (>>-Performs s _ _ (optional _ _ ingress)
          (>>-Performs s _ _ (optional _ _ route) (optional _ _ http_route)))

  reconcile_platform-Performs :
      (spec : InstanceSpec)
      → Performs s (reconcile_platform instance s spec) (
          (only_if (autoscaled spec.web.autoscaling) (patch web_hpa ∷ [])
            ++ only_if (autoscaled spec.worker.autoscaling) (patch worker_hpa ∷ []))
          ++ ((only_if (budgeted spec.web.pod_disruption_budget) (patch web_pdb ∷ [])
                ++ only_if (budgeted spec.worker.pod_disruption_budget) (patch worker_pdb ∷ []))
              ++ only_if (service_monitor spec.observability) (remove_monitor ∷ [])))
  unfolding reconcile_platform reconcile_hpas reconcile_pdbs
  reconcile_platform-Performs spec =
      >>-Performs s _ _
        (within-Performs s _ _ (>>-Performs s _ _ (optional _ _ web_hpa) (optional _ _ worker_hpa)))
        (>>-Performs s _ _
          (within-Performs s _ _
            (>>-Performs s _ _ (optional _ _ web_pdb) (optional _ _ worker_pdb)))
          (when-Performs s _ _ (within-Performs s _ _ (remove-Performs s))))

pub reconcile_workload-Performs :
    {C : Type 0} (i : Instance C) (s : Server) (config : Config)
    → Performs s (reconcile_workload i s config) (planned i config)
unfolding reconcile_workload planned
reconcile_workload-Performs i s config =
    let n = i.name in
    >>-Performs s _ _
      (when-Performs s _ _ (within-Performs s _ _ (reconcile_click_house-Performs n s)))
      (>>-Performs s _ _
        (when-Performs s _ _ (within-Performs s _ _ (reconcile_redis-Performs n s)))
        (>>-Performs s _ _ (one n s _ (web_deployment (build_web_deployment i config))) (
          >>-Performs s _ _ (one n s _ web_service) (
            >>-Performs s _ _ (one n s _ (worker_deployment (build_worker_deployment i config))) (
              >>-Performs s _ _ (reconcile_networking-Performs n s i.spec)
                (reconcile_platform-Performs n s i.spec))))))
