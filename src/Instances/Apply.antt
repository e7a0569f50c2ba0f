-- ===== src/Instances/Apply.antt =====
-- apply and the steps that the pass is made of: each sends requests until one fails.
use langfuse_operator.Common.{
  String, ◌<>◌, Bool, true, false, not, bool_or, Option, none, some, List, [], ◌∷◌, ◌++◌,
  if◌then◌else◌,
}
use langfuse_operator.Api.{AutoscalingSpec, PdbSpec, InstanceSpec, Instance}
use langfuse_operator.Client.{ApiError, is_not_found, wrap}
use langfuse_operator.Config.Env.{Config}
use langfuse_operator.Builders.Deployments.{build_web_deployment, build_worker_deployment}
use langfuse_operator.Rollup.Update.{managed_click_house, managed_redis, service_monitor}
use langfuse_operator.Instances.Resources.{
  Resource, click_house_config_map, click_house_service, click_house_stateful_set, redis_service,
  redis_stateful_set, web_deployment, web_service, worker_deployment, web_network_policy,
  worker_network_policy, ingress, route, http_route, web_hpa, worker_hpa, web_pdb, worker_pdb,
  name_of, kind_of,
}

-- What the pass asks of the API server for its workload. `remove_monitor` deletes the ServiceMonitor.
pub data Request : Type 0 where
  patch : Resource → Request
  remove_monitor : Request

-- What the packages answer: SetControllerReference, GVKForObject, the API server to a patch and to the
-- deletion; meta.IsNoMatchError; and the Go type of an object, as %T has it.
pub record Server : Type 0 where
  pub set_owner : Resource → Option ApiError
  pub find_gvk : Resource → Option ApiError
  pub patched : Resource → Option ApiError
  pub removed : Option ApiError
  pub is_no_match : ApiError → Bool
  pub go_type : Resource → String

-- The requests that were sent, and the error.
abbrev pub Steps : Type 0
Steps = List Request × Option ApiError

unfoldable pub nothing : Steps
nothing = ([], none)

-- `if err != nil { return err }` between two steps.
infixr 4 ◌>>◌
unfoldable pub ◌>>◌ : Steps → Steps → Steps
(sent, some e) >> next = (sent, some e)
(sent, none) >> next = (sent ++ next.0, next.1)

abbrev pub wrapped : String → Option ApiError → Option ApiError
wrapped what none = none
wrapped what (some e) = some (wrap what e)

-- fmt.Errorf on the error of the steps.
unfoldable pub within : String → Steps → Steps
within what steps = (steps.0, wrapped what steps.1)

unfoldable pub when : Bool → Steps → Steps
unfolding nothing
when test steps = if test then steps else nothing

abbrev pub enabled : Option Bool → Bool
enabled o = bool_or o false

abbrev pub autoscaled : Option AutoscalingSpec → Bool
autoscaled none = false
autoscaled (some a) = a.enabled

abbrev pub budgeted : Option PdbSpec → Bool
budgeted none = false
budgeted (some b) = b.enabled

-- apiutil.GVKForObject and the patch.
unfoldable pub send : String → Server → Resource → Option ApiError → Steps
unfolding name_of kind_of
send instance s r (some e) = ([], some (wrap ("resolving GVK for " <> s.go_type r) e))
send instance s r none = (
  patch r ∷ [],
  wrapped ("applying " <> (kind_of r <> (" " <> name_of instance r))) (s.patched r),
)

unfoldable pub own : String → Server → Resource → Option ApiError → Steps
unfolding send
own instance s r (some e) = ([], some (wrap "setting owner reference" e))
own instance s r none = send instance s r (s.find_gvk r)

unfoldable pub apply : String → Server → Resource → Steps
unfolding own
apply instance s r = own instance s r (s.set_owner r)

-- A ServiceMonitor that is gone, or whose kind the cluster does not know, needs no removal.
unfoldable pub removal : Server → Option ApiError → Option ApiError
removal s none = none
removal s (some e) = if is_not_found e.kind then none else if s.is_no_match e then none else some e

unfoldable pub remove_retired_service_monitor : Server → Steps
unfolding removal
remove_retired_service_monitor s = (remove_monitor ∷ [], removal s s.removed)

module _ (instance : String) (s : Server) where
  -- An object whose error is reported under `what`.
  unfoldable pub apply_as : String → Resource → Steps
  unfolding apply within
  apply_as what r = within what (apply instance s r)

  unfoldable pub reconcile_click_house : Steps
  unfolding ◌>>◌ apply_as
  reconcile_click_house =
      apply_as "clickhouse configmap" click_house_config_map
      >> (apply_as "clickhouse service" click_house_service
          >> apply_as "clickhouse statefulset" click_house_stateful_set)

  unfoldable pub reconcile_redis : Steps
  unfolding ◌>>◌ apply_as
  reconcile_redis =
      apply_as "redis service" redis_service >> apply_as "redis statefulset" redis_stateful_set

  unfoldable pub reconcile_network_policies : InstanceSpec → Steps
  unfolding ◌>>◌ apply_as nothing
  reconcile_network_policies spec =
      if not (bool_or spec.network_policy true)
      then nothing
      else (apply_as "web network policy" web_network_policy
          >> apply_as "worker network policy" worker_network_policy)

  unfoldable pub reconcile_networking : InstanceSpec → Steps
  unfolding ◌>>◌ within when apply_as reconcile_network_policies
  reconcile_networking spec =
      within "reconciling network policies" (reconcile_network_policies spec)
      >> (when (enabled spec.ingress) (apply_as "reconciling ingress" ingress)
          >> (when (enabled spec.route) (apply_as "reconciling route" route)
              >> when (enabled spec.gateway_api) (apply_as "reconciling httproute" http_route)))

  unfoldable pub reconcile_hpas : InstanceSpec → Steps
  unfolding ◌>>◌ when apply_as
  reconcile_hpas spec =
      when (autoscaled spec.web.autoscaling) (apply_as "web HPA" web_hpa)
      >> when (autoscaled spec.worker.autoscaling) (apply_as "worker HPA" worker_hpa)

  unfoldable pub reconcile_pdbs : InstanceSpec → Steps
  unfolding ◌>>◌ when apply_as
  reconcile_pdbs spec =
      when (budgeted spec.web.pod_disruption_budget) (apply_as "web PDB" web_pdb)
      >> when (budgeted spec.worker.pod_disruption_budget) (apply_as "worker PDB" worker_pdb)

  unfoldable pub reconcile_platform : InstanceSpec → Steps
  unfolding ◌>>◌ within when reconcile_hpas reconcile_pdbs remove_retired_service_monitor
  reconcile_platform spec =
      within "reconciling HPAs" (reconcile_hpas spec)
      >> (within "reconciling PDBs" (reconcile_pdbs spec)
          >> when (service_monitor spec.observability)
              (within "removing retired servicemonitor" (remove_retired_service_monitor s)))

-- Steps 3a to 8 of Reconcile.
unfoldable pub reconcile_workload : {C : Type 0} → Instance C → Server → Config → Steps
unfolding ◌>>◌ within when apply_as reconcile_click_house reconcile_redis reconcile_networking
    reconcile_platform build_web_deployment build_worker_deployment
reconcile_workload i s config =
    when (managed_click_house i.spec.click_house)
      (within "reconciling clickhouse" (reconcile_click_house i.name s))
    >> (when (managed_redis i.spec.redis) (within "reconciling redis" (reconcile_redis i.name s))
        >> (apply_as i.name s "reconciling web deployment"
              (web_deployment (build_web_deployment i config))
            >> (apply_as i.name s "reconciling web service" web_service
                >> (apply_as i.name s "reconciling worker deployment"
                      (worker_deployment (build_worker_deployment i config))
                    >> (reconcile_networking i.name s i.spec
                        >> reconcile_platform i.name s i.spec)))))
