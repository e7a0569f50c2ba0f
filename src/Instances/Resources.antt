-- ===== src/Instances/Resources.antt =====
-- The objects that the instance controller applies, by the names and the kinds that the builders of
-- internal/resources give them. The two Deployments are kept as they are built.
use langfuse_operator.Common.{String, ◌<>◌}
use langfuse_operator.Builders.Labels.{web_name, worker_name, click_house_name, redis_name}
use langfuse_operator.Builders.Deployments.{Deployment}

pub data Resource : Type 0 where
  click_house_config_map click_house_service click_house_stateful_set : Resource
  redis_service redis_stateful_set : Resource
  web_deployment : Deployment → Resource
  web_service : Resource
  worker_deployment : Deployment → Resource
  web_network_policy worker_network_policy ingress route http_route : Resource
  web_hpa worker_hpa web_pdb worker_pdb : Resource

-- The name of the object, for the name of the instance.
unfoldable pub name_of : String → Resource → String
unfolding web_name worker_name click_house_name redis_name
name_of instance click_house_config_map = click_house_name instance
name_of instance click_house_service = click_house_name instance
name_of instance click_house_stateful_set = click_house_name instance
name_of instance redis_service = redis_name instance
name_of instance redis_stateful_set = redis_name instance
name_of instance (web_deployment _) = web_name instance
name_of instance web_service = web_name instance
name_of instance (worker_deployment _) = worker_name instance
name_of instance web_network_policy = web_name instance <> "-netpol"
name_of instance worker_network_policy = worker_name instance <> "-netpol"
name_of instance ingress = web_name instance
name_of instance route = web_name instance
name_of instance http_route = web_name instance
name_of instance web_hpa = web_name instance
name_of instance worker_hpa = worker_name instance
name_of instance web_pdb = web_name instance
name_of instance worker_pdb = worker_name instance

-- gvk.Kind
unfoldable pub kind_of : Resource → String
kind_of click_house_config_map = "ConfigMap"
kind_of click_house_service = "Service"
kind_of click_house_stateful_set = "StatefulSet"
kind_of redis_service = "Service"
kind_of redis_stateful_set = "StatefulSet"
kind_of (web_deployment _) = "Deployment"
kind_of web_service = "Service"
kind_of (worker_deployment _) = "Deployment"
kind_of web_network_policy = "NetworkPolicy"
kind_of worker_network_policy = "NetworkPolicy"
kind_of ingress = "Ingress"
kind_of route = "Route"
kind_of http_route = "HTTPRoute"
kind_of web_hpa = "HorizontalPodAutoscaler"
kind_of worker_hpa = "HorizontalPodAutoscaler"
kind_of web_pdb = "PodDisruptionBudget"
kind_of worker_pdb = "PodDisruptionBudget"
