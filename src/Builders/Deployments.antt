-- ===== src/Builders/Deployments.antt =====
-- web_deployment.go, worker_deployment.go and migration_job.go. Probes, resources, the security context, the
-- scheduling and the pull secrets are left out: they are constants or copied from the spec.
use langfuse_operator.Common.{
  ℕ, ℤ, pos, String, ◌<>◌, Bool, false, ◌||◌, Option, none, some, List, [], ◌∷◌, ◌++◌, non_empty_or,
  if◌then◌else◌,
}
use langfuse_operator.Api.{
  AutoscalingSpec, WorkerImageSpec, Instance, InstanceSpec, WorkerComponentStatus,
}
use langfuse_operator.Config.Env.{EnvVar, Volume, VolumeMount, Config}
use langfuse_operator.Builders.Labels.{
  Labels, common_labels, selector_labels, web_name, worker_name,
}

pub record Container : Type 0 where
  pub name : String
  pub image : String
  pub ports : List (String × ℕ)
  pub env : List EnvVar
  pub volume_mounts : List VolumeMount

-- `replicas` is none where the field is not declared; `pod_labels` are those of the template.
pub record Deployment : Type 0 where
  pub name : String
  pub namespace : String
  pub labels : Labels
  pub replicas : Option ℤ
  pub selector : Labels
  pub pod_labels : Labels
  pub container : Container
  pub volumes : List Volume

-- `init_env` are the variables of the container that waits for the stores.
pub record MigrationJob : Type 0 where
  pub name : String
  pub namespace : String
  pub labels : Labels
  pub pod_labels : Labels
  pub backoff_limit : ℕ
  pub ttl_seconds : ℕ
  pub init_env : List EnvVar
  pub container : Container
  pub args : List String
  pub volumes : List Volume

unfoldable pub merge {ℓ} : {A : Type ℓ} → List (List A) → List A
merge [] = []
merge (set ∷ sets) = set ++ merge sets

abbrev scales : Option AutoscalingSpec → Bool
scales none = false
scales (some a) = a.enabled

replicas_or : Option ℤ → ℤ → ℤ
replicas_or none d = d
replicas_or (some n) d = n

unfoldable pub owned_replicas : Option ℤ → Option AutoscalingSpec → Bool → Option ℤ
unfolding replicas_or
owned_replicas configured autoscaling relinquish =
    if relinquish || scales autoscaling then none else some (replicas_or configured (pos 1))

unfoldable pub container_image : InstanceSpec → String
unfolding non_empty_or
container_image spec =
    non_empty_or spec.image_repository "langfuse/langfuse" <> (":" <> spec.image_tag)

-- The image of the worker, with what its own spec overrides.
worker_image : Option WorkerImageSpec → String → String
unfolding non_empty_or
worker_image none tag = "langfuse/langfuse-worker:" <> tag
worker_image (some img) tag =
    non_empty_or img.repository "langfuse/langfuse-worker" <> (":" <> non_empty_or img.tag tag)

unfoldable pub worker_container_image : InstanceSpec → String
unfolding worker_image
worker_container_image spec = worker_image spec.worker.image spec.image_tag

held_by : Option WorkerComponentStatus → Bool
held_by none = false
held_by (some w) = w.circuit_breaker_active

unfoldable pub circuit_breaker_holds_worker : {C : Type 0} → Instance C → Bool
unfolding held_by
circuit_breaker_holds_worker i = held_by i.status.worker

unfoldable pub build_web_deployment : {C : Type 0} → Instance C → Config → Deployment
unfolding merge owned_replicas container_image common_labels selector_labels web_name
build_web_deployment i config = record {
  name = web_name i.name;
  namespace = i.namespace;
  labels = common_labels i.name "web";
  replicas = owned_replicas i.spec.web.replicas i.spec.web.autoscaling false;
  selector = selector_labels i.name "web";
  pod_labels = common_labels i.name "web";
  container = record {
    name = "langfuse-web";
    image = container_image i.spec;
    ports = ("http", 3000) ∷ [];
    env = merge (config.common_env ∷ config.web_env ∷ i.spec.web.extra_env ∷ []);
    volume_mounts = merge (config.volume_mounts ∷ i.spec.web.extra_volume_mounts ∷ []);
  };
  volumes = merge (config.volumes ∷ i.spec.web.extra_volumes ∷ []);
}

unfoldable pub build_worker_deployment : {C : Type 0} → Instance C → Config → Deployment
unfolding merge owned_replicas worker_container_image common_labels selector_labels worker_name
    circuit_breaker_holds_worker
build_worker_deployment i config = record {
  name = worker_name i.name;
  namespace = i.namespace;
  labels = common_labels i.name "worker";
  replicas =
      owned_replicas i.spec.worker.replicas i.spec.worker.autoscaling
        (circuit_breaker_holds_worker i);
  selector = selector_labels i.name "worker";
  pod_labels = common_labels i.name "worker";
  container = record {
    name = "langfuse-worker";
    image = worker_container_image i.spec;
    ports = [];
    env = merge (config.common_env ∷ config.worker_env ∷ i.spec.worker.extra_env ∷ []);
    volume_mounts = merge (config.volume_mounts ∷ i.spec.worker.extra_volume_mounts ∷ []);
  };
  volumes = merge (config.volumes ∷ i.spec.worker.extra_volumes ∷ []);
}

unfoldable pub build_migration_job : {C : Type 0} → Instance C → Config → MigrationJob
unfolding container_image common_labels
build_migration_job i config = record {
  name = i.name <> "-migrate";
  namespace = i.namespace;
  labels = common_labels i.name "migration";
  pod_labels = common_labels i.name "migration";
  backoff_limit = 3;
  ttl_seconds = 3600;
  init_env = config.common_env;
  container = record {
    name = "langfuse-migrate";
    image = container_image i.spec;
    ports = [];
    env = config.common_env;
    volume_mounts = config.volume_mounts;
  };
  args = "true" ∷ [];
  volumes = config.volumes;
}
