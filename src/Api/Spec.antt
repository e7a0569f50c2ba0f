-- ===== src/Api/Spec.antt =====
-- api/v1alpha1/langfuseinstance_types.go and common_types.go: the spec. Fields that nothing
-- modelled here reads are left out.
use langfuse_operator.Api.Datastores.{
  SecretKeyRef, SecretValue, CaCertSecretRef, DatabaseSpec, ClickHouseSpec, RedisSpec,
  BlobStorageSpec,
}
use langfuse_operator.Api.Core.{EnvVar, Volume, VolumeMount}
use langfuse_operator.Common.{ℕ, ℤ, String, Bool, Option, List}

pub record EmailPasswordSpec : Type 0 where
  pub enabled : Option Bool
  pub disable_signup : Bool

pub record OidcSpec : Type 0 where
  pub enabled : Bool
  pub issuer : String
  pub client_id : Option SecretKeyRef
  pub client_secret : Option SecretKeyRef
  pub name : String
  pub scope : List String
  pub sso_enforced_domains : List String

pub record InitUserSpec : Type 0 where
  pub enabled : Bool
  pub email : String
  pub password : Option SecretKeyRef
  pub org_name : String
  pub project_name : String

pub record AuthSpec : Type 0 where
  pub next_auth_secret : Option SecretValue
  pub next_auth_url : String
  pub salt : Option SecretValue
  pub email_password : Option EmailPasswordSpec
  pub oidc : Option OidcSpec
  pub init_user : Option InitUserSpec
  pub admin_api_key : Option SecretValue

pub record TlsSpec : Type 0 where
  pub trusted_ca_secret_ref : Option CaCertSecretRef

pub record LlmSpec : Type 0 where
  pub api_base : String
  pub api_key : Option SecretKeyRef
  pub model : String

pub record OtelSpec : Type 0 where
  pub enabled : Bool
  pub endpoint : String
  pub protocol : String

-- `service_monitor` says that the field is set: nothing of it is read.
pub record ObservabilitySpec : Type 0 where
  pub service_monitor : Bool
  pub otel : Option OtelSpec

pub record ComponentCircuitBreakerSpec : Type 0 where
  pub action : String
  pub probe_interval_seconds : ℤ
  pub failure_threshold : ℤ
  pub recovery_action : String

pub record CircuitBreakerSpec : Type 0 where
  pub enabled : Option Bool
  pub click_house : Option ComponentCircuitBreakerSpec
  pub redis : Option ComponentCircuitBreakerSpec
  pub database : Option ComponentCircuitBreakerSpec

pub record AutoscalingSpec : Type 0 where
  pub enabled : Bool
  pub min_replicas : Option ℤ
  pub max_replicas : ℤ
  pub target_cpu_utilization : Option ℤ

pub record PdbSpec : Type 0 where
  pub enabled : Bool
  pub min_available : Option ℤ

pub record WorkerImageSpec : Type 0 where
  pub repository : String
  pub tag : String

pub record WebSpec : Type 0 where
  pub replicas : Option ℤ
  pub autoscaling : Option AutoscalingSpec
  pub pod_disruption_budget : Option PdbSpec
  pub extra_env : List EnvVar
  pub extra_volume_mounts : List VolumeMount
  pub extra_volumes : List Volume

pub record WorkerSpec : Type 0 where
  pub replicas : Option ℤ
  pub image : Option WorkerImageSpec
  pub autoscaling : Option AutoscalingSpec
  pub pod_disruption_budget : Option PdbSpec
  pub extra_env : List EnvVar
  pub extra_volume_mounts : List VolumeMount
  pub extra_volumes : List Volume

-- `port` is a port number, from 1 to 65535.
pub record NetworkPolicyPort : Type 0 where
  pub port : ℕ
  pub protocol : String

-- `image_repository` and `image_tag` are `image.repository` and `image.tag`, `worker_concurrency` is `worker.concurrency`, `telemetry_enabled` is
-- `security.telemetry.enabled`, `auto_generate` is `secrets.autoGenerate.enabled`, `network_policy` is
-- `security.networkPolicy.enabled`, `extra_egress_ports` is `security.networkPolicy.extraEgressPorts`, `ingress`, `route` and `gateway_api` are their `enabled`: none
-- where a pointer on the way is nil, which the code treats as the field being unset.
pub record InstanceSpec : Type 0 where
  pub image_repository : String
  pub image_tag : String
  pub web : WebSpec
  pub worker : WorkerSpec
  pub ingress : Option Bool
  pub route : Option Bool
  pub gateway_api : Option Bool
  pub network_policy : Option Bool
  pub extra_egress_ports : List NetworkPolicyPort
  pub worker_concurrency : Option ℤ
  pub auth : AuthSpec
  pub tls : Option TlsSpec
  pub ee_license_key : Option SecretValue
  pub auto_generate : Option Bool
  pub database : Option DatabaseSpec
  pub click_house : Option ClickHouseSpec
  pub redis : Option RedisSpec
  pub blob_storage : Option BlobStorageSpec
  pub llm : Option LlmSpec
  pub telemetry_enabled : Option Bool
  pub observability : Option ObservabilitySpec
  pub circuit_breaker : Option CircuitBreakerSpec
