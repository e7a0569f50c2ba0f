-- ===== src/Api/Status.antt =====
-- api/v1alpha1/langfuseinstance_types.go: the status, over a type of condition lists.
use langfuse_operator.Common.{ℕ, String, Bool, false, Option, none, List, []}
use langfuse_operator.Api.Spec.{InstanceSpec}

pub record PodIssue : Type 0 where
  pub pod : String
  pub container : String
  pub reason : String
  pub message : String
  pub restart_count : ℕ
  pub fatal : Bool

pub record ComponentStatus : Type 0 where
  pub replicas : ℕ
  pub ready_replicas : ℕ
  pub endpoint : String
  pub issues : List PodIssue

-- ComponentStatus is embedded.
pub record WorkerComponentStatus : Type 0 where
  pub replicas : ℕ
  pub ready_replicas : ℕ
  pub endpoint : String
  pub issues : List PodIssue
  pub circuit_breaker_active : Bool
  pub circuit_breaker_reason : String

pub record MigrationStatus : Type 0 where
  pub job_name : String
  pub failed : ℕ
  pub issues : List PodIssue
  pub applied_identity : String

pub record DatabaseStatus : Type 0 where
  pub connected : Option Bool
  pub migration_version : String

pub record ClickHouseStatus : Type 0 where
  pub connected : Option Bool
  pub storage_used : String
  pub storage_total : String
  pub schema_drift : Option Bool
  pub retention_applied : Option Bool

pub record InstanceStatus (C : Type 0) : Type 0 where
  pub ready : Bool
  pub phase : String
  pub web : Option ComponentStatus
  pub worker : Option WorkerComponentStatus
  pub database : Option DatabaseStatus
  pub migration : Option MigrationStatus
  pub click_house : Option ClickHouseStatus
  pub redis : Option (Option Bool)
  pub blob_storage : Option (Option Bool × String)
  pub version : String
  pub public_url : String
  pub conditions : C

-- `deleting` says that the deletion timestamp is set.
pub record Instance (C : Type 0) : Type 0 where
  pub name : String
  pub namespace : String
  pub generation : ℕ
  pub deleting : Bool
  pub spec : InstanceSpec
  pub status : InstanceStatus C

-- The zero value that the controllers fill in where a part of the status is nil.
abbrev pub new_worker_status : WorkerComponentStatus
new_worker_status = record {
  replicas = 0;
  ready_replicas = 0;
  endpoint = "";
  issues = [];
  circuit_breaker_active = false;
  circuit_breaker_reason = "";
}

abbrev pub new_component_status : ComponentStatus
new_component_status = record { replicas = 0; ready_replicas = 0; endpoint = ""; issues = [] }

abbrev pub new_migration_status : MigrationStatus
new_migration_status = record { job_name = ""; failed = 0; issues = []; applied_identity = "" }

abbrev pub new_database_status : DatabaseStatus
new_database_status = record { connected = none; migration_version = "" }

abbrev pub new_click_house_status : ClickHouseStatus
new_click_house_status = record {
  connected = none;
  storage_used = "";
  storage_total = "";
  schema_drift = none;
  retention_applied = none;
}
