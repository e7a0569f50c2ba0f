-- ===== src/Examples/Values.antt =====
-- An instance as a user writes it, and what the controllers find.
use langfuse_operator.Common.{pos, Bool, String, true, false, Option, none, some, List, [], ◌∷◌}
use langfuse_operator.Api.{
  SecretKeysRef, AuthSpec, DatabaseSpec, ClickHouseSpec, InstanceSpec, InstanceStatus, Instance,
  Condition, condition_true, condition_false, ComponentStatus, MigrationStatus, new_worker_status,
  new_migration_status,
}
use langfuse_operator.Client.{not_found, Got, found, failed}
use langfuse_operator.Pods.{Pod}
use langfuse_operator.Migration.Job.{Job, Answers}

abbrev pub postgres_secret : SecretKeysRef
postgres_secret = record { name = "pg"; keys = ("url", "DATABASE_URL") ∷ [] }

abbrev pub click_house_secret : SecretKeysRef
click_house_secret = record {
  name = "ch";
  keys = ("migrationUrl", "m") ∷ ("username", "u") ∷ ("password", "p") ∷ [];
}

abbrev pub auth : AuthSpec
auth = record {
  next_auth_secret = none;
  next_auth_url = "https://langfuse.example.com";
  salt = none;
  email_password = none;
  oidc = none;
  init_user = none;
  admin_api_key = none;
}

abbrev pub database : DatabaseSpec
database = record {
  cloud_native_pg = none;
  managed = false;
  external = some (record { secret_ref = postgres_secret; tls = none });
  run_on_deploy = none;
}

abbrev pub click_house : ClickHouseSpec
click_house = record {
  managed = none;
  external = some (record { secret_ref = click_house_secret; tls = none });
  retention = none;
  schema_drift = none;
  cluster = none;
  database = "";
}

abbrev pub spec : InstanceSpec
spec = record {
  image_repository = "";
  image_tag = "v3.1.0";
  web = record {
    replicas = none;
    autoscaling = some (record {
      enabled = true;
      min_replicas = none;
      max_replicas = pos 0;
      target_cpu_utilization = none;
    });
    pod_disruption_budget = none;
    extra_env = [];
    extra_volume_mounts = [];
    extra_volumes = [];
  };
  worker = record {
    replicas = some (pos 3);
    image = none;
    autoscaling = none;
    pod_disruption_budget = some (record { enabled = false; min_available = none });
    extra_env = [];
    extra_volume_mounts = [];
    extra_volumes = [];
  };
  ingress = some true;
  route = none;
  gateway_api = some false;
  network_policy = none;
  extra_egress_ports =
      record { port = 9001; protocol = "" } ∷ record { port = 443; protocol = "TCP" } ∷ [];
  worker_concurrency = none;
  auth = auth;
  tls = none;
  ee_license_key = none;
  auto_generate = none;
  database = some database;
  click_house = some click_house;
  redis = some (record { managed = true; external = none });
  blob_storage = none;
  llm = none;
  telemetry_enabled = none;
  observability = none;
  circuit_breaker = none;
}

abbrev pub met : String → Condition
met t = record {
  type = t;
  status = condition_true;
  reason = "Ok";
  message = "";
  observed_generation = 1;
}

abbrev pub unmet : String → Condition
unmet t = record {
  type = t;
  status = condition_false;
  reason = "Down";
  message = "";
  observed_generation = 1;
}

abbrev pub web : ComponentStatus
web = record { replicas = 2; ready_replicas = 1; endpoint = ""; issues = [] }

abbrev pub status : List Condition → Option MigrationStatus → InstanceStatus (List Condition)
status cs m = record {
  ready = false;
  phase = "Pending";
  web = some web;
  worker = some (record new_worker_status { replicas = 1; ready_replicas = 1 });
  database = none;
  migration = m;
  click_house = none;
  redis = none;
  blob_storage = none;
  version = "";
  public_url = "";
  conditions = cs;
}

abbrev pub instance_with : List Condition → Option MigrationStatus → Instance (List Condition)
instance_with cs m = record {
  name = "demo";
  namespace = "ns";
  generation = 1;
  deleting = false;
  spec = spec;
  status = status cs m;
}

-- No two statuses count as equal.
abbrev pub differ : InstanceStatus (List Condition) → InstanceStatus (List Condition) → Bool
differ s t = false

abbrev pub fresh : Instance (List Condition)
fresh = instance_with [] none

-- An instance that was migrated with another Secret for PostgreSQL.
abbrev pub old_identity : String
old_identity =
    "3.1.0|postgres-ref=secret/old#url=DATABASE_URL,directUrl=|clickhouse-ref=secret/ch#url=url,migrationUrl=m|clickhouse-cluster=false|clickhouse-db=default"

abbrev pub moved : Instance (List Condition)
moved = instance_with [] (some (record new_migration_status { applied_identity = old_identity }))

abbrev pub answers : Got Job → Answers
answers job = record {
  job = job;
  update = none;
  owner = none;
  create = none;
  delete = none;
  pods = found [];
}

abbrev pub no_job : Answers
no_job = answers (failed (record { kind = not_found; text = "not found" }))

abbrev pub broken_pod : Pod
broken_pod = record {
  name = "web-1";
  deleting = false;
  succeeded = false;
  conditions = [];
  init_container_statuses = [];
  container_statuses =
      record {
        name = "web";
        ready = false;
        restart_count = 0;
        waiting = some (record { reason = "ImagePullBackOff"; message = "no such image" });
        terminated = none;
        last_terminated = none;
      }
      ∷ [];
}
