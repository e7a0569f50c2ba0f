-- ===== src/Examples/Workloads.antt =====
-- The objects of the instance, next to those of another one, and a pass while the circuit breaker holds the worker.
use langfuse_operator.Common.{true, false, any, non_empty_or, some, List, [], ◌∷◌, ◌≡◌, refl}
use langfuse_operator.Api.{listed, Condition, Instance, new_worker_status}
use langfuse_operator.Client.{found}
use langfuse_operator.Config.Env.{Config, value}
use langfuse_operator.Config.Build.{build_config}
use langfuse_operator.Builders.Deployments.{
  build_web_deployment, build_worker_deployment, build_migration_job, circuit_breaker_holds_worker,
}
use langfuse_operator.Builders.Services.{
  build_web_service, build_click_house_service, build_redis_service,
}
use langfuse_operator.Builders.Policies.{build_web_network_policy, build_worker_network_policy}
use langfuse_operator.Builders.Scaling.{build_web_pdb, build_worker_pdb}
use langfuse_operator.Builders.Selectors.{Finds, build-selectors}
use langfuse_operator.Builders.Egress.{allows, build_network_policy-allows}
use langfuse_operator.Config.Names.{names, distinct}
use langfuse_operator.Builders.Variables.{build-distinct}
use langfuse_operator.Builders.Mounted.{covered, build-covered}
use langfuse_operator.Instances.Reconcile.{reconcile}
use langfuse_operator.Instances.Yielded.{declares, reconcile_yields}
use langfuse_operator.Examples.Values.{differ, fresh}
use langfuse_operator.Examples.Migrations.{config, config_of}
use langfuse_operator.Examples.Instances.{server, reads}

abbrev neighbour : Instance (List Condition)
neighbour = record fresh { name = "other" }

build-selectors_example :
    Finds (build_web_service fresh).selector neighbour config false false
    × Finds (build_web_pdb fresh).selector neighbour config false false
    × Finds (build_web_network_policy fresh).pod_selector neighbour config false false
    × Finds (build_web_deployment fresh config).selector neighbour config false false
    × Finds (build_worker_pdb fresh).selector neighbour config false false
    × Finds (build_worker_network_policy fresh).pod_selector neighbour config false false
    × Finds (build_worker_deployment fresh config).selector neighbour config false false
    × Finds (build_click_house_service fresh).selector neighbour config false false
    × Finds (build_redis_service fresh).selector neighbour config false false
build-selectors_example = build-selectors fresh neighbour config

-- The instance lists port 9001 without a protocol.
build_network_policy-allows_example :
    (allows (build_web_network_policy fresh).egress 9001 "TCP" ≡ true)
    × (allows (build_worker_network_policy fresh).egress 9001 "TCP"
        ≡ allows (build_web_network_policy fresh).egress 9001 "TCP")
unfolding non_empty_or
build_network_policy-allows_example = build_network_policy-allows fresh 9001 "TCP"

-- The instance with a CA of its own, and a volume that the user adds.
abbrev secured : Instance (List Condition)
secured = record fresh {
  spec = record (fresh.spec) {
    tls = some (record { trusted_ca_secret_ref = some (record { name = "ca"; key = "" }) });
    web = record (fresh.spec.web) {
      extra_volumes = record { name = "cache"; secret_name = "cache"; items = [] } ∷ [];
      extra_volume_mounts =
          record { name = "cache"; mount_path = "/cache"; read_only = false } ∷ [];
    };
  };
}

abbrev secured_config : Config
secured_config = config_of (build_config secured)

build-covered_example :
    let web = build_web_deployment secured secured_config in
    let worker = build_worker_deployment secured secured_config in
    let job = build_migration_job secured secured_config in
    (covered web.container.volume_mounts web.volumes ≡ true)
    × (covered worker.container.volume_mounts worker.volumes ≡ true)
    × (covered job.container.volume_mounts job.volumes ≡ true)
unfolding build_config covered
build-covered_example = build-covered secured secured_config refl refl refl

abbrev held : Instance (List Condition)
held = record fresh {
  status = record (fresh.status) {
    worker = some (record new_worker_status { circuit_breaker_active = true });
  };
}

reconcile_yields_example :
    any declares (reconcile listed differ (found held) server reads).requests ≡ false
unfolding circuit_breaker_holds_worker
reconcile_yields_example = reconcile_yields listed differ held server reads refl refl

-- The web sets NEXTAUTH_URL again.
abbrev doubled : Instance (List Condition)
doubled = record fresh {
  spec = record (fresh.spec) {
    web = record (fresh.spec.web) {
      extra_env = record { name = "NEXTAUTH_URL"; source = value "https://other" } ∷ [];
    };
    worker = record (fresh.spec.worker) {
      extra_env = record { name = "DEBUG"; source = value "1" } ∷ [];
    };
  };
}

abbrev doubled_config : Config
doubled_config = config_of (build_config doubled)

build-distinct_example :
    let job = build_migration_job doubled doubled_config in
    (distinct (names (build_web_deployment doubled doubled_config).container.env) ≡ false)
    × (distinct (names (build_worker_deployment doubled doubled_config).container.env) ≡ true)
    × (distinct (names job.container.env) ≡ true)
    × (distinct (names job.init_env) ≡ true)
unfolding build_config
build-distinct_example = build-distinct doubled doubled_config refl
