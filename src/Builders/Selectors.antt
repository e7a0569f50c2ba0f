-- ===== src/Builders/Selectors.antt =====
-- Which pods the selectors find.
use langfuse_operator.Common.{
  String, ◌==◌, Bool, true, false, ◌&&◌, Option, none, some, [], ◌∷◌, lookup, ◌≡◌, refl, ◌∙◌, arith,
}
use langfuse_operator.Api.{Instance}
use langfuse_operator.Config.Env.{Config}
use langfuse_operator.Builders.Labels.{Labels, common_labels, selector_labels}
use langfuse_operator.Builders.Deployments.{
  build_web_deployment, build_worker_deployment, build_migration_job,
}
use langfuse_operator.Builders.Services.{
  build_web_service, build_click_house_service, build_redis_service,
}
use langfuse_operator.Builders.Policies.{build_web_network_policy, build_worker_network_policy}
use langfuse_operator.Builders.Scaling.{build_pdb, build_web_pdb, build_worker_pdb}

-- matchLabels, as Kubernetes documents it: each entry of the selector is among the labels.
carries : Option String → String → Bool
carries none v = false
carries (some w) v = w == v

unfoldable pub matches : Labels → Labels → Bool
unfolding carries lookup
matches [] labels = true
matches (entry ∷ selector) labels =
    carries (lookup entry.0 labels) entry.1 && matches selector labels

-- The selector of a component finds the pods that are labelled as that component of that instance.
matches-component :
    (instance other component part : String)
    → matches (selector_labels instance component) (common_labels other part)
      ≡ (other == instance && part == component)
unfolding matches carries lookup selector_labels common_labels
matches-component instance other component part = ground arith

-- The pods of the web, the worker and the migration Job of an instance.
abbrev pub Finds : {C : Type 0} → Labels → Instance C → Config → Bool → Bool → Type 0
Finds selector j config web worker =
    (matches selector (build_web_deployment j config).pod_labels ≡ web)
    × (matches selector (build_worker_deployment j config).pod_labels ≡ worker)
    × (matches selector (build_migration_job j config).pod_labels ≡ false)

module _ {C : Type 0} (i j : Instance C) (config : Config) where
  web-Finds : Finds (selector_labels i.name "web") j config (j.name == i.name) false
  unfolding build_web_deployment build_worker_deployment build_migration_job
  web-Finds = (
    matches-component i.name j.name "web" "web" ∙ ground arith,
    matches-component i.name j.name "web" "worker" ∙ ground arith,
    matches-component i.name j.name "web" "migration" ∙ ground arith,
  )

  worker-Finds : Finds (selector_labels i.name "worker") j config false (j.name == i.name)
  unfolding build_web_deployment build_worker_deployment build_migration_job
  worker-Finds = (
    matches-component i.name j.name "worker" "web" ∙ ground arith,
    matches-component i.name j.name "worker" "worker" ∙ ground arith,
    matches-component i.name j.name "worker" "migration" ∙ ground arith,
  )

  -- A component that no pod here belongs to.
  store-Finds :
      (component : String)
      → ("web" == component) ≡ false
      → ("worker" == component) ≡ false
      → ("migration" == component) ≡ false
      → Finds (selector_labels i.name component) j config false false
  unfolding build_web_deployment build_worker_deployment build_migration_job
  store-Finds component web worker migration = (
    matches-component i.name j.name component "web" ∙ ground (arith, web),
    matches-component i.name j.name component "worker" ∙ ground (arith, worker),
    matches-component i.name j.name component "migration" ∙ ground (arith, migration),
  )

  -- The web's Service, disruption budget, network policy and Deployment find the web pods of their own instance and
  -- no others; the worker's objects find its worker pods and no others; the Services of the managed stores
  -- find neither, and nothing finds the pods of a migration Job.
  pub build-selectors :
      Finds (build_web_service i).selector j config (j.name == i.name) false
      × Finds (build_web_pdb i).selector j config (j.name == i.name) false
      × Finds (build_web_network_policy i).pod_selector j config (j.name == i.name) false
      × Finds (build_web_deployment i config).selector j config (j.name == i.name) false
      × Finds (build_worker_pdb i).selector j config false (j.name == i.name)
      × Finds (build_worker_network_policy i).pod_selector j config false (j.name == i.name)
      × Finds (build_worker_deployment i config).selector j config false (j.name == i.name)
      × Finds (build_click_house_service i).selector j config false false
      × Finds (build_redis_service i).selector j config false false
  unfolding build_web_service build_web_pdb build_worker_pdb build_pdb build_web_network_policy
      build_worker_network_policy build_web_deployment build_worker_deployment build_migration_job
      build_click_house_service build_redis_service
  build-selectors = (
    web-Finds,
    web-Finds,
    web-Finds,
    web-Finds,
    worker-Finds,
    worker-Finds,
    worker-Finds,
    store-Finds "clickhouse" refl refl refl,
    store-Finds "redis" refl refl refl,
  )
