-- ===== src/Config/Names/Distinct.antt =====
-- No variable of the Config is set twice, for the web or the worker.
use langfuse_operator.Common.{
  String, Bool, true, false, List, [], ◌∷◌, ◌++◌, ◌≡◌, refl, Result, ok, bind-ok, ok-injective, sym,
}
use mathlib.Core.Path.{subst}
use langfuse_operator.Api.{Instance}
use langfuse_operator.Config.Env.{Config, empty_config, add_common}
use langfuse_operator.Config.Auth.{auth_env, add_trusted_ca_env}
use langfuse_operator.Config.Database.{add_database_env}
use langfuse_operator.Config.ClickHouse.{add_click_house_env}
use langfuse_operator.Config.Redis.{add_redis_env}
use langfuse_operator.Config.Build.{build_config, finish_config, web_variables, worker_variables}
use langfuse_operator.Config.Names.Fits.{
  Fits, fits_nil, keep, Fits-append, names, distinct, distinct-Fits,
}
use langfuse_operator.Config.Names.Pieces.{auth_names, auth-Fits, database_names}
use langfuse_operator.Config.Names.Stores.{
  click_house_names, redis_names, redis_tls_names, blob_names, blob-Fits, platform_names,
  platform-Fits,
}
use langfuse_operator.Config.Names.Adds.{Adds, StepAdds, plain-Adds, then-Adds}
use langfuse_operator.Config.Names.Steps.{
  trusted_ca-Adds, database-adds, is_managed, click_house-adds, redis-adds,
}

step-Adds :
    {ns : List String} {cfg c : Config} {r : Result Config}
    → StepAdds ns cfg r
    → r ≡ ok c
    → Adds ns cfg c
unfolding StepAdds
step-Adds {ns} {cfg} s h = subst (StepAdds ns cfg) h s

abbrev pod_names : List String
pod_names =
    "LANGFUSE_AUTO_POSTGRES_MIGRATION_DISABLED" ∷ "LANGFUSE_AUTO_CLICKHOUSE_MIGRATION_DISABLED" ∷ []

abbrev web_names : List String
web_names = "LANGFUSE_WORKER_ENABLED" ∷ "PORT" ∷ "HOSTNAME" ∷ pod_names

abbrev worker_names : List String
worker_names = "LANGFUSE_WORKER_ENABLED" ∷ "LANGFUSE_WORKER_CONCURRENCY" ∷ pod_names

abbrev data_names : Bool → List String
data_names managed =
    database_names ++ (click_house_names managed ++ (redis_names ++ redis_tls_names))

abbrev common_names : Bool → List String
common_names managed =
    auth_names ++ ("NODE_EXTRA_CA_CERTS" ∷ (data_names managed ++ (blob_names ++ platform_names)))

distinct_web : (b : Bool) → distinct (common_names b ++ web_names) ≡ true
distinct_web true = refl
distinct_web false = refl

distinct_worker : (b : Bool) → distinct (common_names b ++ worker_names) ≡ true
distinct_worker true = refl
distinct_worker false = refl

web-Fits : Fits web_variables web_names
web-Fits = keep (keep (keep (keep (keep fits_nil))))

worker-Fits : {C : Type 0} (i : Instance C) → Fits (worker_variables i) worker_names
unfolding worker_variables
worker-Fits i = keep (keep (keep (keep fits_nil)))

pod_fits :
    {C : Type 0} (i : Instance C) {cfg : Config} {ns : List String}
    → Adds ns empty_config cfg
    → distinct (ns ++ (blob_names ++ platform_names) ++ web_names) ≡ true
    → distinct (ns ++ (blob_names ++ platform_names) ++ worker_names) ≡ true
    → (distinct (names ((finish_config i cfg).common_env ++ (finish_config i cfg).web_env)) ≡ true)
      × (distinct (names ((finish_config i cfg).common_env ++ (finish_config i cfg).worker_env))
          ≡ true)
unfolding finish_config
pod_fits i a web worker =
    let blob = plain-Adds _ (blob-Fits i.spec.blob_storage) in
    let platform = plain-Adds _ (platform-Fits i) in
    let common = (then-Adds a (then-Adds blob platform)).common [] fits_nil in
    (
      distinct-Fits (Fits-append common (rw a.web web-Fits)) web,
      distinct-Fits (Fits-append common (rw a.worker (worker-Fits i))) worker,
    )

-- For a spec that BuildConfig accepts, neither the variables of the Config for the web nor those for the worker have two
-- of one name, in any mode of the datastores and with any of the optional parts.
pub names-distinct :
    {C : Type 0} (i : Instance C) {cfg : Config}
    → build_config i ≡ ok cfg
    → (distinct (names (cfg.common_env ++ cfg.web_env)) ≡ true)
      × (distinct (names (cfg.common_env ++ cfg.worker_env)) ≡ true)
unfolding build_config
names-distinct i {cfg} h =
    let start = add_common (auth_env i) empty_config in
    let trusted = add_trusted_ca_env i.spec.tls start in
    let d = bind-ok (add_database_env i.spec.database trusted.0 trusted.1) _ h in
    let c = bind-ok (add_click_house_env i i.spec.click_house d.0) _ d.1.1 in
    let r = bind-ok (add_redis_env i i.spec.redis trusted.0 c.0) _ c.1.1 in
    let adds = then-Adds (plain-Adds empty_config (auth-Fits i)) (
      then-Adds (trusted_ca-Adds i.spec.tls start) (
        then-Adds (step-Adds (database-adds i.spec.database trusted.0 trusted.1) d.1.0) (
          then-Adds (step-Adds (click_house-adds i i.spec.click_house d.0) c.1.0)
            (step-Adds (redis-adds i i.spec.redis trusted.0 c.0) r.1.0)))) in
    let managed = is_managed i.spec.click_house in
    let fits = pod_fits i adds (distinct_web managed) (distinct_worker managed) in
    rw (sym (ok-injective r.1.1)) fits
