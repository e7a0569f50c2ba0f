-- ===== src/Config/Mounts.antt =====
-- The volumes of a Config and their mounts: each step adds both or neither.
use langfuse_operator.Common.{
  String, ◌==◌, ◌<>◌, Bool, true, false, ◌&&◌, ◌||◌, Option, none, some, List, [], ◌∷◌, ◌++◌, map,
  map-append, is_some, Bool-cases, inl, inr, ◌≡◌, refl, ◌∙◌, sym, ap, text_at, non_empty_or, Result,
  ok, err, bind-ok, ok-injective, if◌then◌else◌,
}
use mathlib.Core.Path.{subst}
use langfuse_operator.Api.{
  DatabaseSpec, ExternalDatabaseSpec, RedisSpec, ExternalRedisSpec, CaCertSecretRef,
  ClientCertSecretRef, RedisTlsSpec, ClickHouseSpec, Instance, cluster_enabled,
}
use langfuse_operator.Config.Env.{
  Config, Volume, VolumeMount, EnvVar, add_common, empty_config, env_from_secret, env_if_mapped,
  mount_ca, mount_secret, tls_base_mount_path,
}
use langfuse_operator.Config.Auth.{auth_env, add_trusted_ca_env, trust_ca}
use langfuse_operator.Config.Database.{
  add_database_env, mount_postgres_ca, tls_database_env, plain_database_env, postgres_tls_query,
  add_external_database,
}
use langfuse_operator.Config.ClickHouse.{add_click_house_env}
use langfuse_operator.Config.Redis.{
  add_redis_env, add_redis_tls_env, mount_redis_ca, mount_redis_client, add_external_redis,
  external_redis_env,
}
use langfuse_operator.Config.Build.{build_config, finish_config}

abbrev pub volume_names : List Volume → List String
volume_names volumes = map (λ v. v.name) volumes

abbrev pub mount_names : List VolumeMount → List String
mount_names mounts = map (λ m. m.name) mounts

-- The mounts name the volumes, in their order.
pub record Mirrored (cfg : Config) : Type 0 where
  pub same : mount_names cfg.volume_mounts ≡ volume_names cfg.volumes

StepMirrored : Result Config → Type 0
StepMirrored (ok cfg) = Mirrored cfg
StepMirrored (err _) = Unit

mount_secret-Mirrored :
    (vol secret path : String) (items : List (String × String)) (cfg : Config)
    → Mirrored cfg
    → Mirrored (mount_secret vol secret path items cfg)
unfolding mount_secret
mount_secret-Mirrored vol secret path items cfg m = record {
  same =
      map-append (λ m. m.name) cfg.volume_mounts _
      ∙ ap (λ ns. ns ++ vol ∷ []) m.same
      ∙ sym (map-append (λ v. v.name) cfg.volumes _);
}

add_common-Mirrored :
    (vs : List EnvVar) (cfg : Config) → Mirrored cfg → Mirrored (add_common vs cfg)
add_common-Mirrored vs cfg m = record { same = m.same }

trust_ca-Mirrored :
    (o : Option CaCertSecretRef) (cfg : Config) → Mirrored cfg → Mirrored (trust_ca o cfg).1
unfolding trust_ca mount_ca
trust_ca-Mirrored none cfg m = m
trust_ca-Mirrored (some ref) cfg m = add_common-Mirrored _ _ (mount_secret-Mirrored _ _ _ _ cfg m)

postgres_ca-Mirrored :
    (disabled : Bool) (o : Option CaCertSecretRef) (cfg : Config)
    → Mirrored cfg
    → Mirrored (
        if disabled then cfg else elim o [
          | none ↦ cfg
          | some ref ↦
              mount_ca "langfuse-postgres-ca" (tls_base_mount_path <> "/postgres-ca") ref cfg
        ])
unfolding mount_ca
postgres_ca-Mirrored true o cfg m = m
postgres_ca-Mirrored false none cfg m = m
postgres_ca-Mirrored false (some ref) cfg m = mount_secret-Mirrored _ _ _ _ cfg m

external_database-Mirrored :
    (o : Option ExternalDatabaseSpec) (t : String) (cfg : Config)
    → Mirrored cfg
    → Mirrored (add_external_database o t cfg)
unfolding add_external_database mount_postgres_ca
external_database-Mirrored none t cfg m = m
external_database-Mirrored (some e) t cfg m =
    elim e.tls
      as (λ o. Mirrored (elim o [
        | none ↦ add_common (plain_database_env e.secret_ref) cfg
        | some tls ↦
            add_common (tls_database_env e.secret_ref (postgres_tls_query tls t))
              (mount_postgres_ca tls cfg)
      ])) [
        | none ↦ add_common-Mirrored _ cfg m
        | some tls ↦ add_common-Mirrored _ _ (
            postgres_ca-Mirrored (non_empty_or tls.ssl_mode "require" == "disable")
              tls.ca_secret_ref cfg m)
      ]

database-Mirrored :
    (o : Option DatabaseSpec) (t : String) (cfg : Config)
    → Mirrored cfg
    → StepMirrored (add_database_env o t cfg)
unfolding add_database_env StepMirrored
database-Mirrored none t cfg m = m
database-Mirrored (some db) t cfg m = elim (Bool-cases db.managed) [
  | inl p ↦ rw p tt
  | inr p ↦
      rw p
        (elim db.cloud_native_pg
          as (λ o. StepMirrored (elim o [
            | some cluster ↦
                ok (add_common (env_from_secret "DATABASE_URL" (cluster <> "-app") "uri" ∷ []) cfg)
            | none ↦ ok (add_external_database db.external t cfg)
          ])) [
            | some cluster ↦ add_common-Mirrored _ cfg m
            | none ↦ external_database-Mirrored db.external t cfg m
          ])
]

click_house-Mirrored :
    {C : Type 0} (i : Instance C) (o : Option ClickHouseSpec) (cfg : Config)
    → Mirrored cfg
    → StepMirrored (add_click_house_env i o cfg)
unfolding add_click_house_env StepMirrored
click_house-Mirrored i none cfg m = m
click_house-Mirrored i (some ch) cfg m =
    elim (Bool-cases (is_some ch.managed && cluster_enabled (some ch))) [
      | inl p ↦ rw p tt
      | inr p ↦ rw p (add_common-Mirrored _ cfg m)
    ]

redis_ca-Mirrored :
    (o : Option CaCertSecretRef) (cfg : Config) → Mirrored cfg → Mirrored (mount_redis_ca o cfg)
unfolding mount_redis_ca mount_ca
redis_ca-Mirrored none cfg m = m
redis_ca-Mirrored (some ref) cfg m = mount_secret-Mirrored _ _ _ _ cfg m

redis_client-Mirrored :
    (o : Option ClientCertSecretRef) (cfg : Config)
    → Mirrored cfg
    → Mirrored (mount_redis_client o cfg)
unfolding mount_redis_client
redis_client-Mirrored none cfg m = m
redis_client-Mirrored (some cc) cfg m = mount_secret-Mirrored _ _ _ _ cfg m

redis_tls-Mirrored :
    (tls : RedisTlsSpec) (t : String) (cfg : Config)
    → Mirrored cfg
    → StepMirrored (add_redis_tls_env tls t cfg)
unfolding add_redis_tls_env StepMirrored
redis_tls-Mirrored tls t cfg m = elim (Bool-cases tls.enabled) [
  | inl p ↦ rw p (
      add_common-Mirrored _ _ (
        redis_client-Mirrored tls.client_cert_secret_ref _
          (redis_ca-Mirrored tls.ca_secret_ref cfg m)))
  | inr p ↦ elim (Bool-cases (is_some tls.ca_secret_ref || is_some tls.client_cert_secret_ref)) [
    | inl q ↦ rw (p, q) tt
    | inr q ↦ rw (p, q) m
  ]
]

external_redis-Mirrored :
    (o : Option ExternalRedisSpec) (t : String) (cfg : Config)
    → Mirrored cfg
    → StepMirrored (add_external_redis o t cfg)
unfolding add_external_redis StepMirrored
external_redis-Mirrored none t cfg m = m
external_redis-Mirrored (some e) t cfg m =
    let with_host = add_common (external_redis_env e.secret_ref) cfg in
    let host = add_common-Mirrored (external_redis_env e.secret_ref) cfg m in
    elim e.tls
      as (λ o. StepMirrored (elim o [
        | some tls ↦ add_redis_tls_env tls t with_host
        | none ↦ ok (
            add_common
              (env_if_mapped "REDIS_TLS_ENABLED" e.secret_ref.name
                (text_at e.secret_ref.keys "tls"))
              with_host)
      ])) [
        | some tls ↦ redis_tls-Mirrored tls t with_host host
        | none ↦ add_common-Mirrored _ with_host host
      ]

redis-Mirrored :
    {C : Type 0} (i : Instance C) (o : Option RedisSpec) (t : String) (cfg : Config)
    → Mirrored cfg
    → StepMirrored (add_redis_env i o t cfg)
unfolding add_redis_env StepMirrored
redis-Mirrored i none t cfg m = m
redis-Mirrored i (some r) t cfg m = elim (Bool-cases r.managed) [
  | inl p ↦ rw p (add_common-Mirrored _ cfg m)
  | inr p ↦ rw p (external_redis-Mirrored r.external t cfg m)
]

step-Mirrored : {r : Result Config} {cfg : Config} → StepMirrored r → r ≡ ok cfg → Mirrored cfg
unfolding StepMirrored
step-Mirrored m h = subst StepMirrored h m

finish-Mirrored :
    {C : Type 0} (i : Instance C) (cfg : Config) → Mirrored cfg → Mirrored (finish_config i cfg)
unfolding finish_config
finish-Mirrored i cfg m = record { same = m.same }

pub build_config-Mirrored :
    {C : Type 0} (i : Instance C) {cfg : Config} → build_config i ≡ ok cfg → Mirrored cfg
unfolding build_config add_trusted_ca_env
build_config-Mirrored i {cfg} h =
    let start = add_common (auth_env i) empty_config in
    let trusted = add_trusted_ca_env i.spec.tls start in
    let d = bind-ok (add_database_env i.spec.database trusted.0 trusted.1) _ h in
    let c = bind-ok (add_click_house_env i i.spec.click_house d.0) _ d.1.1 in
    let r = bind-ok (add_redis_env i i.spec.redis trusted.0 c.0) _ c.1.1 in
    let m0 : Mirrored start = record { same = refl } in
    let m1 = trust_ca-Mirrored _ start m0 in
    let m2 = step-Mirrored (database-Mirrored i.spec.database trusted.0 trusted.1 m1) d.1.0 in
    let m3 = step-Mirrored (click_house-Mirrored i i.spec.click_house d.0 m2) c.1.0 in
    let m4 = step-Mirrored (redis-Mirrored i i.spec.redis trusted.0 c.0 m3) r.1.0 in
    subst Mirrored (ok-injective r.1.1) (finish-Mirrored i r.0 m4)
