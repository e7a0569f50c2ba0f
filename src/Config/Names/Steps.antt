-- ===== src/Config/Names/Steps.antt =====
-- What each step of BuildConfig up to the datastores adds to the variables.
use langfuse_operator.Config.Names.Adds.{
  Keeps, no-Keeps, mount-Keeps, trans-Keeps, Adds, StepAdds, no-Adds, plain-Adds, mounted-Adds,
  then-Adds, then_step-Adds,
}
use langfuse_operator.Common.{
  String, ◌==◌, Bool, false, ◌&&◌, ◌||◌, Option, none, some, List, [], ◌∷◌, ◌++◌, if◌then◌else◌,
  Bool-cases, inl, inr, refl, is_some, ok, ◌<>◌, text_at, non_empty_or,
}
use langfuse_operator.Api.{
  DatabaseSpec, DatabaseTlsSpec, ExternalDatabaseSpec, RedisSpec, ExternalRedisSpec,
  CaCertSecretRef, ClientCertSecretRef, RedisTlsSpec, ClickHouseSpec, TlsSpec, Instance,
  cluster_enabled,
}
use langfuse_operator.Config.Env.{
  Config, add_common, EnvVar, mount_ca, mount_secret, tls_base_mount_path, env_from_secret,
  env_if_mapped,
}
use langfuse_operator.Config.Auth.{add_trusted_ca_env, trust_ca}
use langfuse_operator.Config.Database.{
  add_database_env, mount_postgres_ca, tls_database_env, plain_database_env, postgres_tls_query,
  add_external_database,
}
use langfuse_operator.Config.ClickHouse.{add_click_house_env}
use langfuse_operator.Config.Redis.{
  add_redis_env, add_redis_tls_env, mount_redis_ca, mount_redis_client, add_external_redis,
  external_redis_env,
}
use langfuse_operator.Config.Names.Fits.{
  Fits, keep, skip, Fits-none, Fits-append, Fits-append_none, one, set-Fits, mapped-Fits, ◌then◌,
}
use langfuse_operator.Config.Names.Pieces.{database_names, plain_database-Fits, tls_database-Fits}
use langfuse_operator.Config.Names.Stores.{
  click_house_names, mode-Fits, redis_names, redis_tls_names, managed_redis-Fits,
  external_redis-Fits, redis_tls-Fits,
}

tls_database-Adds :
    (tls : DatabaseTlsSpec) {vs : List EnvVar} (cfg : Config)
    → Fits vs database_names
    → Adds database_names cfg (add_common vs (mount_postgres_ca tls cfg))
unfolding mount_postgres_ca mount_ca mount_secret
tls_database-Adds tls {vs} cfg g =
    elim (Bool-cases (non_empty_or tls.ssl_mode "require" == "disable")) [
      | inl p ↦ rw p (plain-Adds cfg g)
      | inr p ↦
          rw p
            (elim tls.ca_secret_ref
              as (λ o. Adds database_names cfg (
                add_common vs (elim o [
                  | none ↦ cfg
                  | some ref ↦
                      mount_ca "langfuse-postgres-ca" (tls_base_mount_path <> "/postgres-ca") ref
                        cfg
                ]))) [
                  | none ↦ plain-Adds cfg g
                  | some ref ↦ record {
                    common = λ ms f. Fits-append f g;
                    web = refl;
                    worker = refl;
                  }
                ])
    ]

external_database-Adds :
    (o : Option ExternalDatabaseSpec) (t : String) (cfg : Config)
    → Adds database_names cfg (add_external_database o t cfg)
unfolding add_external_database
external_database-Adds none t cfg = no-Adds _ cfg
external_database-Adds (some e) t cfg =
    elim e.tls
      as (λ o. Adds database_names cfg (elim o [
        | none ↦ add_common (plain_database_env e.secret_ref) cfg
        | some tls ↦
            add_common (tls_database_env e.secret_ref (postgres_tls_query tls t))
              (mount_postgres_ca tls cfg)
      ])) [
        | none ↦ plain-Adds cfg (plain_database-Fits e.secret_ref)
        | some tls ↦ tls_database-Adds tls cfg (tls_database-Fits e.secret_ref _)
      ]

pub database-adds :
    (o : Option DatabaseSpec) (t : String) (cfg : Config)
    → StepAdds database_names cfg (add_database_env o t cfg)
unfolding add_database_env StepAdds
database-adds none t cfg = no-Adds _ cfg
database-adds (some db) t cfg = elim (Bool-cases db.managed) [
  | inl p ↦ rw p tt
  | inr p ↦
      rw p
        (elim db.cloud_native_pg
          as (λ o. StepAdds database_names cfg (elim o [
            | some cluster ↦
                ok (add_common (env_from_secret "DATABASE_URL" (cluster <> "-app") "uri" ∷ []) cfg)
            | none ↦ ok (add_external_database db.external t cfg)
          ])) [
            | some cluster ↦ plain-Adds cfg (skip (keep (Fits-none _)))
            | none ↦ external_database-Adds db.external t cfg
          ])
]

mount_redis_ca-Keeps :
    (o : Option CaCertSecretRef) (cfg : Config) → Keeps cfg (mount_redis_ca o cfg)
unfolding mount_redis_ca mount_ca
mount_redis_ca-Keeps none cfg = no-Keeps cfg
mount_redis_ca-Keeps (some ref) cfg = mount-Keeps _ _ _ _ cfg

mount_redis_client-Keeps :
    (o : Option ClientCertSecretRef) (cfg : Config) → Keeps cfg (mount_redis_client o cfg)
unfolding mount_redis_client
mount_redis_client-Keeps none cfg = no-Keeps cfg
mount_redis_client-Keeps (some cc) cfg = mount-Keeps _ _ _ _ cfg

redis_tls-adds :
    (tls : RedisTlsSpec) (t : String) (cfg : Config)
    → StepAdds redis_tls_names cfg (add_redis_tls_env tls t cfg)
unfolding add_redis_tls_env StepAdds
redis_tls-adds tls t cfg = elim (Bool-cases tls.enabled) [
  | inl p ↦ rw p (
      mounted-Adds
        (trans-Keeps (mount_redis_ca-Keeps tls.ca_secret_ref cfg)
          (mount_redis_client-Keeps tls.client_cert_secret_ref _))
        (redis_tls-Fits tls t))
  | inr p ↦ elim (Bool-cases (is_some tls.ca_secret_ref || is_some tls.client_cert_secret_ref)) [
    | inl q ↦ rw (p, q) tt
    | inr q ↦ rw (p, q) (no-Adds redis_tls_names cfg)
  ]
]

external_redis-adds :
    (o : Option ExternalRedisSpec) (t : String) (cfg : Config)
    → StepAdds (redis_names ++ redis_tls_names) cfg (add_external_redis o t cfg)
unfolding add_external_redis StepAdds
external_redis-adds none t cfg = no-Adds _ cfg
external_redis-adds (some e) t cfg =
    let host = plain-Adds cfg (external_redis-Fits e.secret_ref) in
    let with_host = add_common (external_redis_env e.secret_ref) cfg in
    elim e.tls
      as (λ o. StepAdds (redis_names ++ redis_tls_names) cfg (elim o [
        | some tls ↦ add_redis_tls_env tls t with_host
        | none ↦ ok (
            add_common
              (env_if_mapped "REDIS_TLS_ENABLED" e.secret_ref.name
                (text_at e.secret_ref.keys "tls"))
              with_host)
      ])) [
        | some tls ↦ then_step-Adds redis_tls_names _ host (redis_tls-adds tls t with_host)
        | none ↦ then-Adds host (
            plain-Adds with_host (
              Fits-append_none _
                (mapped-Fits _ e.secret_ref.name (text_at e.secret_ref.keys "tls"))))
      ]

pub redis-adds :
    {C : Type 0} (i : Instance C) (o : Option RedisSpec) (t : String) (cfg : Config)
    → StepAdds (redis_names ++ redis_tls_names) cfg (add_redis_env i o t cfg)
unfolding add_redis_env StepAdds
redis-adds i none t cfg = no-Adds _ cfg
redis-adds i (some r) t cfg = elim (Bool-cases r.managed) [
  | inl p ↦ rw p (plain-Adds cfg (Fits-append_none _ (managed_redis-Fits i.name _)))
  | inr p ↦ rw p (external_redis-adds r.external t cfg)
]

trust_ca-Adds :
    (o : Option CaCertSecretRef) (cfg : Config)
    → Adds ("NODE_EXTRA_CA_CERTS" ∷ []) cfg ((trust_ca o cfg).1)
unfolding trust_ca mount_ca
trust_ca-Adds none cfg = no-Adds _ cfg
trust_ca-Adds (some ref) cfg = mounted-Adds (mount-Keeps _ _ _ _ cfg) (one _)

pub trusted_ca-Adds :
    (o : Option TlsSpec) (cfg : Config)
    → Adds ("NODE_EXTRA_CA_CERTS" ∷ []) cfg ((add_trusted_ca_env o cfg).1)
unfolding add_trusted_ca_env
trusted_ca-Adds o cfg = trust_ca-Adds _ cfg

abbrev pub is_managed : Option ClickHouseSpec → Bool
is_managed none = false
is_managed (some ch) = is_some ch.managed

pub click_house-adds :
    {C : Type 0} (i : Instance C) (o : Option ClickHouseSpec) (cfg : Config)
    → StepAdds (click_house_names (is_managed o)) cfg (add_click_house_env i o cfg)
unfolding add_click_house_env StepAdds
click_house-adds i none cfg = no-Adds _ cfg
click_house-adds i (some ch) cfg =
    elim (Bool-cases (is_some ch.managed && cluster_enabled (some ch))) [
      | inl p ↦ rw p tt
      | inr p ↦ rw p (plain-Adds cfg (keep (set-Fits _ ch.database then mode-Fits ch _ _)))
    ]
