-- ===== src/Config/Database.antt =====
-- addDatabaseEnv and postgresTLSQuery.
use langfuse_operator.Common.{
  String, ◌==◌, ◌<>◌, join, not, ◌||◌, Option, none, some, List, [], ◌∷◌, only_if, text_at,
  non_empty_or, Result, ok, err, if◌then◌else◌,
}
use langfuse_operator.Api.{
  DatabaseSpec, DatabaseTlsSpec, ExternalDatabaseSpec, CaCertSecretRef, SecretKeysRef,
}
use langfuse_operator.Config.Env.{
  EnvVar, Config, env_var, env_from_secret, env_if_mapped, add_common, mount_ca,
  tls_base_mount_path,
}

abbrev pub postgres_ca_path : String
postgres_ca_path = "/etc/langfuse/tls/postgres-ca/ca.crt"

abbrev ca_path_or : Option CaCertSecretRef → String → String → String
ca_path_or none own trusted = trusted
ca_path_or (some _) own trusted = own

unfoldable pub postgres_tls_query : DatabaseTlsSpec → String → String
unfolding non_empty_or join
postgres_tls_query tls trusted =
    let mode = non_empty_or tls.ssl_mode "require" in
    let ca = ca_path_or tls.ca_secret_ref postgres_ca_path trusted in
    if mode == "disable"
    then "?sslmode=disable"
    else "?"
      <> join
          ("sslmode=require"
            ∷ (if mode == "verify-ca" || mode == "verify-full"
                then "sslaccept=strict"
                else "sslaccept=accept_invalid_certs")
            ∷ only_if (not (ca == "")) (("sslcert=" <> ca) ∷ []))
          "&"

-- The mount that postgresTLSQuery adds.
unfoldable pub mount_postgres_ca : DatabaseTlsSpec → Config → Config
unfolding mount_ca non_empty_or
mount_postgres_ca tls cfg =
    if non_empty_or tls.ssl_mode "require" == "disable" then cfg else elim tls.ca_secret_ref [
      | none ↦ cfg
      | some ref ↦ mount_ca "langfuse-postgres-ca" (tls_base_mount_path <> "/postgres-ca") ref cfg
    ]

unfoldable pub plain_database_env : SecretKeysRef → List EnvVar
unfolding text_at non_empty_or
plain_database_env ref =
    env_from_secret "DATABASE_URL" ref.name (non_empty_or (text_at ref.keys "url") "database_url")
    ∷ env_if_mapped "DIRECT_URL" ref.name (text_at ref.keys "directUrl")

unfoldable pub tls_database_env : SecretKeysRef → String → List EnvVar
unfolding text_at non_empty_or
tls_database_env ref query =
    env_from_secret "DATABASE_URL_BASE" ref.name
      (non_empty_or (text_at ref.keys "url") "database_url")
    ∷ env_var "DATABASE_URL" ("$(DATABASE_URL_BASE)" <> query)
    ∷ only_if (not (text_at ref.keys "directUrl" == "")) (
        env_from_secret "DIRECT_URL_BASE" ref.name (text_at ref.keys "directUrl")
        ∷ env_var "DIRECT_URL" ("$(DIRECT_URL_BASE)" <> query)
        ∷ [])

unfoldable pub add_external_database : Option ExternalDatabaseSpec → String → Config → Config
unfolding postgres_tls_query mount_postgres_ca plain_database_env tls_database_env
add_external_database none trusted cfg = cfg
add_external_database (some e) trusted cfg = elim e.tls [
  | none ↦ add_common (plain_database_env e.secret_ref) cfg
  | some tls ↦
      add_common (tls_database_env e.secret_ref (postgres_tls_query tls trusted))
        (mount_postgres_ca tls cfg)
]

abbrev pub managed_database_error : String
managed_database_error =
    "spec.database.managed is not implemented and is deprecated (removed in 0.11.0): the operator does not deploy PostgreSQL in this mode. Use spec.database.cloudnativepg or spec.database.external"

unfoldable pub add_database_env : Option DatabaseSpec → String → Config → Result Config
unfolding add_external_database
add_database_env none trusted cfg = ok cfg
add_database_env (some db) trusted cfg =
    if db.managed then err managed_database_error else elim db.cloud_native_pg [
      | some cluster ↦
          ok (add_common (env_from_secret "DATABASE_URL" (cluster <> "-app") "uri" ∷ []) cfg)
      | none ↦ ok (add_external_database db.external trusted cfg)
    ]
