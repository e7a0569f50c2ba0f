-- ===== src/Config/Redis.antt =====
-- addRedisEnv and addRedisTLSEnv.
use langfuse_operator.Common.{
  String, ◌<>◌, not, ◌||◌, is_some, Option, none, some, List, [], ◌∷◌, ◌++◌, when_some, text_at,
  non_empty_or, Result, ok, err, if◌then◌else◌,
}
use langfuse_operator.Api.{
  RedisSpec, ExternalRedisSpec, RedisTlsSpec, CaCertSecretRef, ClientCertSecretRef, SecretKeysRef,
  Instance,
}
use langfuse_operator.Config.Env.{
  EnvVar, Config, env_var, env_from_secret, env_if_mapped, env_if_set, add_common, mount_ca,
  mount_secret, tls_base_mount_path, generated_secret_name,
}

abbrev pub redis_ca_path : String
redis_ca_path = "/etc/langfuse/tls/redis-ca/ca.crt"

abbrev pub redis_client_path : String
redis_client_path = "/etc/langfuse/tls/redis-client"

abbrev redis_ca : Option CaCertSecretRef → String → String
redis_ca none trusted = trusted
redis_ca (some _) trusted = redis_ca_path

unfoldable pub mount_redis_ca : Option CaCertSecretRef → Config → Config
unfolding mount_ca
mount_redis_ca none cfg = cfg
mount_redis_ca (some ref) cfg =
    mount_ca "langfuse-redis-ca" (tls_base_mount_path <> "/redis-ca") ref cfg

unfoldable pub mount_redis_client : Option ClientCertSecretRef → Config → Config
unfolding mount_secret non_empty_or
mount_redis_client none cfg = cfg
mount_redis_client (some cc) cfg =
    mount_secret "langfuse-redis-client" cc.name redis_client_path
      ((non_empty_or cc.cert_key "tls.crt", "tls.crt")
        ∷ (non_empty_or cc.key_key "tls.key", "tls.key")
        ∷ [])
      cfg

unfoldable pub redis_tls_env : RedisTlsSpec → String → List EnvVar
redis_tls_env tls trusted =
    env_var "REDIS_TLS_ENABLED" "true"
    ∷ (env_if_set "REDIS_TLS_CA_PATH" (redis_ca tls.ca_secret_ref trusted)
        ++ (when_some tls.client_cert_secret_ref (λ cc.
              env_var "REDIS_TLS_CERT_PATH" (redis_client_path <> "/tls.crt")
              ∷ env_var "REDIS_TLS_KEY_PATH" (redis_client_path <> "/tls.key")
              ∷ [])
            ++ env_if_set "REDIS_TLS_SERVERNAME" tls.server_name))

abbrev pub redis_tls_error : String
redis_tls_error = "redis.external.tls: caSecretRef/clientCertSecretRef set but tls.enabled is false"

unfoldable pub add_redis_tls_env : RedisTlsSpec → String → Config → Result Config
unfolding mount_redis_ca mount_redis_client redis_tls_env
add_redis_tls_env tls trusted cfg =
    if not tls.enabled
    then (if is_some tls.ca_secret_ref || is_some tls.client_cert_secret_ref
        then err redis_tls_error
        else ok cfg)
    else ok (
        add_common (redis_tls_env tls trusted)
          (mount_redis_client tls.client_cert_secret_ref (mount_redis_ca tls.ca_secret_ref cfg)))

unfoldable pub external_redis_env : SecretKeysRef → List EnvVar
unfolding text_at non_empty_or
external_redis_env ref =
    env_from_secret "REDIS_HOST" ref.name (non_empty_or (text_at ref.keys "host") "host")
    ∷ env_from_secret "REDIS_PORT" ref.name (non_empty_or (text_at ref.keys "port") "port")
    ∷ env_if_mapped "REDIS_AUTH" ref.name (text_at ref.keys "password")

unfoldable pub add_external_redis : Option ExternalRedisSpec → String → Config → Result Config
unfolding external_redis_env add_redis_tls_env text_at
add_external_redis none trusted cfg = ok cfg
add_external_redis (some e) trusted cfg =
    let with_host = add_common (external_redis_env e.secret_ref) cfg in
    elim e.tls [
      | some tls ↦ add_redis_tls_env tls trusted with_host
      | none ↦ ok (
          add_common
            (env_if_mapped "REDIS_TLS_ENABLED" e.secret_ref.name (text_at e.secret_ref.keys "tls"))
            with_host)
    ]

unfoldable pub managed_redis_env : String → String → List EnvVar
managed_redis_env name generated =
    env_var "REDIS_HOST" (name <> "-redis")
    ∷ env_var "REDIS_PORT" "6379"
    ∷ env_from_secret "REDIS_AUTH" generated "redis-password"
    ∷ []

unfoldable pub add_redis_env :
    {C : Type 0} → Instance C → Option RedisSpec → String → Config → Result Config
unfolding managed_redis_env add_external_redis
add_redis_env i none trusted cfg = ok cfg
add_redis_env i (some r) trusted cfg =
    if r.managed
    then ok (add_common (managed_redis_env i.name (generated_secret_name i)) cfg)
    else add_external_redis r.external trusted cfg
