-- ===== src/Config/Build.antt =====
-- BuildConfig.
use langfuse_operator.Common.{
  ℤ, pos, show_ℤ, true, not, bool_or, Option, none, some, List, [], ◌∷◌, ◌++◌, only_if, when_some,
  Result, ok, ◌>>=◌,
}
use langfuse_operator.Api.{LlmSpec, OtelSpec, Instance}
use langfuse_operator.Config.Env.{
  EnvVar, Config, empty_config, env_var, env_from_secret, env_if_set, add_common,
}
use langfuse_operator.Config.Auth.{auth_env, add_trusted_ca_env}
use langfuse_operator.Config.Database.{add_database_env}
use langfuse_operator.Config.ClickHouse.{add_click_house_env}
use langfuse_operator.Config.Redis.{add_redis_env}
use langfuse_operator.Config.Blob.{blob_storage_env}

unfoldable pub llm_env : LlmSpec → List EnvVar
llm_env l =
    env_if_set "LLM_API_BASE" l.api_base
    ++ (when_some l.api_key (λ r. env_from_secret "LLM_API_KEY" r.name r.key ∷ [])
        ++ env_if_set "LLM_MODEL" l.model)

unfoldable pub otel_env : OtelSpec → List EnvVar
otel_env o = only_if o.enabled (
    env_var "OTEL_EXPORTER_OTLP_ENDPOINT" o.endpoint
    ∷ env_var "OTEL_EXPORTER_OTLP_PROTOCOL" o.protocol
    ∷ [])

-- What BuildConfig itself appends to the common variables: LLM, telemetry and OTEL.
unfoldable pub platform_env : {C : Type 0} → Instance C → List EnvVar
unfolding llm_env otel_env
platform_env i =
    when_some i.spec.llm llm_env
    ++ (only_if (not (bool_or i.spec.telemetry_enabled true))
          (env_var "TELEMETRY_ENABLED" "false" ∷ [])
        ++ when_some i.spec.observability (λ o. when_some o.otel otel_env))

abbrev pub migrations_disabled : List EnvVar
migrations_disabled =
    env_var "LANGFUSE_AUTO_POSTGRES_MIGRATION_DISABLED" "true"
    ∷ env_var "LANGFUSE_AUTO_CLICKHOUSE_MIGRATION_DISABLED" "true"
    ∷ []

abbrev pub web_variables : List EnvVar
web_variables =
    env_var "LANGFUSE_WORKER_ENABLED" "false"
    ∷ env_var "PORT" "3000"
    ∷ env_var "HOSTNAME" "0.0.0.0"
    ∷ migrations_disabled

concurrency : Option ℤ → ℤ
concurrency none = pos 10
concurrency (some n) = n

unfoldable pub worker_variables : {C : Type 0} → Instance C → List EnvVar
unfolding concurrency show_ℤ
worker_variables i =
    env_var "LANGFUSE_WORKER_ENABLED" "true"
    ∷ env_var "LANGFUSE_WORKER_CONCURRENCY" (show_ℤ (concurrency i.spec.worker_concurrency))
    ∷ migrations_disabled

-- The steps behind the datastores.
unfoldable pub finish_config : {C : Type 0} → Instance C → Config → Config
unfolding blob_storage_env platform_env worker_variables
finish_config i cfg =
    record (add_common (platform_env i) (add_common (blob_storage_env i.spec.blob_storage) cfg)) {
      web_env = cfg.web_env ++ web_variables;
      worker_env = cfg.worker_env ++ worker_variables i;
    }

unfoldable pub build_config : {C : Type 0} → Instance C → Result Config
unfolding auth_env add_trusted_ca_env add_database_env add_click_house_env add_redis_env
    finish_config
build_config i = do
  let trusted = add_trusted_ca_env i.spec.tls (add_common (auth_env i) empty_config)
  with_database ← add_database_env i.spec.database trusted.0 trusted.1
  with_click_house ← add_click_house_env i i.spec.click_house with_database
  with_redis ← add_redis_env i i.spec.redis trusted.0 with_click_house
  ok (finish_config i with_redis)
