-- ===== src/Config/ClickHouse.antt =====
-- addClickHouseEnv.
use langfuse_operator.Common.{
  String, ◌<>◌, bool_text, false, ◌&&◌, bool_or, is_some, Option, none, some, List, [], ◌∷◌, ◌++◌,
  only_if, when_some, text_at, non_empty_or, Result, ok, err, if◌then◌else◌,
}
use langfuse_operator.Api.{
  ClickHouseSpec, ManagedClickHouseSpec, ExternalClickHouseSpec, SecretKeysRef, Instance,
  cluster_enabled,
}
use langfuse_operator.Config.Env.{
  EnvVar, Config, env_var, env_from_secret, env_if_mapped, env_if_set, add_common,
  generated_secret_name,
}

-- The reference of `managed.auth`, where both are set.
abbrev pub managed_auth : ManagedClickHouseSpec → Option SecretKeysRef
managed_auth m = elim m.auth [ none ↦ none | some ref ↦ ref ]

unfoldable pub managed_credentials : Option SecretKeysRef → String → List EnvVar
unfolding text_at non_empty_or
managed_credentials none generated =
    env_from_secret "CLICKHOUSE_USER" generated "clickhouse-username"
    ∷ env_from_secret "CLICKHOUSE_PASSWORD" generated "clickhouse-password"
    ∷ []
managed_credentials (some ref) generated =
    env_from_secret "CLICKHOUSE_USER" ref.name
      (non_empty_or (text_at ref.keys "username") "username")
    ∷ env_from_secret "CLICKHOUSE_PASSWORD" ref.name
        (non_empty_or (text_at ref.keys "password") "password")
    ∷ []

unfoldable pub managed_click_house_env : ManagedClickHouseSpec → String → String → List EnvVar
unfolding managed_credentials
managed_click_house_env m name generated =
    managed_credentials (managed_auth m) generated
    ++ (env_var "CLICKHOUSE_URL" ("http://" <> (name <> "-clickhouse:8123"))
        ∷ env_var "CLICKHOUSE_MIGRATION_URL" ("clickhouse://" <> (name <> "-clickhouse:9000"))
        ∷ [])

unfoldable pub external_click_house_env : ExternalClickHouseSpec → List EnvVar
unfolding text_at non_empty_or
external_click_house_env e =
    let keys = e.secret_ref.keys in
    let secret = e.secret_ref.name in
    env_from_secret "CLICKHOUSE_URL" secret (non_empty_or (text_at keys "url") "url")
    ∷ (env_if_mapped "CLICKHOUSE_MIGRATION_URL" secret (text_at keys "migrationUrl")
        ++ (env_if_mapped "CLICKHOUSE_USER" secret (text_at keys "username")
            ++ (env_if_mapped "CLICKHOUSE_PASSWORD" secret (text_at keys "password")
                ++ only_if (bool_or e.tls false) (env_var "CLICKHOUSE_MIGRATION_SSL" "true" ∷ []))))

-- The switch on the mode.
unfoldable pub click_house_mode_env : ClickHouseSpec → String → String → List EnvVar
unfolding managed_click_house_env external_click_house_env
click_house_mode_env ch name generated = elim ch.managed [
  | some m ↦ managed_click_house_env m name generated
  | none ↦ when_some ch.external external_click_house_env
]

abbrev pub managed_cluster_error : String
managed_cluster_error =
    "spec.clickhouse.cluster.enabled is not supported with spec.clickhouse.managed: the managed mode is a single node with no Keeper. Use spec.clickhouse.external against a replicated cluster"

unfoldable pub add_click_house_env :
    {C : Type 0} → Instance C → Option ClickHouseSpec → Config → Result Config
unfolding click_house_mode_env bool_text cluster_enabled
add_click_house_env i none cfg = ok cfg
add_click_house_env i (some ch) cfg =
    if is_some ch.managed && cluster_enabled (some ch)
    then err managed_cluster_error
    else ok (
        add_common
          (env_var "CLICKHOUSE_CLUSTER_ENABLED" (bool_text (cluster_enabled (some ch)))
            ∷ (env_if_set "CLICKHOUSE_DB" ch.database
                ++ click_house_mode_env ch i.name (generated_secret_name i)))
          cfg)
