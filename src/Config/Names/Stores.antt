-- ===== src/Config/Names/Stores.antt =====
-- The names that the steps for ClickHouse, Redis, the blob storage and the platform may add.
use langfuse_operator.Common.{
  String, ◌==◌, Bool, true, false, not, Option, none, some, List, [], ◌∷◌, text_at, if◌then◌else◌,
  Bool-cases, inl, inr, is_some, when_some, bool_or,
}
use langfuse_operator.Api.{
  SecretKeysRef, BlobStorageSpec, S3Spec, AzureBlobSpec, GcsSpec, RedisTlsSpec,
  ExternalClickHouseSpec, LlmSpec, Instance, ClickHouseSpec,
}
use langfuse_operator.Config.Env.{env_var}
use langfuse_operator.Config.ClickHouse.{
  managed_credentials, managed_click_house_env, external_click_house_env, managed_auth,
  click_house_mode_env,
}
use langfuse_operator.Config.Redis.{redis_tls_env, external_redis_env, managed_redis_env}
use langfuse_operator.Config.Blob.{s3_env, azure_env, gcs_env, blob_storage_env}
use langfuse_operator.Config.Build.{llm_env, otel_env, platform_env}
use langfuse_operator.Config.Names.Fits.{
  Fits, fits_nil, keep, skip, Fits-none, Fits-append, Fits-if, Fits-when, one, two, set-Fits,
  mapped-Fits, ◌then◌,
}

abbrev pub mode_names : Bool → List String
mode_names true =
    "CLICKHOUSE_USER" ∷ "CLICKHOUSE_PASSWORD" ∷ "CLICKHOUSE_URL" ∷ "CLICKHOUSE_MIGRATION_URL" ∷ []
mode_names false =
    "CLICKHOUSE_URL" ∷ "CLICKHOUSE_MIGRATION_URL" ∷ "CLICKHOUSE_USER" ∷ "CLICKHOUSE_PASSWORD"
    ∷ "CLICKHOUSE_MIGRATION_SSL" ∷ []

abbrev pub click_house_names : Bool → List String
click_house_names managed = "CLICKHOUSE_CLUSTER_ENABLED" ∷ "CLICKHOUSE_DB" ∷ mode_names managed

credentials-Fits :
    (o : Option SecretKeysRef) (generated : String)
    → Fits (managed_credentials o generated) ("CLICKHOUSE_USER" ∷ "CLICKHOUSE_PASSWORD" ∷ [])
unfolding managed_credentials
credentials-Fits none generated = two _ _
credentials-Fits (some ref) generated = two _ _

external-Fits : (e : ExternalClickHouseSpec) → Fits (external_click_house_env e) (mode_names false)
unfolding external_click_house_env
external-Fits e =
    let ref = e.secret_ref in
    keep (
      mapped-Fits _ ref.name (text_at ref.keys "migrationUrl")
      then mapped-Fits _ ref.name (text_at ref.keys "username")
      then mapped-Fits _ ref.name (text_at ref.keys "password")
      then Fits-if (bool_or e.tls false) (one (env_var "CLICKHOUSE_MIGRATION_SSL" "true")))

pub mode-Fits :
    (ch : ClickHouseSpec) (name generated : String)
    → Fits (click_house_mode_env ch name generated) (mode_names (is_some ch.managed))
unfolding click_house_mode_env managed_click_house_env
mode-Fits ch name generated =
    elim ch.managed
      as (λ o.
        Fits
          (elim o [
            | some m ↦ managed_click_house_env m name generated
            | none ↦ when_some ch.external external_click_house_env
          ])
          (mode_names (is_some o))) [
            | some m ↦ Fits-append (credentials-Fits (managed_auth m) generated) (two _ _)
            | none ↦ Fits-when ch.external external-Fits
          ]

abbrev tls_names : List String
tls_names =
    "REDIS_TLS_CA_PATH" ∷ "REDIS_TLS_CERT_PATH" ∷ "REDIS_TLS_KEY_PATH" ∷ "REDIS_TLS_SERVERNAME" ∷ []

abbrev pub redis_tls_names : List String
redis_tls_names = "REDIS_TLS_ENABLED" ∷ tls_names

abbrev pub redis_names : List String
redis_names = "REDIS_HOST" ∷ "REDIS_PORT" ∷ "REDIS_AUTH" ∷ []

pub managed_redis-Fits : (name g : String) → Fits (managed_redis_env name g) redis_names
unfolding managed_redis_env
managed_redis-Fits name g = keep (two _ _)

pub external_redis-Fits : (ref : SecretKeysRef) → Fits (external_redis_env ref) redis_names
unfolding external_redis_env
external_redis-Fits ref = keep (keep (mapped-Fits _ _ _))

pub redis_tls-Fits :
    (tls : RedisTlsSpec) (trusted : String) → Fits (redis_tls_env tls trusted) redis_tls_names
unfolding redis_tls_env
redis_tls-Fits tls trusted = keep (
    set-Fits _ _
    then Fits-append (Fits-when tls.client_cert_secret_ref (λ cc. two _ _)) (set-Fits _ _))

abbrev pub blob_names : List String
blob_names =
    "LANGFUSE_S3_EVENT_UPLOAD_ENABLED" ∷ "LANGFUSE_USE_AZURE_BLOB"
    ∷ "LANGFUSE_USE_GOOGLE_CLOUD_STORAGE" ∷ "LANGFUSE_S3_EVENT_UPLOAD_BUCKET"
    ∷ "LANGFUSE_S3_EVENT_UPLOAD_REGION" ∷ "LANGFUSE_S3_EVENT_UPLOAD_ENDPOINT"
    ∷ "LANGFUSE_S3_EVENT_UPLOAD_FORCE_PATH_STYLE" ∷ "LANGFUSE_S3_EVENT_UPLOAD_ACCESS_KEY_ID"
    ∷ "LANGFUSE_S3_EVENT_UPLOAD_SECRET_ACCESS_KEY" ∷ "LANGFUSE_GOOGLE_CLOUD_STORAGE_CREDENTIALS"
    ∷ []

s3-Fits : (s : S3Spec) → Fits (s3_env s) blob_names
unfolding s3_env
s3-Fits s = keep (
    skip (
      skip (
        keep (
          set-Fits _ s.region
          then set-Fits _ s.endpoint
          then Fits-if s.force_path_style (one _)
          then Fits-when s.credentials (λ ref. keep (keep (skip fits_nil)))))))

azure-Fits : (a : AzureBlobSpec) → Fits (azure_env a) blob_names
unfolding azure_env
azure-Fits a = keep (
    keep (
      skip
        (keep (skip (keep (skip (keep (Fits-when a.credentials (λ ref. keep (skip fits_nil))))))))))

gcs-Fits : (g : GcsSpec) → Fits (gcs_env g) blob_names
unfolding gcs_env
gcs-Fits g =
    keep (
      skip
        (keep (keep (skip (skip (skip (skip (skip (Fits-when g.credentials (λ ref. one _))))))))))

pub blob-Fits : (o : Option BlobStorageSpec) → Fits (blob_storage_env o) blob_names
unfolding blob_storage_env
blob-Fits none = Fits-none _
blob-Fits (some bs) = elim (Bool-cases (bs.provider == "s3")) [
  | inl p ↦ rw p (Fits-when bs.s3 s3-Fits)
  | inr p ↦ elim (Bool-cases (bs.provider == "azure")) [
    | inl q ↦ rw (p, q) (Fits-when bs.azure azure-Fits)
    | inr q ↦ elim (Bool-cases (bs.provider == "gcs")) [
      | inl r ↦ rw (p, q, r) (Fits-when bs.gcs gcs-Fits)
      | inr r ↦ rw (p, q, r) (Fits-none _)
    ]
  ]
]

abbrev pub platform_names : List String
platform_names =
    "LLM_API_BASE" ∷ "LLM_API_KEY" ∷ "LLM_MODEL" ∷ "TELEMETRY_ENABLED"
    ∷ "OTEL_EXPORTER_OTLP_ENDPOINT" ∷ "OTEL_EXPORTER_OTLP_PROTOCOL" ∷ []

llm-Fits : (l : LlmSpec) → Fits (llm_env l) ("LLM_API_BASE" ∷ "LLM_API_KEY" ∷ "LLM_MODEL" ∷ [])
unfolding llm_env
llm-Fits l = set-Fits _ l.api_base then Fits-when l.api_key (λ r. one _) then set-Fits _ l.model

pub platform-Fits : {C : Type 0} (i : Instance C) → Fits (platform_env i) platform_names
unfolding platform_env otel_env
platform-Fits i = Fits-append (Fits-when i.spec.llm llm-Fits) (
    Fits-if (not _) (one _)
    then Fits-when i.spec.observability (λ o. Fits-when o.otel (λ t. Fits-if t.enabled (two _ _))))
