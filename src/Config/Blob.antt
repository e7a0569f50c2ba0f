-- ===== src/Config/Blob.antt =====
-- addBlobStorageEnv and azureBlobEndpoint.
use langfuse_operator.Common.{
  String, ◌==◌, ◌<>◌, Option, none, some, List, [], ◌∷◌, ◌++◌, only_if, when_some, text_at,
  non_empty_or, if◌then◌else◌,
}
use langfuse_operator.Api.{BlobStorageSpec, S3Spec, AzureBlobSpec, GcsSpec}
use langfuse_operator.Config.Env.{EnvVar, env_var, env_from_secret, env_if_set}

unfoldable pub s3_env : S3Spec → List EnvVar
unfolding text_at non_empty_or
s3_env s =
    env_var "LANGFUSE_S3_EVENT_UPLOAD_ENABLED" "true"
    ∷ env_var "LANGFUSE_S3_EVENT_UPLOAD_BUCKET" s.bucket
    ∷ (env_if_set "LANGFUSE_S3_EVENT_UPLOAD_REGION" s.region
        ++ (env_if_set "LANGFUSE_S3_EVENT_UPLOAD_ENDPOINT" s.endpoint
            ++ (only_if s.force_path_style
                  (env_var "LANGFUSE_S3_EVENT_UPLOAD_FORCE_PATH_STYLE" "true" ∷ [])
                ++ when_some s.credentials (λ ref.
                  env_from_secret "LANGFUSE_S3_EVENT_UPLOAD_ACCESS_KEY_ID" ref.name
                    (non_empty_or (text_at ref.keys "accessKeyId") "access_key")
                  ∷ env_from_secret "LANGFUSE_S3_EVENT_UPLOAD_SECRET_ACCESS_KEY" ref.name
                      (non_empty_or (text_at ref.keys "secretAccessKey") "secret_key")
                  ∷ []))))

unfoldable pub azure_blob_endpoint : AzureBlobSpec → String
unfolding non_empty_or
azure_blob_endpoint a =
    non_empty_or a.endpoint ("https://" <> (a.storage_account_name <> ".blob.core.windows.net"))

unfoldable pub azure_env : AzureBlobSpec → List EnvVar
unfolding azure_blob_endpoint text_at non_empty_or
azure_env a =
    env_var "LANGFUSE_S3_EVENT_UPLOAD_ENABLED" "true"
    ∷ env_var "LANGFUSE_USE_AZURE_BLOB" "true"
    ∷ env_var "LANGFUSE_S3_EVENT_UPLOAD_BUCKET" a.container_name
    ∷ env_var "LANGFUSE_S3_EVENT_UPLOAD_ENDPOINT" (azure_blob_endpoint a)
    ∷ env_var "LANGFUSE_S3_EVENT_UPLOAD_ACCESS_KEY_ID" a.storage_account_name
    ∷ when_some a.credentials (λ ref.
      env_from_secret "LANGFUSE_S3_EVENT_UPLOAD_SECRET_ACCESS_KEY" ref.name
        (non_empty_or (text_at ref.keys "accountKey") "accountKey")
      ∷ [])

unfoldable pub gcs_env : GcsSpec → List EnvVar
unfolding text_at non_empty_or
gcs_env g =
    env_var "LANGFUSE_S3_EVENT_UPLOAD_ENABLED" "true"
    ∷ env_var "LANGFUSE_USE_GOOGLE_CLOUD_STORAGE" "true"
    ∷ env_var "LANGFUSE_S3_EVENT_UPLOAD_BUCKET" g.bucket_name
    ∷ when_some g.credentials (λ ref.
      env_from_secret "LANGFUSE_GOOGLE_CLOUD_STORAGE_CREDENTIALS" ref.name
        (non_empty_or (text_at ref.keys "credentials") "credentials")
      ∷ [])

-- What addBlobStorageEnv appends.
unfoldable pub blob_storage_env : Option BlobStorageSpec → List EnvVar
unfolding s3_env azure_env gcs_env
blob_storage_env none = []
blob_storage_env (some bs) =
    if bs.provider == "s3"
    then when_some bs.s3 s3_env
    else if bs.provider == "azure"
    then when_some bs.azure azure_env
    else if bs.provider == "gcs"
    then when_some bs.gcs gcs_env
    else []
