-- ===== src/Api/Datastores.antt =====
-- api/v1alpha1/langfuseinstance_types.go and common_types.go: references to Secrets, and the datastores of the spec.
use langfuse_operator.Common.{ℤ, String, Bool, Option, none, some, List, false}

pub record SecretKeyRef : Type 0 where
  pub name : String
  pub key : String

pub record SecretKeysRef : Type 0 where
  pub name : String
  pub keys : List (String × String)

pub record SecretValue : Type 0 where
  pub secret_ref : Option SecretKeyRef

pub record CaCertSecretRef : Type 0 where
  pub name : String
  pub key : String

pub record ClientCertSecretRef : Type 0 where
  pub name : String
  pub cert_key : String
  pub key_key : String

pub record DatabaseTlsSpec : Type 0 where
  pub ssl_mode : String
  pub ca_secret_ref : Option CaCertSecretRef

pub record ExternalDatabaseSpec : Type 0 where
  pub secret_ref : SecretKeysRef
  pub tls : Option DatabaseTlsSpec

-- `cloud_native_pg` is the name of its cluster reference; nothing of `managed` is read.
pub record DatabaseSpec : Type 0 where
  pub cloud_native_pg : Option String
  pub managed : Bool
  pub external : Option ExternalDatabaseSpec
  pub run_on_deploy : Option (Option Bool)

-- `auth` is the reference of `managed.auth`, where both are set.
pub record ManagedClickHouseSpec : Type 0 where
  pub auth : Option (Option SecretKeysRef)

-- `tls` is `tls.enabled`.
pub record ExternalClickHouseSpec : Type 0 where
  pub secret_ref : SecretKeysRef
  pub tls : Option Bool

pub record StoragePressureSpec : Type 0 where
  pub enabled : Bool
  pub warning_threshold_percent : ℤ
  pub critical_threshold_percent : ℤ

-- Each table's `ttlDays`, where the table is listed.
pub record RetentionSpec : Type 0 where
  pub traces : Option ℤ
  pub observations : Option ℤ
  pub scores : Option ℤ
  pub storage_pressure : Option StoragePressureSpec

pub record SchemaDriftSpec : Type 0 where
  pub enabled : Bool
  pub check_interval_minutes : ℤ
  pub auto_repair : Bool

-- `cluster` is `cluster.enabled`.
pub record ClickHouseSpec : Type 0 where
  pub managed : Option ManagedClickHouseSpec
  pub external : Option ExternalClickHouseSpec
  pub retention : Option RetentionSpec
  pub schema_drift : Option SchemaDriftSpec
  pub cluster : Option Bool
  pub database : String

-- ClusterEnabled, on a pointer that may be nil.
unfoldable pub cluster_enabled : Option ClickHouseSpec → Bool
cluster_enabled none = false
cluster_enabled (some s) = elim s.cluster [ none ↦ false | some enabled ↦ enabled ]

pub record RedisTlsSpec : Type 0 where
  pub enabled : Bool
  pub ca_secret_ref : Option CaCertSecretRef
  pub client_cert_secret_ref : Option ClientCertSecretRef
  pub server_name : String

pub record ExternalRedisSpec : Type 0 where
  pub secret_ref : SecretKeysRef
  pub tls : Option RedisTlsSpec

pub record RedisSpec : Type 0 where
  pub managed : Bool
  pub external : Option ExternalRedisSpec

-- `credentials` is the reference of the provider's credentials.
pub record S3Spec : Type 0 where
  pub endpoint : String
  pub region : String
  pub bucket : String
  pub force_path_style : Bool
  pub credentials : Option SecretKeysRef

pub record AzureBlobSpec : Type 0 where
  pub storage_account_name : String
  pub container_name : String
  pub endpoint : String
  pub credentials : Option SecretKeysRef

pub record GcsSpec : Type 0 where
  pub bucket_name : String
  pub credentials : Option SecretKeysRef

pub record BlobStorageSpec : Type 0 where
  pub provider : String
  pub s3 : Option S3Spec
  pub azure : Option AzureBlobSpec
  pub gcs : Option GcsSpec
