-- ===== src/Config/Env.antt =====
-- The Config, its variables and volumes, and mountSecret.
use langfuse_operator.Common.{
  String, ◌==◌, ◌<>◌, true, Option, none, some, List, [], ◌∷◌, ◌++◌, only_if, not, non_empty_or,
}
pub use langfuse_operator.Api.Core.{EnvSource, EnvVar, Volume, VolumeMount}
pub use langfuse_operator.Api.Core.EnvSource.{value, secret_key}
use langfuse_operator.Api.{SecretKeyRef, SecretValue, CaCertSecretRef, Instance}

pub record Config : Type 0 where
  pub common_env : List EnvVar
  pub web_env : List EnvVar
  pub worker_env : List EnvVar
  pub volumes : List Volume
  pub volume_mounts : List VolumeMount

abbrev pub env_var : String → String → EnvVar
env_var name v = record { name = name; source = value v }

abbrev pub env_from_secret : String → String → String → EnvVar
env_from_secret name secret key = record { name = name; source = secret_key secret key }

abbrev pub empty_config : Config
empty_config = record {
  common_env = [];
  web_env = [];
  worker_env = [];
  volumes = [];
  volume_mounts = [];
}

-- cfg.CommonEnv = append(cfg.CommonEnv, …)
abbrev pub add_common : List EnvVar → Config → Config
add_common env cfg = record cfg { common_env = cfg.common_env ++ env }

unfoldable pub mount_secret : String → String → String → List (String × String) → Config → Config
mount_secret vol_name secret_name mount_path items cfg = record cfg {
  volumes =
      cfg.volumes ++ record { name = vol_name; secret_name = secret_name; items = items } ∷ [];
  volume_mounts =
      cfg.volume_mounts
      ++ record { name = vol_name; mount_path = mount_path; read_only = true } ∷ [];
}

abbrev pub tls_base_mount_path : String
tls_base_mount_path = "/etc/langfuse/tls"

abbrev pub generated_secret_suffix : String
generated_secret_suffix = "-generated-secrets"

-- generatedSecretName
unfoldable pub generated_secret_name : {C : Type 0} → Instance C → String
generated_secret_name i = i.name <> generated_secret_suffix

-- The mount of a CA under its own path, and the file that it is found at.
unfoldable pub mount_ca : String → String → CaCertSecretRef → Config → Config
unfolding mount_secret non_empty_or
mount_ca vol_name mount_path ref =
    mount_secret vol_name ref.name mount_path ((non_empty_or ref.key "ca.crt", "ca.crt") ∷ [])

-- The reference of a value that is set in full.
abbrev pub full_ref : Option SecretValue → Option SecretKeyRef
full_ref none = none
full_ref (some v) = v.secret_ref

-- A variable from the user's Secret, or from the generated one.
unfoldable pub env_or_generated : String → Option SecretKeyRef → String → String → EnvVar
env_or_generated name none generated key = env_from_secret name generated key
env_or_generated name (some ref) generated key = env_from_secret name ref.name ref.key

-- A variable for a key that the spec maps.
abbrev pub env_if_mapped : String → String → String → List EnvVar
env_if_mapped name secret key = only_if (not (key == "")) (env_from_secret name secret key ∷ [])

-- A variable for a text that is set.
abbrev pub env_if_set : String → String → List EnvVar
env_if_set name v = only_if (not (v == "")) (env_var name v ∷ [])
