-- ===== src/Api/Core.antt =====
-- The parts of a pod that the spec and the builders share: k8s.io/api/core/v1, as far as it is used. A
-- variable has a value or the key of a Secret.
use langfuse_operator.Common.{String, Bool, List}

pub data EnvSource : Type 0 where
  value : String → EnvSource
  secret_key : String → String → EnvSource

pub record EnvVar : Type 0 where
  pub name : String
  pub source : EnvSource

-- The items of a Secret volume: keys and the files that they are projected to.
pub record Volume : Type 0 where
  pub name : String
  pub secret_name : String
  pub items : List (String × String)

pub record VolumeMount : Type 0 where
  pub name : String
  pub mount_path : String
  pub read_only : Bool
