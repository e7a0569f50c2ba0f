-- ===== src/Migration/Job.antt =====
-- What the migration controller reads of the Job, is answered, and asks for.
use langfuse_operator.Common.{ℕ, String, Bool, List, Option}
use langfuse_operator.Api.{InstanceStatus}
use langfuse_operator.Client.{ApiError, Got, Event, Outcome}
use langfuse_operator.Config.Env.{Config}
use langfuse_operator.Pods.{Pod}

-- `identity` is the annotation migrationIdentityAnnotation, "" without one; `deleting` says that the deletion
-- timestamp is set; `finished_for` is time.Since of the completion time, in nanoseconds (0 ahead of it).
pub record Job : Type 0 where
  pub identity : String
  pub deleting : Bool
  pub succeeded : ℕ
  pub failed : ℕ
  pub backoff_limit : Option ℕ
  pub finished_for : Option ℕ

-- The answers of the API server in one pass, and of SetControllerReference.
pub record Answers : Type 0 where
  pub job : Got Job
  pub update : Option ApiError
  pub owner : Option ApiError
  pub create : Option ApiError
  pub delete : Option ApiError
  pub pods : Got (List Pod)

pub data Propagation : Type 0 where
  foreground background : Propagation

-- The requests that a pass sends, in their order. A Job is created with an identity and a Config.
pub data Action (C : Type 0) : Type 0 where
  write_status : InstanceStatus C → Action C
  create_job : String → Config → Action C
  delete_job : Propagation → Action C

pub record Pass (C : Type 0) : Type 0 where
  pub actions : List (Action C)
  pub events : List Event
  pub outcome : Outcome
