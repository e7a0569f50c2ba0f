-- ===== src/Projects/Api.antt =====
-- The calls of langfuse.Client that the project controller makes, and those for the Secrets of one namespace, over one
-- state `S` of both servers.
use langfuse_operator.Common.{String, Bool, Option, none, some, List, if◌then◌else◌}
use langfuse_operator.Client.{ApiError, ErrorKind, Got}
use langfuse_operator.Langfuse.{
  Project, ApiKey, ApiKeyPair, Reply, replied, refused, in_context, of_api,
}
use langfuse_operator.Langfuse.Action.{Action}
use langfuse_operator.Secrets.Generated.{Data}

pub record ProjectApi (S : Type 0) : Type 0 where
  pub list_projects : S → Reply (List Project)
  pub get_project : String → S → Reply Project
  pub create_project : String → Action S Project
  pub delete_project : String → Action S (Unit {0})
  pub list_api_keys : String → S → Reply (List ApiKey)
  pub create_api_key : String → String → Action S ApiKeyPair
  pub delete_api_key : String → String → Action S (Unit {0})

pub record SecretApi (S : Type 0) : Type 0 where
  pub get_secret : String → S → Got Data
  pub create_secret : String → Data → S → Option ApiError × S
  pub delete_secret : String → S → Option ApiError × S

-- The answer to a write, where one kind of error is as good as success.
abbrev pub tolerate :
    {S : Type 0} → (ErrorKind → Bool) → String → Option ApiError × S → Reply (Unit {0}) × S
tolerate good what (none, s) = (replied tt, s)
tolerate good what (some e, s) =
    (if good e.kind then replied tt else refused (in_context what (of_api e)), s)
