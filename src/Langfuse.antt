-- ===== src/Langfuse.antt =====
-- internal/langfuse/client.go: what the client exchanges with a Langfuse instance, and its errors.
pub mod Action
use langfuse_operator.Common.{
  ℕ, String, ◌==◌, ◌<>◌, decimal, trim_space, Bool, true, false, not, ◌&&◌, Option, none, some, leb,
  ltb, eqb, if◌then◌else◌,
}
use langfuse_operator.Client.{ApiError, other}

pub record Organization : Type 0 where
  pub id : String
  pub name : String

pub record OrgMember : Type 0 where
  pub id : String
  pub email : String
  pub role : String

pub record Project : Type 0 where
  pub id : String
  pub name : String

pub record ApiKey : Type 0 where
  pub id : String
  pub public_key : String

pub record ApiKeyPair : Type 0 where
  pub id : String
  pub public_key : String
  pub secret_key : String

-- An error of a controller or of the client: its text, and the status code of the apiError that errors.As
-- finds in its chain.
pub record Failure : Type 0 where
  pub text : String
  pub status : Option ℕ

-- What a call that may fail returns.
pub data Reply {ℓ} (A : Type ℓ) : Type ℓ where
  replied : A → Reply A
  refused : Failure → Reply A

-- fmt.Errorf without and with %w.
abbrev pub failure : String → Failure
failure text = record { text = text; status = none }

unfoldable pub in_context : String → Failure → Failure
in_context what f = record f { text = what <> ": " <> f.text }

-- An error of the Kubernetes API holds no apiError.
abbrev pub of_api : ApiError → Failure
of_api e = record { text = e.text; status = none }

unfoldable pub check_response : ℕ → String → Option Failure
unfolding trim_space
check_response code body =
    if leb 200 code && ltb code 300
    then none
    else some (record {
      text = "API returned status " <> decimal code <> ": " <> trim_space body;
      status = some code;
    })

unfoldable pub is_forbidden : Failure → Bool
is_forbidden f = elim f.status [ none ↦ false | some code ↦ eqb code 403 ]

-- The Authorization header before its encoding: a Bearer token, or Basic with a pair of keys.
pub data Authorization : Type 0 where
  bearer : String → Authorization
  basic : String → String → Authorization

pub record LangfuseClient : Type 0 where
  pub base_url : String
  pub auth : Authorization

-- The URL of an instance ends in no slash, so TrimRight leaves it.
abbrev pub instance_url : String → String → String
instance_url name namespace = "http://" <> name <> "-web." <> namespace <> ".svc:3000"

-- What a controller returns for a failure; the kind of a wrapped error of the Kubernetes API is not kept.
abbrev pub of_failure : Failure → ApiError
of_failure f = record { kind = other; text = f.text }
