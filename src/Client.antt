-- ===== src/Client.antt =====
-- What a reconciler exchanges with sigs.k8s.io/controller-runtime: answers of the API server, events, and
-- the result of a pass.
use langfuse_operator.Common.{ℕ, String, ◌<>◌, Bool, true, false}

-- What apierrors.IsNotFound, IsConflict and IsAlreadyExists tell apart. Wrapping keeps the kind.
pub data ErrorKind : Type 0 where
  not_found conflict already_exists other : ErrorKind

pub record ApiError : Type 0 where
  pub kind : ErrorKind
  pub text : String

-- fmt.Errorf("what: %w", err)
unfoldable pub wrap : String → ApiError → ApiError
wrap what e = record e { text = what <> ": " <> e.text }

abbrev pub is_not_found : ErrorKind → Bool
is_not_found not_found = true
is_not_found conflict = false
is_not_found already_exists = false
is_not_found other = false

abbrev pub is_conflict : ErrorKind → Bool
is_conflict not_found = false
is_conflict conflict = true
is_conflict already_exists = false
is_conflict other = false

abbrev pub is_already_exists : ErrorKind → Bool
is_already_exists not_found = false
is_already_exists conflict = false
is_already_exists already_exists = true
is_already_exists other = false

-- The answer of a call that reads an object.
pub data Got {ℓ} (A : Type ℓ) : Type ℓ where
  found : A → Got A
  failed : ApiError → Got A

-- What Reconcile returns: a result, with the seconds after which to run again, or an error.
pub data Outcome : Type 0 where
  done : Outcome
  requeue_after : ℕ → Outcome
  fail : ApiError → Outcome

-- r.Recorder.Eventf
pub record Event : Type 0 where
  pub type : String
  pub reason : String
  pub message : String
