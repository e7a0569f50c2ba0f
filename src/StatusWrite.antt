-- ===== src/StatusWrite.antt =====
-- internal/controller/status.go: how a reconciler publishes a status, and what a lost write means.
use langfuse_operator.Client.{ApiError, is_conflict, wrap, Outcome, done, requeue_after, fail}
use langfuse_operator.Common.{ℕ, String, Bool, true, false, Option, none, some, if◌then◌else◌}

-- statusConflictRetryDelay, in seconds.
abbrev pub status_conflict_retry_delay : ℕ
status_conflict_retry_delay = 1

-- The status subresource as the API server has it, and how many writes it has seen.
-- `equal` is equality.Semantic.DeepEqual. `answer` is the server's answer to the write, if one is
-- issued: the first part of the result says whether it was.
unfoldable pub update_instance_status {ℓ} :
    {S : Type ℓ} → (S → S → Bool) → S → S → Option ApiError → Bool × Option ApiError
update_instance_status equal original status none =
    if equal original status then (false, none) else (true, none)
update_instance_status equal original status (some e) =
    if equal original status then (false, none) else (true, some (wrap "updating status" e))

unfoldable pub status_write_failed : ApiError → String → Outcome
status_write_failed e what =
    if is_conflict e.kind then requeue_after status_conflict_retry_delay else fail (wrap what e)

unfoldable pub requeue_if : Bool → Outcome
requeue_if retry = if retry then requeue_after status_conflict_retry_delay else done

unfoldable pub note_status_write_failure : Option ApiError → Bool
note_status_write_failure none = false
note_status_write_failure (some e) = is_conflict e.kind
