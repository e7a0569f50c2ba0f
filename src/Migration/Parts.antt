-- ===== src/Migration/Parts.antt =====
-- The parts of the migration controller's passes that send no status, and what they read.
use langfuse_operator.Common.{
  ℕ, ltb, String, ◌<>◌, join, Bool, true, false, ◌&&◌, bool_or, Option, none, some, List, [], ◌∷◌,
  if◌then◌else◌,
}
use langfuse_operator.Api.{
  Instance, InstanceStatus, DatabaseSpec, MigrationStatus, new_migration_status,
  new_database_status, PodIssue, DatabaseStatus,
}
use langfuse_operator.Client.{
  ApiError, is_not_found, wrap, Got, found, failed, Outcome, done, requeue_after, fail,
}
use langfuse_operator.Pods.{collect_pod_issues}
use langfuse_operator.Migration.Job.{Job, Answers, foreground, background, Action, delete_job, Pass}

abbrev pub or_new_migration : Option MigrationStatus → MigrationStatus
or_new_migration none = new_migration_status
or_new_migration (some m) = m

abbrev pub or_new_database : Option DatabaseStatus → DatabaseStatus
or_new_database none = new_database_status
or_new_database (some d) = d

-- instance.Status.Migration.AppliedIdentity = …
unfoldable pub record_identity : {C : Type 0} → String → InstanceStatus C → InstanceStatus C
record_identity identity status = record status {
  migration = some (record (or_new_migration status.migration) { applied_identity = identity });
}

abbrev runs_in : Option (Option Bool) → Bool
runs_in none = true
runs_in (some o) = bool_or o true

-- spec.database.migration.runOnDeploy, on where it is not set
unfoldable pub run_on_deploy : Option DatabaseSpec → Bool
run_on_deploy none = true
run_on_deploy (some db) = runs_in db.run_on_deploy

abbrev pub any_of : List String → Bool
any_of [] = false
any_of (_ ∷ _) = true

-- An hour, in nanoseconds.
abbrev pub hour : ℕ
hour = 3600000000000

abbrev older_than_hour : Option ℕ → Bool
older_than_hour none = false
older_than_hour (some age) = ltb hour age

unfoldable pub migration_job_name : {C : Type 0} → Instance C → String
migration_job_name i = i.name <> "-migrate"

unfoldable pub only_actions : {C : Type 0} → List (Action C) → Outcome → Pass C
only_actions sent o = record { actions = sent; events = []; outcome = o }

-- The answer to a Delete that may find nothing to delete.
unfoldable pub deleted : Option ApiError → String → Outcome → Outcome
deleted none what o = o
deleted (some e) what o = if is_not_found e.kind then o else fail (wrap what e)

-- `got` is the answer to the Get of the Job.
unfoldable pub cleanup_completed_jobs : {C : Type 0} → Got Job → Answers → Pass C
unfolding only_actions deleted
cleanup_completed_jobs (failed e) ans =
    only_actions [] (if is_not_found e.kind then done else fail (wrap "checking migration job" e))
cleanup_completed_jobs (found job) ans =
    if ltb 0 job.succeeded && older_than_hour job.finished_for
    then only_actions (delete_job background ∷ [])
        (deleted ans.delete "cleaning up migration job" done)
    else only_actions [] done

unfoldable pub migration_pod_issues : Answers → List PodIssue
migration_pod_issues ans = elim ans.pods [ failed e ↦ [] | found pods ↦ collect_pod_issues pods ]

-- A Job of another target.
unfoldable pub replace_job : {C : Type 0} → Job → Answers → Pass C
unfolding only_actions deleted
replace_job job ans =
    if job.deleting
    then only_actions [] (requeue_after 5)
    else only_actions (delete_job foreground ∷ [])
        (deleted ans.delete "deleting stale migration job" (requeue_after 5))

unfoldable pub retarget_message : List String → String
unfolding join
retarget_message fields =
    join fields " and "
    <> " changed after migrations already ran. The ClickHouse target is fixed once its schema exists: another database would leave the existing data behind, and a table's engine cannot be changed after CREATE. Revert the change, or create a separate LangfuseInstance for the new target and cut over once it has migrated"

unfoldable pub missing_message : List String → String
unfolding join
missing_message keys =
    "spec.clickhouse.external.secretRef.keys is missing "
    <> (join keys ", " <> ", which the ClickHouse migration step requires")
