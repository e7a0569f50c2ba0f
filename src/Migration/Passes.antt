-- ===== src/Migration/Passes.antt =====
-- What a pass of the migration controller sends in each case.
use langfuse_operator.Common.{
  String, ◌<>◌, decimal, Bool, Option, none, some, List, [], ◌∷◌, ◌++◌, only_if,
}
use langfuse_operator.Api.{ConditionApi, condition_false, Instance, InstanceStatus}
use langfuse_operator.Client.{ApiError, wrap, done, requeue_after, fail}
use langfuse_operator.StatusWrite.{
  update_instance_status, status_write_failed, requeue_if, note_status_write_failure,
}
use langfuse_operator.Pods.{summarize_pod_issues}
use langfuse_operator.Phase.{reason_migration_failed}
use langfuse_operator.Identity.Target.{migration_identity}
use langfuse_operator.Config.Env.{Config}
use langfuse_operator.Migration.Job.{Job, Answers, Action, write_status, create_job, Pass}
use langfuse_operator.Migration.Parts.{
  record_identity, migration_job_name, only_actions, migration_pod_issues,
}
use langfuse_operator.Migration.Statuses.{
  set_migrations, started_status, started_event, migrated_status, watched_status, progress_status,
}

module _ (api : ConditionApi) where
  open api use {Conditions}

  module _ (equal : InstanceStatus Conditions → InstanceStatus Conditions → Bool) where
    -- The write of a status, if it is one, and the error of updateInstanceStatus.
    unfoldable pub publish :
        Instance Conditions
        → InstanceStatus Conditions
        → Answers
        → List (Action Conditions) × Option ApiError
    publish i status ans =
        let sent = update_instance_status equal i.status status ans.update in
        (only_if sent.0 (write_status status ∷ []), sent.1)

    unfoldable pub record_baseline : Instance Conditions → String → Answers → Pass Conditions
    unfolding only_actions
    record_baseline i baseline ans =
        let sent = publish i (record_identity baseline i.status) ans in
        only_actions sent.0 (elim sent.1 [
          | none ↦ done
          | some e ↦ status_write_failed e "recording migration baseline"
        ])

    -- The two refusals: a condition with the reason MigrationFailed.
    unfoldable pub refuse : Instance Conditions → String → Answers → Pass Conditions
    unfolding only_actions
    refuse i message ans =
        let sent =
          publish i (set_migrations api i condition_false reason_migration_failed message i.status)
            ans in
        only_actions sent.0 (requeue_if (note_status_write_failure sent.1))

    -- `owner` is the answer of SetControllerReference. The status goes out ahead of the Create.
    unfoldable pub start_job :
        Instance Conditions → Config → Option ApiError → Answers → Pass Conditions
    unfolding only_actions
    start_job i config (some e) ans =
        only_actions [] (fail (wrap "setting owner reference on migration job" e))
    start_job i config none ans = record {
      actions =
          (publish i (started_status api i) ans).0 ++ create_job (migration_identity i) config ∷ [];
      events = elim ans.create [ some e ↦ [] | none ↦ started_event api i ∷ [] ];
      outcome = elim ans.create [
        | some e ↦ fail (wrap "creating migration job" e)
        | none ↦ requeue_after 10
      ];
    }

    unfoldable pub finish_job : Instance Conditions → Answers → Pass Conditions
    finish_job i ans =
        let sent = publish i (migrated_status api i) ans in
        record {
          actions = sent.0;
          events =
              record {
                type = "Normal";
                reason = "MigrationCompleted";
                message = "Migration job " <> (migration_job_name i <> " completed successfully");
              }
              ∷ [];
          outcome = requeue_if (note_status_write_failure sent.1);
        }

    unfoldable pub give_up : Instance Conditions → Job → Answers → Pass Conditions
    give_up i job ans =
        let issues = migration_pod_issues ans in
        let summary = "Migration job failed after " <> (decimal job.failed <> " attempts") in
        let (reason, message) = summarize_pod_issues issues reason_migration_failed summary in
        let sent =
          publish i
            (set_migrations api i condition_false reason_migration_failed message
              (watched_status api i job issues))
            ans in
        record {
          actions = sent.0;
          events =
              record {
                type = "Warning";
                reason = "MigrationFailed";
                message =
                    "Migration job "
                    <> (migration_job_name i
                        <> (" failed after "
                            <> (decimal job.failed <> (" attempts: " <> message))));
              }
              ∷ [];
          outcome = requeue_if (note_status_write_failure sent.1);
        }

    unfoldable pub keep_waiting : Instance Conditions → Job → Answers → Pass Conditions
    unfolding only_actions
    keep_waiting i job ans =
        only_actions ((publish i (progress_status api i job (migration_pod_issues ans)) ans).0)
          (requeue_after 10)
