-- ===== src/Migration/Statuses.antt =====
-- The statuses that the migration controller computes, and its MigrationsComplete condition.
use langfuse_operator.Common.{String, ◌<>◌, some, List, [], ◌∷◌}
use langfuse_operator.Api.{
  ConditionApi, Condition, ConditionStatus, condition_true, condition_false, Instance,
  InstanceStatus, PodIssue,
}
use langfuse_operator.Client.{Event}
use langfuse_operator.Pods.{summarize_pod_issues}
use langfuse_operator.Phase.{migrations_complete}
use langfuse_operator.Identity.Target.{migration_identity, normalize_version}
use langfuse_operator.Migration.Job.{Job}
use langfuse_operator.Migration.Parts.{
  or_new_migration, or_new_database, record_identity, migration_job_name,
}

module _ (api : ConditionApi) where
  open api use {Conditions, set}

  migrations_condition : Instance Conditions → ConditionStatus → String → String → Condition
  migrations_condition i status reason message = record {
    type = migrations_complete;
    status = status;
    reason = reason;
    message = message;
    observed_generation = i.generation;
  }

  -- The status with another MigrationsComplete condition.
  unfoldable pub set_migrations :
      Instance Conditions
      → ConditionStatus
      → String
      → String
      → InstanceStatus Conditions
      → InstanceStatus Conditions
  unfolding migrations_condition
  set_migrations i s reason message status = record status {
    conditions = set status.conditions (migrations_condition i s reason message);
  }

  unfoldable pub started_status : Instance Conditions → InstanceStatus Conditions
  started_status i =
      set_migrations i condition_false "MigrationStarted"
        ("Running migrations for version " <> i.spec.image_tag) i.status

  abbrev pub started_event : Instance Conditions → Event
  started_event i = record {
    type = "Normal";
    reason = "MigrationStarted";
    message =
        "Started migration job " <> (migration_job_name i <> (" for version " <> i.spec.image_tag));
  }

  unfoldable pub migrated_status : Instance Conditions → InstanceStatus Conditions
  migrated_status i =
      let message = "Migrations completed for version " <> i.spec.image_tag in
      let status = set_migrations i condition_true "MigrationSucceeded" message i.status in
      record_identity (migration_identity i) (record status {
        database = some (record (or_new_database status.database) {
          migration_version = normalize_version i.spec.image_tag;
        });
      })

  -- The status that a Job which has not succeeded leaves, the condition aside.
  unfoldable pub watched_status :
      Instance Conditions → Job → List PodIssue → InstanceStatus Conditions
  watched_status i job issues = record (i.status) {
    migration = some (record (or_new_migration i.status.migration) {
      job_name = migration_job_name i;
      failed = job.failed;
      issues = issues;
    });
  }

  unfoldable pub progress_status :
      Instance Conditions → Job → List PodIssue → InstanceStatus Conditions
  progress_status i job [] = watched_status i job []
  progress_status i job (p ∷ ps) =
      set_migrations i condition_false "MigrationInProgress"
        ((summarize_pod_issues (p ∷ ps) "MigrationInProgress" "Migration job in progress").1)
        (watched_status i job (p ∷ ps))
