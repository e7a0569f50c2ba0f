-- ===== src/Instances/Reconcile.antt =====
-- Reconcile of the instance controller.
use langfuse_operator.Common.{
  String, ◌<>◌, ◌==◌, join, Bool, true, false, Option, none, some, List, [], Result, ok, err,
  if◌then◌else◌,
}
use langfuse_operator.Api.{ConditionApi, condition_false, Instance, InstanceStatus}
use langfuse_operator.Client.{
  ApiError, other, is_not_found, wrap, Got, found, failed, Outcome, done, fail,
}
use langfuse_operator.StatusWrite.{requeue_if, note_status_write_failure, update_instance_status}
use langfuse_operator.Phase.{phase_pending, datastore_target}
use langfuse_operator.Identity.Target.{migration_identity}
use langfuse_operator.Identity.Recorded.{retargeted_components}
use langfuse_operator.Identity.Applied.{applied_migration_identity}
use langfuse_operator.Migration.Parts.{any_of}
use langfuse_operator.Config.Env.{Config}
use langfuse_operator.Config.Build.{build_config}
use langfuse_operator.Rollup.Update.{Workload, update_status, set_deprecation_condition}
use langfuse_operator.Instances.Apply.{Request, Server, Steps, reconcile_workload}

-- What the API server answers behind the workload: the two Deployments and the status write.
pub record Reads : Type 0 where
  pub web : Got Workload
  pub worker : Got Workload
  pub write : Option ApiError

-- A pass: the requests for the workload, the status that is written, if any, and the result.
pub record Pass (C : Type 0) : Type 0 where
  pub requests : List Request
  pub written : Option (InstanceStatus C)
  pub outcome : Outcome

-- The components that moved since the last migration.
unfoldable pub moved_components : {C : Type 0} → Instance C → List String
moved_components i = retargeted_components (applied_migration_identity i) (migration_identity i)

unfoldable pub frozen_message : List String → String
unfolding join
frozen_message changed =
    "Not reconciling workloads: "
    <> (join changed " and "
        <> " changed after migrations ran. Revert the change, or create a separate LangfuseInstance for the new target")

module _ (api : ConditionApi) where
  open api use {Conditions, set, remove}

  unfoldable pub with_conditions : Instance Conditions → Conditions → Instance Conditions
  with_conditions i cs = record i { status = record (i.status) { conditions = cs } }

  -- Step 2: a new instance is Pending.
  unfoldable pub with_phase : Instance Conditions → Instance Conditions
  with_phase i = record i {
    status = record (i.status) {
      phase = if i.status.phase == "" then phase_pending else i.status.phase;
    };
  }

  unfoldable pub hold : Instance Conditions → List String → Instance Conditions
  unfolding with_conditions frozen_message
  hold i changed = with_conditions i (
      set i.status.conditions (record {
        type = datastore_target;
        status = condition_false;
        reason = "TargetChangedAfterMigration";
        message = frozen_message changed;
        observed_generation = i.generation;
      }))

  unfoldable pub release : Instance Conditions → Instance Conditions
  unfolding with_conditions
  release i = with_conditions i (remove i.status.conditions datastore_target)

  unfoldable pub refuse_config : Instance Conditions → String → Instance Conditions
  unfolding with_conditions
  refuse_config i e = with_conditions i (
      set i.status.conditions (record {
        type = "Ready";
        status = condition_false;
        reason = "ConfigError";
        message = e;
        observed_generation = i.generation;
      }))

  unfoldable pub flagged : Instance Conditions → Instance Conditions
  unfolding with_conditions
  flagged i = with_conditions i (set_deprecation_condition api i)

  module _ (equal : InstanceStatus Conditions → InstanceStatus Conditions → Bool) where
    -- Step 2b, on a spec that moved. A failed write is retried, or only logged.
    unfoldable pub freeze :
        Instance Conditions → Instance Conditions → List String → Reads → Pass Conditions
    unfolding update_status requeue_if note_status_write_failure hold
    freeze original i changed r =
        let (status, e) =
          update_status api equal original.status (hold i changed) r.web r.worker false r.write in
        record {
          requests = [];
          written = status;
          outcome = requeue_if (note_status_write_failure e);
        }

    -- Step 14.
    unfoldable pub finish :
        Instance Conditions → Instance Conditions → Reads → Steps → Pass Conditions
    unfolding update_status
    finish original i r (sent, some e) = record {
      requests = sent;
      written = none;
      outcome = fail e;
    }
    finish original i r (sent, none) =
        let (status, e) = update_status api equal original.status i r.web r.worker true r.write in
        record {
          requests = sent;
          written = status;
          outcome = elim e [ none ↦ done | some e ↦ fail (wrap "updating status" e) ];
        }

    -- Steps 3 to 14, on what BuildConfig returns.
    unfoldable pub deploy :
        Instance Conditions → Instance Conditions → Server → Reads → Result Config → Pass Conditions
    unfolding refuse_config update_instance_status flagged reconcile_workload finish
    deploy original i s r (err e) =
        let status = (refuse_config i e).status in
        record {
          requests = [];
          written =
              if (update_instance_status equal original.status status r.write).0
              then some status
              else none;
          outcome = fail (wrap "building config" (record { kind = other; text = e }));
        }
    deploy original i s r (ok config) =
        finish original (flagged i) r (reconcile_workload (flagged i) s config)

    unfoldable pub reconcile_alive :
        Instance Conditions → Instance Conditions → Server → Reads → Pass Conditions
    unfolding moved_components freeze deploy release build_config
    reconcile_alive original i s r =
        if any_of (moved_components i)
        then freeze original i (moved_components i) r
        else deploy original (release i) s r (build_config (release i))

    -- `got` is the answer to the Get of the instance.
    unfoldable pub reconcile : Got (Instance Conditions) → Server → Reads → Pass Conditions
    unfolding with_phase reconcile_alive
    reconcile (failed e) s r = record {
      requests = [];
      written = none;
      outcome = if is_not_found e.kind then done else fail (wrap "fetching LangfuseInstance" e);
    }
    reconcile (found i) s r =
        if i.deleting
        then record { requests = []; written = none; outcome = done }
        else reconcile_alive i (with_phase i) s r
