-- ===== src/Examples/Rollup.antt =====
-- A pass that finds the web up and the worker's Deployment gone, and a spec with a managed Redis.
use langfuse_operator.Common.{false, none, some, List, [], ◌∷◌, ◌≡◌, refl}
use langfuse_operator.Api.{listed, find_in, Condition, Instance, InstanceStatus}
use langfuse_operator.Client.{ApiError, not_found, found, failed}
use langfuse_operator.Phase.{is_met, derive_phase}
use langfuse_operator.StatusWrite.{update_instance_status}
use langfuse_operator.Rollup.Update.{
  Workload, update_status, write_back, observe, observed, rolled_up, with_web,
}
use langfuse_operator.Rollup.Published.{
  published, breaker_of, KeptParts, update_status-phase, update_status-keeps,
}
use langfuse_operator.Examples.Values.{differ, instance_with, unmet}

abbrev pub up : Workload
up = record { replicas = 2; ready_replicas = 2; pods = found [] }

abbrev pub gone : ApiError
gone = record { kind = not_found; text = "no worker" }

abbrev observed_instance : Instance (List Condition)
observed_instance = instance_with (unmet "RedisReady" ∷ []) none

abbrev rolled : InstanceStatus (List Condition)
rolled = rolled_up listed (with_web listed observed_instance up) false

run_update :
    (update_status listed differ observed_instance.status observed_instance
      (found up)
      (failed gone)
      false
      none).0
    ≡ some rolled
unfolding update_status write_back observe observed update_instance_status
run_update = refl

update_status-phase_example :
    (derive_phase listed (published listed observed_instance rolled) ≡ (rolled.phase, rolled.ready))
    × (is_met (find_in rolled.conditions "Ready") ≡ rolled.ready)
update_status-phase_example =
    update_status-phase listed differ observed_instance.status rolled observed_instance (found up)
      (failed gone) false none run_update

update_status-keeps_example :
    (breaker_of listed rolled.worker ≡ breaker_of listed observed_instance.status.worker)
    × KeptParts listed observed_instance.status rolled
    × (find_in rolled.conditions "RedisReady"
        ≡ find_in observed_instance.status.conditions "RedisReady")
    × (rolled.version ≡ "")
    × (rolled.public_url ≡ "")
update_status-keeps_example =
    update_status-keeps listed differ observed_instance.status rolled observed_instance (found up)
      (failed gone) false none "RedisReady" run_update refl
