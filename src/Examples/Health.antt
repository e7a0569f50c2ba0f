-- ===== src/Examples/Health.antt =====
-- A pass that finds Redis down.
use langfuse_operator.Common.{true, false, not, none, some, List, ◌≡◌, refl}
use langfuse_operator.Api.{listed, find_in, Condition, InstanceStatus}
use langfuse_operator.Client.{found}
use langfuse_operator.Phase.{dependency_health, migration_running, running_condition}
use langfuse_operator.Rollup.Published.{published}
use langfuse_operator.StatusWrite.{update_instance_status}
use langfuse_operator.Health.Reconcile.{ProbeResult, Readings, health_status, reconcile}
use langfuse_operator.Health.Seen.{all_connected, reconcile-health}
use langfuse_operator.Examples.Values.{differ, fresh}
use langfuse_operator.Examples.Rollup.{up}

abbrev connected : ProbeResult
connected = record { connected = true; reason = "Connected"; message = "" }

abbrev refused : ProbeResult
refused = record { connected = false; reason = "ConnectionFailed"; message = "refused" }

abbrev redis_down : Readings
redis_down = record {
  database = connected;
  click_house = connected;
  redis = refused;
  blob_storage = refused;
  web = found up;
  worker = found up;
}

abbrev monitored_status : InstanceStatus (List Condition)
monitored_status = health_status listed fresh redis_down

run_monitor :
    (reconcile listed differ (found fresh) redis_down none).written ≡ some monitored_status
unfolding reconcile update_instance_status migration_running running_condition find_in
run_monitor = refl

reconcile-health_example :
    dependency_health listed (published listed fresh monitored_status)
    ≡ (not (all_connected listed fresh redis_down), all_connected listed fresh redis_down)
reconcile-health_example =
    reconcile-health listed differ fresh redis_down none monitored_status run_monitor
