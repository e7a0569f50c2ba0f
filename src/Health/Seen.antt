-- ===== src/Health/Seen.antt =====
-- What a pass of the health monitor tells the other controllers.
use langfuse_operator.Common.{
  ℕ, String, ◌==◌, Bool, true, false, not, ◌&&◌, Option, none, some, List, [], ◌∷◌, ◌≡◌, ◌∙◌, refl,
  arith, any,
}
use langfuse_operator.Api.{
  ConditionApi, Condition, PodIssue, WorkerComponentStatus, new_worker_status, Instance,
  InstanceStatus,
}
use langfuse_operator.Client.{ApiError, found}
use langfuse_operator.Phase.{dependency_health, health_loop, dependency_conditions}
use langfuse_operator.Rollup.Published.{published, breaker_of}
use langfuse_operator.Health.Reconcile.{
  check_component_deployment, Readings, ProbeResult, condition_from_probe, blob_result, or_zero,
  apply_condition, check_all, health_status, reconcile,
}

abbrev pub monitored : List String
monitored =
    "DatabaseReady" ∷ "ClickHouseReady" ∷ "RedisReady" ∷ "BlobStorageReady" ∷ "WebReady"
    ∷ "WorkerReady" ∷ []

module _ (api : ConditionApi) where
  open api use {Conditions, find, set}

  abbrev pub all_connected : Instance Conditions → Readings → Bool
  all_connected i r =
      r.database.connected
      && (r.click_house.connected
          && (r.redis.connected && (blob_result i.spec.blob_storage r.blob_storage).connected))

  find-set_other :
      (cs : Conditions) (c : Condition) (t : String)
      → (c.type == t) ≡ false
      → find (set cs c) t ≡ find cs t
  find-set_other cs c t h = api.find-set cs c t ∙ ground (arith, h)

  check_all-other :
      (i : Instance Conditions) (r : Readings) (t : String)
      → any (λ u. u == t) monitored ≡ false
      → find (check_all api i r).0 t ≡ find i.status.conditions t
  unfolding check_all apply_condition condition_from_probe
  check_all-other i r t h =
      find-set_other _ _ t (ground (arith, h))
      ∙ find-set_other _ _ t (ground (arith, h))
      ∙ find-set_other _ _ t (ground (arith, h))
      ∙ find-set_other _ _ t (ground (arith, h))
      ∙ find-set_other _ _ t (ground (arith, h))
      ∙ find-set_other i.status.conditions _ t (ground (arith, h))

  database-seen :
      (i : Instance Conditions) (r : Readings)
      → find (check_all api i r).0 "DatabaseReady"
        ≡ some (condition_from_probe "DatabaseReady" r.database i.generation)
  unfolding check_all apply_condition condition_from_probe
  database-seen i r =
      api.find-set _ _ "DatabaseReady"
      ∙ api.find-set _ _ "DatabaseReady"
      ∙ api.find-set _ _ "DatabaseReady"
      ∙ api.find-set _ _ "DatabaseReady"
      ∙ api.find-set _ _ "DatabaseReady"
      ∙ api.find-set _ _ "DatabaseReady"

  click_house-seen :
      (i : Instance Conditions) (r : Readings)
      → find (check_all api i r).0 "ClickHouseReady"
        ≡ some (condition_from_probe "ClickHouseReady" r.click_house i.generation)
  unfolding check_all apply_condition condition_from_probe
  click_house-seen i r =
      api.find-set _ _ "ClickHouseReady"
      ∙ api.find-set _ _ "ClickHouseReady"
      ∙ api.find-set _ _ "ClickHouseReady"
      ∙ api.find-set _ _ "ClickHouseReady"
      ∙ api.find-set _ _ "ClickHouseReady"

  redis-seen :
      (i : Instance Conditions) (r : Readings)
      → find (check_all api i r).0 "RedisReady"
        ≡ some (condition_from_probe "RedisReady" r.redis i.generation)
  unfolding check_all apply_condition condition_from_probe
  redis-seen i r =
      api.find-set _ _ "RedisReady"
      ∙ api.find-set _ _ "RedisReady"
      ∙ api.find-set _ _ "RedisReady"
      ∙ api.find-set _ _ "RedisReady"

  blob-seen :
      (i : Instance Conditions) (r : Readings)
      → find (check_all api i r).0 "BlobStorageReady"
        ≡ some (
            condition_from_probe "BlobStorageReady"
              (blob_result i.spec.blob_storage r.blob_storage)
              i.generation)
  unfolding check_all apply_condition condition_from_probe
  blob-seen i r =
      api.find-set _ _ "BlobStorageReady"
      ∙ api.find-set _ _ "BlobStorageReady"
      ∙ api.find-set _ _ "BlobStorageReady"

  loop-seen :
      (cs : Conditions) (n : ℕ) (a b c d : ProbeResult)
      → find cs "DatabaseReady" ≡ some (condition_from_probe "DatabaseReady" a n)
      → find cs "ClickHouseReady" ≡ some (condition_from_probe "ClickHouseReady" b n)
      → find cs "RedisReady" ≡ some (condition_from_probe "RedisReady" c n)
      → find cs "BlobStorageReady" ≡ some (condition_from_probe "BlobStorageReady" d n)
      → let all = a.connected && (b.connected && (c.connected && d.connected)) in
        health_loop api cs dependency_conditions true ≡ (not all, all)
  unfolding health_loop condition_from_probe
  loop-seen cs n a b c d p q r s = rw (p, q, r, s) (ground arith)

  status-seen :
      (i : Instance Conditions) (r : Readings)
      → dependency_health api (published api i (health_status api i r))
        ≡ (not (all_connected i r), all_connected i r)
  unfolding dependency_health health_status
  status-seen i r =
      loop-seen (check_all api i r).0 i.generation r.database r.click_house r.redis
        (blob_result i.spec.blob_storage r.blob_storage) (database-seen i r) (click_house-seen i r)
        (redis-seen i r) (blob-seen i r)

  worker-kept :
      (o : Option WorkerComponentStatus) (issues : List PodIssue)
      → breaker_of api (some (record (or_zero new_worker_status o) { issues = issues }))
        ≡ breaker_of api o
  worker-kept none issues = refl
  worker-kept (some w) issues = refl

  module _ (equal : InstanceStatus Conditions → InstanceStatus Conditions → Bool) where
    written-health :
        (i : Instance Conditions) (r : Readings) (answer : Option ApiError)
        (s : InstanceStatus Conditions)
        → (reconcile api equal (found i) r answer).written ≡ some s
        → s ≡ health_status api i r
    unfolding reconcile
    written-health i r answer s h = ground arith

    -- From the status that a pass of the health monitor publishes, the phase sees all four datastores healthy
    -- exactly when every probe connected (with blob storage that is not configured counted as connected), and
    -- otherwise sees one that does not hold: no datastore is left unreported.
    pub reconcile-health :
        (i : Instance Conditions) (r : Readings) (answer : Option ApiError)
        (s : InstanceStatus Conditions)
        → (reconcile api equal (found i) r answer).written ≡ some s
        → dependency_health api (published api i s) ≡ (not (all_connected i r), all_connected i r)
    reconcile-health i r answer s h = rw (written-health i r answer s h) (status-seen i r)

    -- A pass of the health monitor writes no phase, no readiness, nothing of the migration and nothing of the
    -- circuit breaker, and keeps every condition but its own six.
    pub reconcile-health_keeps :
        (i : Instance Conditions) (r : Readings) (answer : Option ApiError)
        (s : InstanceStatus Conditions) (t : String)
        → (reconcile api equal (found i) r answer).written ≡ some s
        → any (λ u. u == t) monitored ≡ false
        → (s.phase ≡ i.status.phase)
          × (s.ready ≡ i.status.ready)
          × (s.migration ≡ i.status.migration)
          × (breaker_of api s.worker ≡ breaker_of api i.status.worker)
          × (find s.conditions t ≡ find i.status.conditions t)
    unfolding health_status
    reconcile-health_keeps i r answer s t h other = rw (written-health i r answer s h) (
      refl,
      refl,
      refl,
      worker-kept i.status.worker (check_component_deployment "worker" r.worker).issues,
      check_all-other i r t other,
    )
