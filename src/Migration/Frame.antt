-- ===== src/Migration/Frame.antt =====
-- What the migration controller leaves to the other controllers.
use langfuse_operator.Common.{
  String, ◌==◌, ◌<>◌, Bool, false, Option, none, some, List, [], ◌∷◌, ◌≡◌, refl, ◌∙◌,
}
use langfuse_operator.Api.{
  DatabaseStatus, ConditionApi, Condition, ConditionStatus, condition_true, Instance,
  InstanceStatus, PodIssue,
}
use langfuse_operator.Client.{found}
use langfuse_operator.Phase.{migrations_complete}
use langfuse_operator.Migration.Job.{Job, Answers}
use langfuse_operator.Migration.Parts.{record_identity, or_new_database}
use langfuse_operator.Migration.Statuses.{
  set_migrations, started_status, migrated_status, watched_status, progress_status,
}
use langfuse_operator.Migration.Reconcile.{reconcile}
use langfuse_operator.Migration.Writes.{
  written, Writes, baseline, refused, started, finished, gave_up, progressed,
}
use langfuse_operator.Migration.Record.{reconcile-writes}

-- What the health monitor writes into the status of the database.
abbrev pub connected_of : Option DatabaseStatus → Option Bool
connected_of none = none
connected_of (some d) = d.connected

new-connected : (o : Option DatabaseStatus) → (or_new_database o).connected ≡ connected_of o
new-connected none = refl
new-connected (some d) = refl

module _ (api : ConditionApi) where
  open api use {Conditions, find}

  -- The parts of a status that belong to other controllers.
  pub record KeepsOthers (old new : InstanceStatus Conditions) : Type 0 where
    pub web : new.web ≡ old.web
    pub worker : new.worker ≡ old.worker
    pub click_house : new.click_house ≡ old.click_house
    pub redis : new.redis ≡ old.redis
    pub blob_storage : new.blob_storage ≡ old.blob_storage
    pub connected : connected_of new.database ≡ connected_of old.database
    pub ready : new.ready ≡ old.ready
    pub public_url : new.public_url ≡ old.public_url
    pub phase : new.phase ≡ old.phase
    pub version : new.version ≡ old.version
    pub conditions :
        (t : String)
        → (migrations_complete == t) ≡ false
        → find new.conditions t ≡ find old.conditions t

  set-other :
      (cs : Conditions) (c : Condition) (t : String)
      → (c.type == t) ≡ false
      → find (api.set cs c) t ≡ find cs t
  set-other cs c t h = api.find-set cs c t ∙ rw h refl

  -- A status with another migration and database part, whose conditions were set.
  set_migrations-keeps :
      (i : Instance Conditions) (c : ConditionStatus) (reason message : String)
      (mid : InstanceStatus Conditions)
      → KeepsOthers i.status mid
      → KeepsOthers i.status (set_migrations api i c reason message mid)
  unfolding set_migrations
  set_migrations-keeps i c reason message mid k = record {
    web = k.web;
    worker = k.worker;
    click_house = k.click_house;
    redis = k.redis;
    blob_storage = k.blob_storage;
    connected = k.connected;
    ready = k.ready;
    public_url = k.public_url;
    phase = k.phase;
    version = k.version;
    conditions = λ t h. set-other mid.conditions _ t h ∙ k.conditions t h;
  }

  same-keeps : (s : InstanceStatus Conditions) → KeepsOthers s s
  same-keeps s = record {
    web = refl;
    worker = refl;
    click_house = refl;
    redis = refl;
    blob_storage = refl;
    connected = refl;
    ready = refl;
    public_url = refl;
    phase = refl;
    version = refl;
    conditions = λ t h. refl;
  }

  watched-keeps :
      (i : Instance Conditions) (job : Job) (issues : List PodIssue)
      → KeepsOthers i.status (watched_status api i job issues)
  unfolding watched_status
  watched-keeps i job issues = record {
    web = refl;
    worker = refl;
    click_house = refl;
    redis = refl;
    blob_storage = refl;
    connected = refl;
    ready = refl;
    public_url = refl;
    phase = refl;
    version = refl;
    conditions = λ t h. refl;
  }

  progress-keeps :
      (i : Instance Conditions) (job : Job) (issues : List PodIssue)
      → KeepsOthers i.status (progress_status api i job issues)
  unfolding progress_status
  progress-keeps i job [] = watched-keeps i job []
  progress-keeps i job (p ∷ ps) = set_migrations-keeps i _ _ _ _ (watched-keeps i job (p ∷ ps))

  migrated-keeps : (i : Instance Conditions) → KeepsOthers i.status (migrated_status api i)
  unfolding migrated_status record_identity set_migrations
  migrated-keeps i =
      let k =
        set_migrations-keeps i condition_true "MigrationSucceeded"
          ("Migrations completed for version " <> i.spec.image_tag) i.status
          (same-keeps i.status) in
      record {
        web = k.web;
        worker = k.worker;
        click_house = k.click_house;
        redis = k.redis;
        blob_storage = k.blob_storage;
        connected = new-connected i.status.database;
        ready = k.ready;
        public_url = k.public_url;
        phase = k.phase;
        version = k.version;
        conditions = k.conditions;
      }

  baseline-keeps :
      (i : Instance Conditions) (b : String) → KeepsOthers i.status (record_identity b i.status)
  unfolding record_identity
  baseline-keeps i b = record {
    web = refl;
    worker = refl;
    click_house = refl;
    redis = refl;
    blob_storage = refl;
    connected = refl;
    ready = refl;
    public_url = refl;
    phase = refl;
    version = refl;
    conditions = λ t h. refl;
  }

  writes-keeps :
      (i : Instance Conditions) (ans : Answers) {s : InstanceStatus Conditions}
      → Writes api i ans s
      → KeepsOthers i.status s
  unfolding started_status
  writes-keeps i ans (baseline b e p) = rw p (baseline-keeps i b)
  writes-keeps i ans (refused m p) = rw p (set_migrations-keeps i _ _ m _ (same-keeps i.status))
  writes-keeps i ans (started p) = rw p (set_migrations-keeps i _ _ _ _ (same-keeps i.status))
  writes-keeps i ans (finished job e same lt p) = rw p (migrated-keeps i)
  writes-keeps i ans (gave_up job m e same p) =
      rw p (set_migrations-keeps i _ _ m _ (watched-keeps i job _))
  writes-keeps i ans (progressed job e same p) = rw p (progress-keeps i job _)

  module _ (equal : InstanceStatus Conditions → InstanceStatus Conditions → Bool) where
    -- Whatever the pass, the status that it writes keeps of the one that it read the parts of the web, the
    -- worker, ClickHouse, Redis and the blob store, whether the database is connected, the phase, the ready
    -- flag, the version, the URL and every condition other than MigrationsComplete.
    pub reconcile-keeps :
        (i : Instance Conditions) (ans : Answers) {s : InstanceStatus Conditions}
        → written ((reconcile api equal (found i) ans).actions) ≡ some s
        → KeepsOthers i.status s
    reconcile-keeps i ans h = writes-keeps i ans (reconcile-writes api equal i ans h)
