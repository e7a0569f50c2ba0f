-- ===== src/Examples/Projects.antt =====
-- A project with two keys, one of whose Secrets holds a key that Langfuse has lost.
use langfuse_operator.Common.{
  ◌+◌, String, true, false, map, none, some, List, [], ◌∷◌, ◌≡◌, ◌↔◌, refl,
}
use langfuse_operator.Api.{
  listed, Condition, ApiKeySpec, ApiKeyStatus, LangfuseOrganization, LangfuseProject,
  LangfuseProjectStatus,
}
use langfuse_operator.Client.{ApiError, Got, found}
use langfuse_operator.Langfuse.{ApiKey, replied, LangfuseClient, basic}
use langfuse_operator.Organizations.Resolve.{build_langfuse_client}
use langfuse_operator.Projects.Client.{is_complete}
use langfuse_operator.Projects.Reconcile.{
  ProjectAnswers, Servers, synced_status, with_organization, with_project,
}
use langfuse_operator.Projects.Rotation.{AllKnown, sync_api_keys_idle}
use langfuse_operator.Projects.Specified.{sync_api_keys_iff}
use langfuse_operator.Projects.Turns.{Turns}
use langfuse_operator.Projects.Sync.{sync_api_keys, kept_status, made_status, key_data}
use langfuse_operator.Projects.Unrepaired.{Cached, Serving, passes, passes-unrepaired}
use langfuse_operator.Secrets.Generated.{Data}
use langfuse_operator.Examples.Organizations.{org_with, ready_instance, project, client}
use langfuse_operator.Examples.World.{
  World, secret_in, without, create_in, answer, answer-found, there_already, demo_pair, org_pair,
  secret_api, project_api, org_api,
}

abbrev specs : List ApiKeySpec
specs =
    record { name = "web"; secret_name = "web-key" }
    ∷ record { name = "job"; secret_name = "job-key" }
    ∷ []

abbrev before : World
before = record {
  secrets =
      ("web-key", ("publicKey", "lost") ∷ [])
      ∷ ("team-orgkey", ("publicKey", "pk") ∷ ("secretKey", "sk") ∷ [])
      ∷ [];
  keys = [];
  org_keys = 0;
}

abbrev host : String
host = "http://demo-web.ns.svc:3000"

abbrev statuses : List ApiKeyStatus
statuses =
    made_status (record { name = "web"; secret_name = "web-key" }) 7
    ∷ made_status (record { name = "job"; secret_name = "job-key" }) 7
    ∷ []

abbrev after : World
after = record {
  secrets =
      ("job-key", key_data (demo_pair "job") host)
      ∷ ("web-key", key_data (demo_pair "web") host)
      ∷ ("team-orgkey", ("publicKey", "pk") ∷ ("secretKey", "sk") ∷ [])
      ∷ [];
  keys = record { id = "job"; public_key = "job" } ∷ record { id = "web"; public_key = "web" } ∷ [];
  org_keys = 0;
}

run_keys :
    sync_api_keys project_api secret_api "ns" "p1" host none 7 specs before
    ≡ (replied statuses, after)
unfolding sync_api_keys without create_in
run_keys = refl

sync_api_keys_iff_example :
    (sync_api_keys project_api secret_api "ns" "p1" host none 7 specs before
      ≡ (replied statuses, after))
    ↔ ((remote : List ApiKey) × (project_api.list_api_keys "p1" before ≡ replied remote)
        × Turns project_api secret_api "p1" host 7 remote specs before after statuses)
sync_api_keys_iff_example =
    sync_api_keys_iff project_api secret_api "p1" host 7 "ns" none specs before after statuses refl
      refl

sync_api_keys_idle_example :
    (sync_api_keys project_api secret_api "ns" "p1" host none 9 specs after
      ≡ (replied (map kept_status specs), after))
    ↔ ((after ≡ after) × AllKnown project_api secret_api after.keys after specs)
sync_api_keys_idle_example =
    sync_api_keys_idle project_api secret_api "p1" host 9 "ns" none specs after after after.keys
      refl refl

abbrev half : Data
half = ("publicKey", "pk") ∷ []

abbrev broken : World
broken = record { secrets = ("team-orgkey", half) ∷ []; keys = []; org_keys = 0 }

abbrev admin_secret : Got Data
admin_secret = found (("admin-api-key", "k") ∷ [])

run_half : is_complete half ≡ false
unfolding is_complete
run_half = refl

run_admin : build_langfuse_client ready_instance admin_secret ≡ replied client
unfolding build_langfuse_client
run_admin = refl

taken :
    (w : World) (entries' : Data)
    → answer (secret_in w.secrets "team-orgkey") ≡ found half
    → (e : ApiError) × (create_in (secret_in w.secrets "team-orgkey") "team-orgkey" entries' w
        ≡ (some there_already, w))
unfolding create_in
taken w entries' h =
    (there_already, rw (answer-found (secret_in w.secrets "team-orgkey") half h) refl)

serving : Serving (λ c. org_api) secret_api (org_with false) client half (λ w. w.org_keys)
serving = record {
  pair = org_pair;
  minted = λ w. record w { org_keys = w.org_keys + 1 };
  mints = λ w. refl;
  counts = λ w. refl;
  keeps = λ w h. h;
  exists = λ w entries' h. (there_already, (taken w entries' h).1, refl);
}

abbrev demo_servers : Servers World
demo_servers = record {
  organizations = λ c. org_api;
  projects = λ c. project_api;
  secrets = λ namespace. secret_api;
}

abbrev team : LangfuseOrganization (List Condition)
team = record (org_with false) { status = record ((org_with false).status) { ready = true } }

abbrev app : LangfuseProject (List Condition)
app = record project { spec = record (project.spec) { api_keys = specs } }

abbrev answers : ProjectAnswers (List Condition)
answers = record {
  add_finalizer = none;
  instance_got = found ready_instance;
  organization_got = found team;
  admin_secret = admin_secret;
  owner = none;
  now = 7;
  status_update = none;
  remove_finalizer = none;
}

abbrev key_client : LangfuseClient
key_client = record { base_url = host; auth = basic "pk" "sk" }

abbrev published : LangfuseProjectStatus (List Condition)
published =
    synced_status listed (with_project listed (with_organization listed app team) "p1") statuses

passes-unrepaired_example :
    let w =
      passes (λ c. org_api) secret_api (org_with false) ready_instance admin_secret 12 broken in
    (w.org_keys ≡ 0 + 12) × Cached (λ c. org_api) secret_api (org_with false) half w
passes-unrepaired_example =
    passes-unrepaired (λ c. org_api) secret_api (org_with false) ready_instance admin_secret client
      half (λ w. w.org_keys) 12 broken serving run_admin run_half refl
