-- ===== src/Examples/Organizations.antt =====
-- An organization with one member whose role is wrong, one who is missing and one who is not listed.
use langfuse_operator.Common.{
  if◌then◌else◌, Bool, true, false, any, none, some, List, [], ◌∷◌, length, ◌≡◌, refl,
}
use langfuse_operator.Api.{
  listed, Condition, Instance, ObjectReference, OrganizationMembersSpec, LangfuseOrganization,
  LangfuseOrganizationStatus, LangfuseProject,
}
use langfuse_operator.Client.{found}
use langfuse_operator.Langfuse.{replied, LangfuseClient, bearer}
use langfuse_operator.Organizations.Sync.{sync_members, refers_to}
use langfuse_operator.Organizations.Membership.{role_of, wanted_role}
use langfuse_operator.Organizations.Members.{sync_members-role}
use langfuse_operator.Organizations.Settled.{sync_members-settles}
use langfuse_operator.Organizations.Reconcile.{OrgAnswers, reconcile, synced_status, clean_up}
use langfuse_operator.Organizations.Ready.{reconcile_deleting}
use langfuse_operator.Examples.Values.{fresh}
use langfuse_operator.Examples.Server.{
  Roles, find, entry, listing, instance_api, instance_laws, set_role, remove,
}

abbrev pub members : OrganizationMembersSpec
members = record {
  managed_exclusively = true;
  users = record { email = "ann"; role = "admin" } ∷ record { email = "bob"; role = "viewer" } ∷ [];
}

abbrev before : Roles
before = ("ann", "viewer") ∷ ("eve", "owner") ∷ []

abbrev after : Roles
after = ("bob", "viewer") ∷ ("ann", "admin") ∷ []

run_members : sync_members instance_api "o1" members before ≡ (replied 2, after)
unfolding sync_members set_role remove listing
run_members = refl

sync_members-role_example :
    (role_of (find after "ann") ≡ wanted_role members "ann" (some "viewer"))
    × (2 ≡ length members.users)
sync_members-role_example =
    sync_members-role instance_api "o1" (instance_laws "o1") members refl before after 2 run_members
      "ann"

run_listing :
    instance_api.list_org_members "o1" after
    ≡ replied (entry "bob" "viewer" ∷ entry "ann" "admin" ∷ [])
unfolding listing
run_listing = refl

sync_members-settles_example : sync_members instance_api "o1" members after ≡ (replied 2, after)
sync_members-settles_example =
    sync_members-settles instance_api "o1" (instance_laws "o1") members refl before after 2
      (entry "bob" "viewer" ∷ entry "ann" "admin" ∷ []) run_members run_listing

abbrev pub demo_ref : ObjectReference
demo_ref = record { name = "demo"; namespace = "" }

abbrev pub org_with : Bool → LangfuseOrganization (List Condition)
org_with deleting = record {
  name = "team";
  namespace = "ns";
  generation = 1;
  deleting = deleting;
  finalized = true;
  spec = record { instance_ref = demo_ref; display_name = "Demo"; members = members };
  status = record {
    ready = false;
    organization_id = "o1";
    member_count = 0;
    synced_members = 0;
    project_count = 0;
    conditions = [];
  };
}

abbrev pub ready_instance : Instance (List Condition)
ready_instance = record fresh { status = record (fresh.status) { ready = true } }

abbrev pub project : LangfuseProject (List Condition)
project = record {
  name = "app";
  namespace = "ns";
  generation = 1;
  deleting = false;
  finalized = true;
  delete_on_remove = false;
  spec = record {
    instance_ref = demo_ref;
    organization_ref = record { name = "team"; namespace = "" };
    project_name = "App";
    api_keys = [];
  };
  status = record {
    ready = false;
    project_id = "";
    organization_id = "";
    api_keys = [];
    conditions = [];
  };
}

abbrev answers : OrgAnswers (List Condition)
answers = record {
  add_finalizer = none;
  instance_got = found ready_instance;
  admin_secret = found (("admin-api-key", "k") ∷ []);
  projects = found (project ∷ []);
  status_update = none;
  remove_finalizer = none;
}

abbrev pub client : LangfuseClient
client = record { base_url = "http://demo-web.ns.svc:3000"; auth = bearer "k" }

abbrev synced : LangfuseOrganizationStatus (List Condition)
synced = synced_status listed (org_with false) (found (project ∷ [])) 2

run_used : any (refers_to (org_with true)) (project ∷ []) ≡ true
unfolding refers_to
run_used = refl

reconcile_deleting_example :
    let pass = reconcile listed (λ c. instance_api) (found (org_with true)) answers before in
    let used = any (refers_to (org_with true)) (project ∷ []) in
    (pass.finalizer ≡ (if used then none else some false))
    × (pass.state ≡ (
        if used
        then before
        else clean_up listed (λ c. instance_api) (org_with true) answers before))
reconcile_deleting_example =
    reconcile_deleting listed (λ c. instance_api) (org_with true) answers before (project ∷ []) refl
      refl refl

abbrev renamed : LangfuseOrganization (List Condition)
renamed = record (org_with false) {
  spec = record { instance_ref = demo_ref; display_name = "New"; members = members };
  status = record {
    ready = false;
    organization_id = "o9";
    member_count = 0;
    synced_members = 0;
    project_count = 0;
    conditions = [];
  };
}
