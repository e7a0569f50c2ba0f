-- ===== src/Projects/Reconcile.antt =====
-- Reconcile and handleDeletion of the project controller.
use langfuse_operator.Common.{
  ℕ, String, ◌==◌, ◌<>◌, Bool, true, false, not, Option, none, some, List, [], ◌∷◌, if◌then◌else◌,
}
use langfuse_operator.Api.{
  ConditionApi, condition_true, condition_false, Instance, LangfuseOrganization, LangfuseProject,
  LangfuseProjectStatus, ApiKeySpec, ApiKeyStatus,
}
use langfuse_operator.Client.{
  ApiError, is_not_found, wrap, Got, found, failed, Outcome, done, requeue_after, fail,
}
use langfuse_operator.Langfuse.{
  in_context, is_forbidden, of_failure, Reply, replied, refused, LangfuseClient, instance_url,
}
use langfuse_operator.Organizations.Api.{OrgApi}
use langfuse_operator.Organizations.Reconcile.{ready_condition, requires_license, retry_period}
use langfuse_operator.Organizations.Resolve.{resolve_instance}
use langfuse_operator.Projects.Api.{ProjectApi, SecretApi}
use langfuse_operator.Projects.Client.{resolve_organization, ensure_project_client}
use langfuse_operator.Projects.Sync.{sync_project, sync_api_keys, revoke_api_keys}
use langfuse_operator.Secrets.Generated.{Data}

-- In seconds.
abbrev pub project_resync_period : ℕ
project_resync_period = 300

-- The answers of the Kubernetes API to the calls of one pass that are not about Secrets with keys, and the time.
pub record ProjectAnswers (C : Type 0) : Type 0 where
  pub add_finalizer : Option ApiError
  pub instance_got : Got (Instance C)
  pub organization_got : Got (LangfuseOrganization C)
  pub admin_secret : Got Data
  pub owner : Option ApiError
  pub now : ℕ
  pub status_update : Option ApiError
  pub remove_finalizer : Option ApiError

-- What a pass leaves: the state of the servers, whether it sent the object with the finalizer added or removed, the
-- status that it sent, and its result.
pub record ProjectPass (S C : Type 0) : Type 0 where
  pub state : S
  pub finalizer : Option Bool
  pub written : Option (LangfuseProjectStatus C)
  pub outcome : Outcome

-- The calls to Langfuse by client, and those for the Secrets by namespace.
pub record Servers (S : Type 0) : Type 0 where
  pub organizations : LangfuseClient → OrgApi S
  pub projects : LangfuseClient → ProjectApi S
  pub secrets : String → SecretApi S

module _ (api : ConditionApi) where
  open api use {Conditions, set}

  -- The status with the Ready condition False.
  unfoldable pub not_ready :
      LangfuseProject Conditions → String → String → LangfuseProjectStatus Conditions
  unfolding ready_condition
  not_ready project reason message = record (project.status) {
    conditions =
        set project.status.conditions
          (ready_condition api condition_false reason message project.generation);
    ready = false;
  }

  unfoldable pub synced_status :
      LangfuseProject Conditions → List ApiKeyStatus → LangfuseProjectStatus Conditions
  unfolding ready_condition
  synced_status project keys = record (project.status) {
    api_keys = keys;
    conditions = set project.status.conditions (
        ready_condition api condition_true "Synced" "Project is synced with Langfuse"
          project.generation);
    ready = true;
  }

  unfoldable pub with_organization :
      LangfuseProject Conditions → LangfuseOrganization Conditions → LangfuseProject Conditions
  with_organization project org = record project {
    status = record (project.status) { organization_id = org.status.organization_id };
  }

  unfoldable pub with_project : LangfuseProject Conditions → String → LangfuseProject Conditions
  with_project project id = record project { status = record (project.status) { project_id = id } }

  module _ {S : Type 0} (servers : Servers S) (ans : ProjectAnswers Conditions) where
    -- The client for a project of the organization.
    abbrev pub client_action :
        Instance Conditions → LangfuseOrganization Conditions → S → Reply LangfuseClient × S
    client_action i org =
        ensure_project_client servers.organizations (servers.secrets org.namespace) i org
          ans.admin_secret ans.owner

    abbrev pub keys_action :
        LangfuseProject Conditions
        → Instance Conditions
        → LangfuseClient
        → S
        → Reply (List ApiKeyStatus) × S
    keys_action project i c =
        sync_api_keys (servers.projects c) (servers.secrets project.namespace) project.namespace
          project.status.project_id (instance_url i.name i.namespace) ans.owner ans.now
          project.spec.api_keys

    -- The status of a failed step; the answer to its update is only logged.
    abbrev pub stopped :
        Option Bool → LangfuseProjectStatus Conditions → Outcome → S → ProjectPass S Conditions
    stopped fin status outcome s = record {
      state = s;
      finalizer = fin;
      written = some status;
      outcome = outcome;
    }

    unfoldable pub after_keys :
        Option Bool
        → LangfuseProject Conditions
        → Reply (List ApiKeyStatus) × S
        → ProjectPass S Conditions
    unfolding not_ready synced_status
    after_keys fin project (refused f, s) =
        stopped fin (not_ready project "APIKeySyncFailed" ("Failed to sync API keys: " <> f.text))
          (fail (of_failure (in_context "syncing API keys" f))) s
    after_keys fin project (replied keys, s) = record {
      state = s;
      finalizer = fin;
      written = some (synced_status project keys);
      outcome = elim ans.status_update [
        | some e ↦ fail (wrap "updating status" e)
        | none ↦ requeue_after project_resync_period
      ];
    }

    unfoldable pub after_project :
        Option Bool
        → LangfuseProject Conditions
        → Instance Conditions
        → LangfuseClient
        → Reply String × S
        → ProjectPass S Conditions
    unfolding not_ready after_keys with_project
    after_project fin project i c (refused f, s) =
        stopped fin (not_ready project "SyncFailed" ("Failed to sync project: " <> f.text))
          (fail (of_failure (in_context "syncing project" f))) s
    after_project fin project i c (replied id, s) =
        let project' = with_project project id in
        after_keys fin project' (keys_action project' i c s)

    unfoldable pub after_client :
        Option Bool
        → LangfuseProject Conditions
        → Instance Conditions
        → Reply LangfuseClient × S
        → ProjectPass S Conditions
    unfolding not_ready after_project is_forbidden
    after_client fin project i (refused f, s) =
        stopped fin
          (if is_forbidden f
            then not_ready project "RequiresEELicense" requires_license
            else not_ready project "ClientError" f.text)
          (requeue_after retry_period) s
    after_client fin project i (replied c, s) =
        after_project fin project i c (sync_project (servers.projects c) project s)

    unfoldable pub after_organization :
        Option Bool
        → LangfuseProject Conditions
        → S
        → Instance Conditions
        → Reply (LangfuseOrganization Conditions)
        → ProjectPass S Conditions
    unfolding not_ready after_client with_organization
    after_organization fin project s i (refused f) =
        stopped fin (not_ready project "OrganizationNotReady" f.text) (requeue_after retry_period) s
    after_organization fin project s i (replied org) =
        after_client fin (with_organization project org) i (client_action i org s)

    abbrev pub instance_of : LangfuseProject Conditions → Reply (Instance Conditions)
    instance_of project =
        resolve_instance project.spec.instance_ref project.namespace ans.instance_got

    abbrev pub organization_of :
        LangfuseProject Conditions → Reply (LangfuseOrganization Conditions)
    organization_of project =
        resolve_organization project.spec.organization_ref project.namespace ans.organization_got

    unfoldable pub after_instance :
        Option Bool
        → LangfuseProject Conditions
        → S
        → Reply (Instance Conditions)
        → ProjectPass S Conditions
    unfolding not_ready after_organization
    after_instance fin project s (refused f) =
        stopped fin (not_ready project "InstanceNotReady" f.text) (requeue_after retry_period) s
    after_instance fin project s (replied i) =
        after_organization fin project s i (organization_of project)

    -- Best effort: an error is only logged.
    unfoldable pub delete_remote : LangfuseProject Conditions → Reply LangfuseClient × S → S
    unfolding revoke_api_keys
    delete_remote project (refused f, s) = s
    delete_remote project (replied c, s) =
        let id = project.status.project_id in
        let calls = servers.projects c in
        let s' =
          revoke_api_keys calls (servers.secrets project.namespace) id project.spec.api_keys s in
        if project.delete_on_remove then (calls.delete_project id s').1 else s'

    unfoldable pub clean_up_langfuse : LangfuseProject Conditions → S → S
    unfolding delete_remote
    clean_up_langfuse project s =
        if project.status.project_id == "" then s else elim (instance_of project) [
          | refused f ↦ s
          | replied i ↦ elim (organization_of project) [
            | refused f ↦ s
            | replied org ↦ delete_remote project (client_action i org s)
          ]
        ]

    -- Best effort too: a Secret that cannot be read is passed over.
    unfoldable pub delete_secrets : SecretApi S → List ApiKeySpec → S → S
    delete_secrets store [] s = s
    delete_secrets store (spec ∷ specs) s =
        delete_secrets store specs (elim (store.get_secret spec.secret_name s) [
          | failed e ↦ s
          | found entries ↦ (store.delete_secret spec.secret_name s).1
        ])

    abbrev pub idle : Outcome → S → ProjectPass S Conditions
    idle outcome s = record { state = s; finalizer = none; written = none; outcome = outcome }

    unfoldable pub handle_deletion : LangfuseProject Conditions → S → ProjectPass S Conditions
    unfolding clean_up_langfuse delete_secrets
    handle_deletion project s = if not project.finalized then idle done s else record {
      state =
          delete_secrets (servers.secrets project.namespace) project.spec.api_keys
            (clean_up_langfuse project s);
      finalizer = some false;
      written = none;
      outcome = elim ans.remove_finalizer [
        | some e ↦ fail (wrap "removing finalizer" e)
        | none ↦ done
      ];
    }

    -- `finalized` is the project's, `answer` that to the Update.
    unfoldable pub ensure_finalizer :
        LangfuseProject Conditions → S → Bool → Option ApiError → ProjectPass S Conditions
    unfolding after_instance
    ensure_finalizer project s true answer = after_instance none project s (instance_of project)
    ensure_finalizer project s false none =
        after_instance (some true) project s (instance_of project)
    ensure_finalizer project s false (some e) = record (idle (fail (wrap "adding finalizer" e)) s) {
      finalizer = some true;
    }

    unfoldable pub reconcile : Got (LangfuseProject Conditions) → S → ProjectPass S Conditions
    unfolding handle_deletion ensure_finalizer
    reconcile (failed e) s =
        idle (if is_not_found e.kind then done else fail (wrap "fetching LangfuseProject" e)) s
    reconcile (found project) s =
        if project.deleting
        then handle_deletion project s
        else ensure_finalizer project s project.finalized ans.add_finalizer
