-- ===== src/Organizations/Reconcile.antt =====
-- Reconcile and handleDeletion of the organization controller.
use langfuse_operator.Common.{
  ℕ, ltb, String, ◌==◌, ◌<>◌, decimal, length, Bool, true, false, not, Option, none, some, List,
  if◌then◌else◌,
}
use langfuse_operator.Api.{
  ConditionApi, Condition, ConditionStatus, condition_true, condition_false, Instance,
  LangfuseOrganization, LangfuseOrganizationStatus, LangfuseProject,
}
use langfuse_operator.Client.{
  ApiError, is_not_found, wrap, Got, found, failed, Outcome, done, requeue_after, fail,
}
use langfuse_operator.Langfuse.{
  in_context, is_forbidden, of_failure, Reply, replied, refused, LangfuseClient,
}
use langfuse_operator.Organizations.Api.{OrgApi}
use langfuse_operator.Organizations.Resolve.{resolve_instance, build_langfuse_client}
use langfuse_operator.Organizations.Sync.{sync_organization, sync_members, count_dependent_projects}

-- In seconds.
abbrev pub org_resync_period : ℕ
org_resync_period = 300

abbrev pub retry_period : ℕ
retry_period = 30

-- The answers of the Kubernetes API to the calls of one pass.
pub record OrgAnswers (C : Type 0) : Type 0 where
  pub add_finalizer : Option ApiError
  pub instance_got : Got (Instance C)
  pub admin_secret : Got (List (String × String))
  pub projects : Got (List (LangfuseProject C))
  pub status_update : Option ApiError
  pub remove_finalizer : Option ApiError

-- What a pass leaves: the state of Langfuse, whether it sent the object with the finalizer added or removed, the
-- status that it sent, and its result.
pub record OrgPass (S C : Type 0) : Type 0 where
  pub state : S
  pub finalizer : Option Bool
  pub written : Option (LangfuseOrganizationStatus C)
  pub outcome : Outcome

abbrev pub requires_license : String
requires_license =
    "The Langfuse organization-management API requires a self-hosted Enterprise/Pro license. Set spec.eeLicenseKey on the LangfuseInstance. See docs/guide/multi-tenancy.md."

module _ (api : ConditionApi) where
  open api use {Conditions, set}

  unfoldable pub ready_condition : ConditionStatus → String → String → ℕ → Condition
  ready_condition status reason message generation = record {
    type = "Ready";
    status = status;
    reason = reason;
    message = message;
    observed_generation = generation;
  }

  -- The status with the Ready condition False.
  unfoldable pub not_ready :
      LangfuseOrganization Conditions → String → String → LangfuseOrganizationStatus Conditions
  unfolding ready_condition
  not_ready org reason message = record (org.status) {
    conditions =
        set org.status.conditions (ready_condition condition_false reason message org.generation);
    ready = false;
  }

  unfoldable pub with_id :
      LangfuseOrganization Conditions → String → LangfuseOrganization Conditions
  with_id org id = record org { status = record (org.status) { organization_id = id } }

  abbrev pub count_or_zero :
      LangfuseOrganization Conditions → Got (List (LangfuseProject Conditions)) → ℕ
  count_or_zero org (failed e) = 0
  count_or_zero org (found projects) = count_dependent_projects org projects

  unfoldable pub synced_status :
      LangfuseOrganization Conditions
      → Got (List (LangfuseProject Conditions))
      → ℕ
      → LangfuseOrganizationStatus Conditions
  unfolding ready_condition
  synced_status org projects synced = record (org.status) {
    synced_members = synced;
    member_count = length org.spec.members.users;
    project_count = count_or_zero org projects;
    conditions = set org.status.conditions (
        ready_condition condition_true "Synced" "Organization is synced with Langfuse"
          org.generation);
    ready = true;
  }

  -- `connect` gives the calls that a client makes.
  module _ {S : Type 0} (connect : LangfuseClient → OrgApi S) where
    -- The status of a failed step; the answer to its update is only logged.
    abbrev pub stopped :
        Option Bool → LangfuseOrganizationStatus Conditions → Outcome → S → OrgPass S Conditions
    stopped fin status outcome s = record {
      state = s;
      finalizer = fin;
      written = some status;
      outcome = outcome;
    }

    unfoldable pub after_members :
        Option Bool
        → LangfuseOrganization Conditions
        → OrgAnswers Conditions
        → Reply ℕ × S
        → OrgPass S Conditions
    unfolding not_ready synced_status
    after_members fin org ans (refused f, s) =
        stopped fin (not_ready org "MemberSyncFailed" ("Failed to sync members: " <> f.text))
          (fail (of_failure (in_context "syncing members" f))) s
    after_members fin org ans (replied synced, s) = record {
      state = s;
      finalizer = fin;
      written = some (synced_status org ans.projects synced);
      outcome = elim ans.status_update [
        | some e ↦ fail (wrap "updating status" e)
        | none ↦ requeue_after org_resync_period
      ];
    }

    unfoldable pub after_organization :
        Option Bool
        → LangfuseOrganization Conditions
        → OrgAnswers Conditions
        → LangfuseClient
        → Reply String × S
        → OrgPass S Conditions
    unfolding not_ready after_members with_id is_forbidden
    after_organization fin org ans c (refused f, s) =
        if is_forbidden f
        then stopped fin (not_ready org "RequiresEELicense" requires_license)
            (requeue_after org_resync_period) s
        else stopped fin (not_ready org "SyncFailed" ("Failed to sync organization: " <> f.text))
            (fail (of_failure (in_context "syncing organization" f))) s
    after_organization fin org ans c (replied id, s) =
        after_members fin (with_id org id) ans (sync_members (connect c) id org.spec.members s)

    unfoldable pub after_client :
        Option Bool
        → LangfuseOrganization Conditions
        → OrgAnswers Conditions
        → S
        → Reply LangfuseClient
        → OrgPass S Conditions
    unfolding not_ready after_organization
    after_client fin org ans s (refused f) =
        stopped fin (not_ready org "ClientError" f.text) (requeue_after retry_period) s
    after_client fin org ans s (replied c) =
        after_organization fin org ans c (sync_organization (connect c) org s)

    unfoldable pub after_instance :
        Option Bool
        → LangfuseOrganization Conditions
        → OrgAnswers Conditions
        → S
        → Reply (Instance Conditions)
        → OrgPass S Conditions
    unfolding not_ready after_client
    after_instance fin org ans s (refused f) =
        stopped fin (not_ready org "InstanceNotReady" f.text) (requeue_after retry_period) s
    after_instance fin org ans s (replied i) =
        after_client fin org ans s (build_langfuse_client i ans.admin_secret)

    -- Best effort: an error is only logged.
    unfoldable pub clean_up : LangfuseOrganization Conditions → OrgAnswers Conditions → S → S
    clean_up org ans s =
        if org.status.organization_id == ""
        then s
        else elim (resolve_instance org.spec.instance_ref org.namespace ans.instance_got) [
          | refused f ↦ s
          | replied i ↦ elim (build_langfuse_client i ans.admin_secret) [
            | refused f ↦ s
            | replied c ↦ ((connect c).delete_organization org.status.organization_id s).1
          ]
        ]

    unfoldable pub delete_unless_used :
        LangfuseOrganization Conditions → OrgAnswers Conditions → S → ℕ → OrgPass S Conditions
    unfolding not_ready clean_up
    delete_unless_used org ans s count =
        if ltb 0 count
        then stopped none
            (not_ready org "DependentProjectsExist" (
              "Cannot delete: "
              <> decimal count
              <> " LangfuseProject(s) still reference this organization"))
            (requeue_after retry_period) s
        else record {
          state = clean_up org ans s;
          finalizer = some false;
          written = none;
          outcome = elim ans.remove_finalizer [
            | some e ↦ fail (wrap "removing finalizer" e)
            | none ↦ done
          ];
        }

    abbrev pub idle : Outcome → S → OrgPass S Conditions
    idle outcome s = record { state = s; finalizer = none; written = none; outcome = outcome }

    unfoldable pub handle_deletion :
        LangfuseOrganization Conditions → OrgAnswers Conditions → S → OrgPass S Conditions
    unfolding delete_unless_used
    handle_deletion org ans s = if not org.finalized then idle done s else elim ans.projects [
      | failed e ↦
          idle (fail (wrap "checking dependent projects" (wrap "listing LangfuseProjects" e))) s
      | found projects ↦ delete_unless_used org ans s (count_dependent_projects org projects)
    ]

    -- From the finalizer on; `fin` is what was sent of it.
    unfoldable pub sync_with_finalizer :
        Option Bool
        → LangfuseOrganization Conditions
        → OrgAnswers Conditions
        → S
        → OrgPass S Conditions
    unfolding after_instance
    sync_with_finalizer fin org ans s =
        after_instance fin org ans s
          (resolve_instance org.spec.instance_ref org.namespace ans.instance_got)

    -- `finalized` is the organization's, `answer` that to the Update.
    unfoldable pub ensure_finalizer :
        LangfuseOrganization Conditions
        → OrgAnswers Conditions
        → S
        → Bool
        → Option ApiError
        → OrgPass S Conditions
    unfolding sync_with_finalizer
    ensure_finalizer org ans s true answer = sync_with_finalizer none org ans s
    ensure_finalizer org ans s false none = sync_with_finalizer (some true) org ans s
    ensure_finalizer org ans s false (some e) = record (idle (fail (wrap "adding finalizer" e)) s) {
      finalizer = some true;
    }

    unfoldable pub reconcile :
        Got (LangfuseOrganization Conditions) → OrgAnswers Conditions → S → OrgPass S Conditions
    unfolding handle_deletion ensure_finalizer
    reconcile (failed e) ans s =
        idle (if is_not_found e.kind then done else fail (wrap "fetching LangfuseOrganization" e)) s
    reconcile (found org) ans s =
        if org.deleting
        then handle_deletion org ans s
        else ensure_finalizer org ans s org.finalized ans.add_finalizer
