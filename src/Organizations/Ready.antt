-- ===== src/Organizations/Ready.antt =====
-- What a published status of an organization means, and when its deletion goes through.
use langfuse_operator.Common.{
  ltb, String, true, false, any, none, some, List, [], ◌∷◌, ◌≡◌, refl, arith, if◌then◌else◌,
}
use langfuse_operator.Api.{
  ConditionApi, Instance, LangfuseOrganization, LangfuseOrganizationStatus, LangfuseProject,
}
use langfuse_operator.Client.{found}
use langfuse_operator.Phase.{is_met}
use langfuse_operator.Langfuse.{Reply, replied, refused, LangfuseClient}
use langfuse_operator.Organizations.Api.{OrgApi}
use langfuse_operator.Organizations.Resolve.{resolve_instance, build_langfuse_client}
use langfuse_operator.Organizations.Sync.{refers_to, count_dependent_projects}
use langfuse_operator.Organizations.Membership.{MemberLaws, role_of, wanted_role}
use langfuse_operator.Organizations.Reconcile.{
  OrgAnswers, clean_up, delete_unless_used, handle_deletion, reconcile,
}

abbrev pub client_for : {C : Type 0} → OrgAnswers C → Reply (Instance C) → Reply LangfuseClient
client_for ans (refused f) = refused f
client_for ans (replied i) = build_langfuse_client i ans.admin_secret

-- The client that a pass builds, where it gets so far.
abbrev pub client_of : {C : Type 0} → LangfuseOrganization C → OrgAnswers C → Reply LangfuseClient
client_of org ans =
    client_for ans (resolve_instance org.spec.instance_ref org.namespace ans.instance_got)

module _ (api : ConditionApi) {S : Type 0} (connect : LangfuseClient → OrgApi S) where
  open api use {Conditions, find}

  module _ (laws : (c : LangfuseClient) (id : String) → MemberLaws (connect c) id) where
    -- Ready is True, every listed member is synchronised, and an email has the role that the spec wants for it.
    abbrev pub Synced :
        LangfuseOrganization Conditions
        → LangfuseClient
        → LangfuseOrganizationStatus Conditions
        → S
        → String
        → Type 0
    Synced org c st s x =
        let role = role_of ((laws c st.organization_id).member s x) in
        (is_met (find st.conditions "Ready") ≡ true)
        × (st.synced_members ≡ st.member_count)
        × (role ≡ wanted_role org.spec.members x role)

  count-any :
      (org : LangfuseOrganization Conditions) (ps : List (LangfuseProject Conditions))
      → ltb 0 (count_dependent_projects org ps) ≡ any (refers_to org) ps
  unfolding count_dependent_projects
  count-any org [] = refl
  count-any org (p ∷ ps) = ground (arith, count-any org ps)

  -- A deletion keeps the finalizer, and leaves Langfuse alone, exactly as long as some project of the list refers to
  -- the organization; then the finalizer goes, behind the attempt to delete the organization in Langfuse.
  pub reconcile_deleting :
      (org : LangfuseOrganization Conditions) (ans : OrgAnswers Conditions) (s : S)
      (ps : List (LangfuseProject Conditions))
      → org.deleting ≡ true
      → org.finalized ≡ true
      → ans.projects ≡ found ps
      → let pass = reconcile api connect (found org) ans s in
        let used = any (refers_to org) ps in
        (pass.finalizer ≡ (if used then none else some false))
        × (pass.state ≡ (if used then s else clean_up api connect org ans s))
  unfolding reconcile handle_deletion delete_unless_used
  reconcile_deleting org ans s ps del fin e = rw (del, fin, e) (ground (arith, count-any org ps))
