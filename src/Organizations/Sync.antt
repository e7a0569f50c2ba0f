-- ===== src/Organizations/Sync.antt =====
-- syncOrganization, syncMembers and countDependentProjects.
use langfuse_operator.Common.{
  is_empty, ℕ, ◌+◌, String, ◌==◌, ◌<>◌, quoted, Bool, true, false, not, ◌&&◌, contains, Option,
  none, some, List, [], ◌∷◌, if◌then◌else◌,
}
use langfuse_operator.Api.{
  OrganizationMemberSpec, OrganizationMembersSpec, LangfuseOrganization, LangfuseProject,
  reference_namespace,
}
use langfuse_operator.Langfuse.{Organization, OrgMember, Reply, replied, refused, failure}
use langfuse_operator.Langfuse.Action.{Action, pure, failing, ◌>>=◌, ◌>>◌, within, reading}
use langfuse_operator.Organizations.Api.{OrgApi}

-- The first of the list that has the name.
unfoldable pub organization_named : String → List Organization → Option Organization
organization_named name [] = none
organization_named name (o ∷ os) = if o.name == name then some o else organization_named name os

-- currentByEmail: the last of the list that has the email.
unfoldable pub member_by_email : String → List OrgMember → Option OrgMember
member_by_email email [] = none
member_by_email email (m ∷ ms) = elim (member_by_email email ms) [
  | some later ↦ some later
  | none ↦ if m.email == email then some m else none
]

abbrev pub emails : List OrganizationMemberSpec → List String
emails [] = []
emails (u ∷ us) = u.email ∷ emails us

module _ {S : Type 0} (api : OrgApi S) where
  -- From the search by name on.
  unfoldable pub search_organization : String → Action S String
  unfolding organization_named
  search_organization name = do
    organizations ← within "listing organizations" (reading api.list_organizations)
    elim (organization_named name organizations) [
      | some o ↦ pure o.id
      | none ↦ within "creating organization" (api.create_organization name) >>= λ created.
          pure created.id
    ]

  -- The organization behind the stored identifier is there; its name is brought up to date.
  unfoldable pub rename_organization : String → String → Organization → Action S String
  rename_organization id name existing =
      if existing.name == name
      then pure id
      else within "updating organization name" (api.update_organization id name) >>= λ _. pure id

  -- `found` is the answer to GetOrganization; any error of it leads to the search.
  unfoldable pub verify_organization : String → String → Reply Organization → Action S String
  unfolding search_organization rename_organization
  verify_organization id name (replied existing) = rename_organization id name existing
  verify_organization id name (refused f) = search_organization name

  unfoldable pub sync_organization : {C : Type 0} → LangfuseOrganization C → Action S String
  unfolding search_organization verify_organization
  sync_organization org s =
      let id = org.status.organization_id in
      let name = org.spec.display_name in
      if id == ""
      then search_organization name s
      else verify_organization id name (api.get_organization id s) s

  -- The body of the loop over the desired members. `existing` is the entry of currentByEmail.
  unfoldable pub sync_user :
      String → OrganizationMemberSpec → Option OrgMember → Action S (Unit {0})
  sync_user id desired (some existing) =
      if existing.role == desired.role
      then pure tt
      else within ("updating role for member " <> quoted desired.email)
          (api.update_org_member_role id existing.id desired.role)
  sync_user id desired none =
      within ("adding member " <> quoted desired.email)
        (api.add_org_member id desired.email desired.role)
      >>= λ _. pure tt

  unfoldable pub sync_users : String → List OrgMember → List OrganizationMemberSpec → ℕ → Action S ℕ
  unfolding sync_user member_by_email
  sync_users id current [] synced = pure synced
  sync_users id current (desired ∷ users) synced =
      sync_user id desired (member_by_email desired.email current)
      >> sync_users id current users (synced + 1)

  unfoldable pub remove_unlisted : String → List String → List OrgMember → Action S (Unit {0})
  remove_unlisted id desired [] = pure tt
  remove_unlisted id desired (m ∷ ms) =
      if contains m.email desired
      then remove_unlisted id desired ms
      else within ("removing unlisted member " <> quoted m.email) (api.remove_org_member id m.id)
        >> remove_unlisted id desired ms

  unfoldable pub remove_if_exclusive :
      Bool → String → List String → List OrgMember → Action S (Unit {0})
  unfolding remove_unlisted
  remove_if_exclusive false id desired current = pure tt
  remove_if_exclusive true id desired current = remove_unlisted id desired current

  unfoldable pub sync_members : String → OrganizationMembersSpec → Action S ℕ
  unfolding sync_users remove_if_exclusive
  sync_members id members =
      if is_empty members.users && not members.managed_exclusively
      then pure 0
      else if id == ""
      then failing (failure "organization ID not set, cannot sync members")
      else do
        current ← within "listing current members" (reading (api.list_org_members id))
        synced ← sync_users id current members.users 0
        remove_if_exclusive members.managed_exclusively id (emails members.users) current
        pure synced

module _ {C : Type 0} where
  unfoldable pub refers_to : LangfuseOrganization C → LangfuseProject C → Bool
  unfolding reference_namespace
  refers_to org p =
      p.spec.organization_ref.name == org.name
      && reference_namespace p.spec.organization_ref p.namespace == org.namespace

  unfoldable pub count_dependent_projects : LangfuseOrganization C → List (LangfuseProject C) → ℕ
  unfolding refers_to
  count_dependent_projects org [] = 0
  count_dependent_projects org (p ∷ ps) =
      let rest = count_dependent_projects org ps in if refers_to org p then rest + 1 else rest
