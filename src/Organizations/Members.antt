-- ===== src/Organizations/Members.antt =====
-- A synchronisation of the members as a whole, and the next one.
use langfuse_operator.Common.{
  ℕ, String, ◌==◌, Bool, true, false, not, ◌&&◌, contains, is_empty, none, some, List, [], ◌∷◌,
  length, ◌≡◌, ◌∙◌, refl, sym, ap, arith, eq_iff, eq_refl, Bool-cases, inl, inr, if◌then◌else◌,
}
use langfuse_operator.Api.{OrganizationMemberSpec, OrganizationMembersSpec}
use langfuse_operator.Langfuse.{OrgMember, replied}
use langfuse_operator.Langfuse.Action.{
  Action, pure, ◌>>=◌, ◌>>◌, within, reading, bind-replied, reading-replied, pure-replied,
}
use langfuse_operator.Organizations.Api.{OrgApi}
use langfuse_operator.Organizations.Sync.{
  member_by_email, emails, sync_users, remove_if_exclusive, sync_members,
}
use langfuse_operator.Organizations.Membership.{
  role_of, AllFound, distinct, member_emails, MemberLaws, role_for, wanted_role, by_email-none,
  role_for-contains,
}
use langfuse_operator.Organizations.Agreement.{
  Current-all, Unlisted, Unlisted-found, sync_users-other, sync_users-role, sync_users-count,
  remove_unlisted-member,
}

abbrev pub rest_of :
    {S : Type 0} → OrgApi S → String → OrganizationMembersSpec → List OrgMember → Action S ℕ
rest_of api id members current = sync_users api id current members.users 0 >>= λ synced.
    remove_if_exclusive api members.managed_exclusively id (emails members.users) current
    >> pure synced

role_for-listed :
    (x : String) (us : List OrganizationMemberSpec)
    → contains x (emails us) ≡ true
    → (r : String) × (role_for x us ≡ some r)
unfolding role_for
role_for-listed x [] h = cc h
role_for-listed x (u ∷ us) h = elim (Bool-cases (u.email == x)) [
  | inl p ↦ (u.role, ground (arith, p))
  | inr p ↦
      let r = role_for-listed x us (ground (arith, h, p, eq_iff x u.email, eq_refl x)) in
      (r.0, ground (arith, p, r.1))
]

nothing-listed :
    (us : List OrganizationMemberSpec)
    → is_empty us ≡ true
    → ((x : String) → role_for x us ≡ none) × (0 ≡ length us)
unfolding role_for
nothing-listed [] h = (λ x. refl, refl)
nothing-listed (u ∷ us) h = cc h

module _ {S : Type 0} (api : OrgApi S) (id : String) (laws : MemberLaws api id) where
  open laws use {member}

  remove_if_exclusive-member :
      (exclusive : Bool) (desired : List String) (ms : List OrgMember) (s s' : S)
      → distinct (member_emails ms) ≡ true
      → Unlisted api id laws s desired ms
      → remove_if_exclusive api exclusive id desired ms s ≡ (replied tt, s')
      → (x : String)
      → member s' x ≡ (
          if contains x desired
          then member s x
          else if exclusive && contains x (member_emails ms)
          then none
          else member s x)
  unfolding remove_if_exclusive
  remove_if_exclusive-member false desired ms s s' d u h x =
      rw (← (pure-replied h).1) (ground arith)
  remove_if_exclusive-member true desired ms s s' d u h x =
      remove_unlisted-member api id laws desired ms s s' d u h x

  module _ (members : OrganizationMembersSpec) (d : distinct (emails members.users) ≡ true) where
    -- From the list on.
    synced-role :
        (current : List OrgMember) (s t s' : S) (k : ℕ)
        → ((e : String) → member s e ≡ member_by_email e current)
        → AllFound (member s) current
        → distinct (member_emails current) ≡ true
        → sync_users api id current members.users 0 s ≡ (replied k, t)
        → remove_if_exclusive api members.managed_exclusively id (emails members.users) current t
          ≡ (replied tt, s')
        → (x : String) → role_of (member s' x) ≡ wanted_role members x (role_of (member s x))
    unfolding wanted_role
    synced-role current s t s' k same found once users removed x =
        let c = Current-all api id laws s current members.users same in
        let kept = sync_users-other api id laws current members.users 0 k s t d c users in
        let gone =
          remove_if_exclusive-member members.managed_exclusively (emails members.users) current t s'
            once (Unlisted-found api id laws s t (emails members.users) current kept found) removed
            x in
        elim (Bool-cases (contains x (emails members.users))) [
          | inl p ↦
              let r = role_for-listed x members.users p in
              ap role_of gone
              ∙ ground (
                arith,
                p,
                r.1,
                sync_users-role api id laws current members.users 0 k s t d c users x r.0 r.1,
              )
          | inr p ↦
              ap role_of gone
              ∙ ground (
                arith,
                p,
                kept x p,
                role_for-contains x members.users p,
                same x,
                by_email-none x current,
              )
        ]

    rest-role :
        (current : List OrgMember) (s s' : S) (n : ℕ)
        → api.list_org_members id s ≡ replied current
        → rest_of api id members current s ≡ (replied n, s')
        → (x : String)
        → (role_of (member s' x) ≡ wanted_role members x (role_of (member s x)))
          × (n ≡ length members.users)
    rest-role current s s' n e h x =
        let l = laws.listed s current e in
        let removal =
          remove_if_exclusive api members.managed_exclusively id (emails members.users) current in
        let users =
          bind-replied (sync_users api id current members.users 0) (λ k. removal >> pure k) s h in
        let gone = bind-replied removal (λ _. pure users.0) users.1 users.3 in
        let end = pure-replied gone.3 in
        (
          synced-role current s users.1 s' users.0 l.0 l.1 l.2 users.2 (rw end.1 at gone.2) x,
          omega (
            arith,
            end.0,
            sync_users-count api id laws current members.users 0 users.0 s users.1 users.2,
          ),
        )

    -- A synchronisation that succeeds, of a spec that names no email twice, gives every listed email its role;
    -- every other email is no member behind it where the list is exclusive, and has the role it had
    -- otherwise. The count is the number of listed members, or 0 where there was nothing to do.
    pub sync_members-role :
        (s s' : S) (n : ℕ)
        → sync_members api id members s ≡ (replied n, s')
        → (x : String)
        → (role_of (member s' x) ≡ wanted_role members x (role_of (member s x)))
          × (n ≡ length members.users)
    unfolding sync_members wanted_role
    sync_members-role s s' n h x =
        elim (Bool-cases (is_empty members.users && not members.managed_exclusively)) [
          | inl p ↦
              let idle = pure-replied (rw p at h) in
              let none_listed = nothing-listed members.users (ground (arith, p)) in
              (rw (← idle.1) (ground (arith, p, none_listed.0 x)), sym idle.0 ∙ none_listed.1)
          | inr p ↦ elim (Bool-cases (id == "")) [
            | inl q ↦ ground (arith, h, p, q)
            | inr q ↦
                let b =
                  bind-replied
                    (within "listing current members" (reading (api.list_org_members id)))
                    (rest_of api id members) s (rw (p, q) at h) in
                let l = reading-replied _ (api.list_org_members id) s b.2 in
                rest-role b.0 s s' n l.0 (rw (← l.1) at b.3) x
          ]
        ]
