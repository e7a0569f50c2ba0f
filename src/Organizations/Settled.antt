-- ===== src/Organizations/Settled.antt =====
-- The pass over the members after one that succeeded.
use langfuse_operator.Common.{
  ℕ, suc, ◌+◌, String, ◌==◌, Bool, true, false, not, ◌&&◌, contains, is_empty, Option, none, some,
  List, [], ◌∷◌, length, ◌≡◌, ◌∙◌, refl, sym, ap, arith, eq_iff, eq_refl, Bool-cases, inl, inr,
}
use langfuse_operator.Api.{OrganizationMemberSpec, OrganizationMembersSpec}
use langfuse_operator.Langfuse.{OrgMember, replied}
use langfuse_operator.Langfuse.Action.{pure-replied}
use langfuse_operator.Organizations.Api.{OrgApi}
use langfuse_operator.Organizations.Sync.{
  member_by_email, emails, sync_user, sync_users, remove_unlisted, remove_if_exclusive,
  sync_members,
}
use langfuse_operator.Organizations.Membership.{
  role_of, AllFound, distinct, MemberLaws, role_for, wanted_role, role_for-contains,
}
use langfuse_operator.Organizations.Members.{sync_members-role}

role_for-tail :
    (u : OrganizationMemberSpec) (us : List OrganizationMemberSpec) (x r : String)
    → distinct (emails (u ∷ us)) ≡ true
    → role_for x us ≡ some r
    → role_for x (u ∷ us) ≡ some r
unfolding role_for
role_for-tail u us x r d h = elim (Bool-cases (u.email == x)) [
  | inl p ↦
      let out = role_for-contains u.email us (ground (arith, d)) in
      absurd (cc (out, (eq_iff u.email x).0 p, h))
  | inr p ↦ ground (arith, p, h)
]

module _ {S : Type 0} (api : OrgApi S) (id : String) where
  sync_user_idle :
      (u : OrganizationMemberSpec) (o : Option OrgMember) (s : S)
      → role_of o ≡ some u.role
      → sync_user api id u o s ≡ (replied tt, s)
  unfolding sync_user
  sync_user_idle u none s h = cc h
  sync_user_idle u (some m) s h = ground (arith, h, eq_refl u.role)

  sync_users_idle :
      (current : List OrgMember) (us : List OrganizationMemberSpec) (n : ℕ) (s : S)
      → distinct (emails us) ≡ true
      → ((x r : String) → role_for x us ≡ some r → role_of (member_by_email x current) ≡ some r)
      → sync_users api id current us n s ≡ (replied (n + length us), s)
  unfolding sync_users role_for
  sync_users_idle current [] n s d h = let e : n ≡ n + 0 = omega arith in ap (λ k. (replied k, s)) e
  sync_users_idle current (u ∷ us) n s d h =
      let now = h u.email u.role (ground (arith, eq_refl u.email)) in
      let rest =
        sync_users_idle current us (n + 1) s (ground (arith, d))
          (λ x r q. h x r (role_for-tail u us x r d q)) in
      rw (sync_user_idle u (member_by_email u.email current) s now) (
        rest
        ∙ (let e : n + 1 + length us ≡ n + suc (length us) = omega arith in
            ap (λ k. (replied k, s)) e))

  remove_unlisted_idle :
      (find : String → Option OrgMember) (desired : List String) (ms : List OrgMember) (s : S)
      → AllFound find ms
      → ((x : String) → contains x desired ≡ false → find x ≡ none)
      → remove_unlisted api id desired ms s ≡ (replied tt, s)
  unfolding remove_unlisted
  remove_unlisted_idle find desired [] s f h = refl
  remove_unlisted_idle find desired (m ∷ ms) s f h = elim (Bool-cases (contains m.email desired)) [
    | inl p ↦ rw p (remove_unlisted_idle find desired ms s f.1 h)
    | inr p ↦ absurd (cc (h m.email p, f.0))
  ]

  remove_if_exclusive_idle :
      (exclusive : Bool) (find : String → Option OrgMember) (desired : List String)
      (ms : List OrgMember) (s : S)
      → AllFound find ms
      → (exclusive ≡ true → (x : String) → contains x desired ≡ false → find x ≡ none)
      → remove_if_exclusive api exclusive id desired ms s ≡ (replied tt, s)
  unfolding remove_if_exclusive
  remove_if_exclusive_idle false find desired ms s f h = refl
  remove_if_exclusive_idle true find desired ms s f h =
      remove_unlisted_idle find desired ms s f (h refl)

no_role : (o : Option OrgMember) → role_of o ≡ none → o ≡ none
no_role none h = refl
no_role (some m) h = cc h

module _ {S : Type 0} (api : OrgApi S) (id : String) (laws : MemberLaws api id) where
  open laws use {member}

  module _ (members : OrganizationMembersSpec) (d : distinct (emails members.users) ≡ true) where
    -- A pass over the members behind one that succeeded, if the list can be read, succeeds with the same count
    -- and changes nothing in Langfuse.
    pub sync_members-settles :
        (s s' : S) (n : ℕ) (current : List OrgMember)
        → sync_members api id members s ≡ (replied n, s')
        → api.list_org_members id s' ≡ replied current
        → sync_members api id members s' ≡ (replied n, s')
    unfolding sync_members wanted_role
    sync_members-settles s s' n current h e =
        let done = sync_members-role api id laws members d s s' n h in
        let l = laws.listed s' current e in
        let users =
          sync_users_idle api id current members.users 0 s' d
            (λ x r q. ap role_of (sym (l.0 x)) ∙ (done x).0 ∙ ground (arith, q)) in
        let gone =
          remove_if_exclusive_idle api id members.managed_exclusively (member s')
            (emails members.users) current s' l.1
            (λ p x out.
              no_role (member s' x)
                ((done x).0 ∙ ground (arith, p, role_for-contains x members.users out))) in
        elim (Bool-cases (is_empty members.users && not members.managed_exclusively)) [
          | inl p ↦ rw p (ap (λ k. (replied k, s')) (pure-replied (rw p at h)).0)
          | inr p ↦ elim (Bool-cases (id == "")) [
            | inl q ↦ ground (arith, h, p, q)
            | inr q ↦
                let count : 0 + length members.users ≡ n = omega (arith, (done "").1) in
                rw (p, q, e, users, gone) (ap (λ k. (replied k, s')) count)
          ]
        ]
