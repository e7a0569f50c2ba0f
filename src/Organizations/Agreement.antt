-- ===== src/Organizations/Agreement.antt =====
-- What a synchronisation of the members achieves, from the step for one member.
use langfuse_operator.Common.{
  ℕ, ◌+◌, String, ◌==◌, true, false, contains, none, some, List, [], ◌∷◌, length, ◌≡◌, ◌∙◌, refl,
  ap, arith, eq_iff, Bool-cases, inl, inr, if◌then◌else◌,
}
use langfuse_operator.Api.{OrganizationMemberSpec}
use langfuse_operator.Langfuse.{OrgMember, replied}
use langfuse_operator.Langfuse.Action.{within, bind-replied, within-replied, pure-replied}
use langfuse_operator.Organizations.Api.{OrgApi}
use langfuse_operator.Organizations.Sync.{
  member_by_email, emails, sync_user, sync_users, remove_unlisted,
}
use langfuse_operator.Organizations.Membership.{
  role_of, AllFound, distinct, member_emails, MemberLaws, role_for, by_email-email, sync_user-role,
  sync_user-other,
}

module _ {S : Type 0} (api : OrgApi S) (id : String) (laws : MemberLaws api id) where
  open laws use {member}

  -- The entries that the list has for these emails are still what the server has.
  abbrev pub Current : S → List OrgMember → List OrganizationMemberSpec → Type 0
  Current s current [] = Unit
  Current s current (u ∷ us) =
      (member s u.email ≡ member_by_email u.email current) × Current s current us

  pub Current-all :
      (s : S) (current : List OrgMember) (us : List OrganizationMemberSpec)
      → ((e : String) → member s e ≡ member_by_email e current)
      → Current s current us
  Current-all s current [] h = tt
  Current-all s current (u ∷ us) h = (h u.email, Current-all s current us h)

  Current-step :
      (s s' : S) (current : List OrgMember) (e : String) (us : List OrganizationMemberSpec)
      → contains e (emails us) ≡ false
      → ((x : String) → (e == x) ≡ false → member s' x ≡ member s x)
      → Current s current us
      → Current s' current us
  Current-step s s' current e [] d keep c = tt
  Current-step s s' current e (u ∷ us) d keep c = (
    keep u.email (ground (arith, d)) ∙ c.0,
    Current-step s s' current e us (ground (arith, d)) keep c.1,
  )

  module _ (current : List OrgMember) where
    step :
        (u : OrganizationMemberSpec) (s t : S)
        → member s u.email ≡ member_by_email u.email current
        → sync_user api id u (member_by_email u.email current) s ≡ (replied tt, t)
        → (role_of (member t u.email) ≡ some u.role)
          × ((x : String) → (u.email == x) ≡ false → member t x ≡ member s x)
    step u s t e h =
        let same = λ (m : OrgMember) (f : member_by_email u.email current ≡ some m).
          by_email-email u.email current m f in
        (
          sync_user-role api id laws u s t _ e same h,
          λ x d. sync_user-other api id laws u s t _ x e same d h,
        )

    -- The loop leaves every other member as it was.
    pub sync_users-other :
        (us : List OrganizationMemberSpec) (n k : ℕ) (s s' : S)
        → distinct (emails us) ≡ true
        → Current s current us
        → sync_users api id current us n s ≡ (replied k, s')
        → (x : String) → contains x (emails us) ≡ false
        → member s' x ≡ member s x
    unfolding sync_users
    sync_users-other [] n k s s' d c h x out = rw (← (pure-replied h).1) refl
    sync_users-other (u ∷ us) n k s s' d c h x out =
        let b =
          bind-replied (sync_user api id u (member_by_email u.email current))
            (λ _. sync_users api id current us (n + 1)) s h in
        let done = step u s b.1 c.0 b.2 in
        sync_users-other us (n + 1) k b.1 s' (ground (arith, d))
          (Current-step s b.1 current u.email us (ground (arith, d)) done.1 c.1) b.3 x
          (ground (arith, out))
        ∙ done.1 x (ground (arith, out, eq_iff u.email x, eq_iff x u.email))

    -- It gives every listed member its role, and counts them.
    pub sync_users-role :
        (us : List OrganizationMemberSpec) (n k : ℕ) (s s' : S)
        → distinct (emails us) ≡ true
        → Current s current us
        → sync_users api id current us n s ≡ (replied k, s')
        → (x role : String) → role_for x us ≡ some role
        → role_of (member s' x) ≡ some role
    unfolding sync_users role_for
    sync_users-role [] n k s s' d c h x role r = cc r
    sync_users-role (u ∷ us) n k s s' d c h x role r =
        let b =
          bind-replied (sync_user api id u (member_by_email u.email current))
            (λ _. sync_users api id current us (n + 1)) s h in
        let done = step u s b.1 c.0 b.2 in
        let c' = Current-step s b.1 current u.email us (ground (arith, d)) done.1 c.1 in
        elim (Bool-cases (u.email == x)) [
          | inl p ↦
              let same = (eq_iff u.email x).0 p in
              let kept =
                sync_users-other us (n + 1) k b.1 s' (ground (arith, d)) c' b.3 u.email
                  (ground (arith, d)) in
              rw (← same) (ap role_of kept ∙ done.0 ∙ ground (arith, p, r))
          | inr p ↦
              sync_users-role us (n + 1) k b.1 s' (ground (arith, d)) c' b.3 x role
                (ground (arith, p, r))
        ]

    pub sync_users-count :
        (us : List OrganizationMemberSpec) (n k : ℕ) (s s' : S)
        → sync_users api id current us n s ≡ (replied k, s')
        → k ≡ n + length us
    unfolding sync_users
    sync_users-count [] n k s s' h = omega (arith, (pure-replied h).0)
    sync_users-count (u ∷ us) n k s s' h =
        let b =
          bind-replied (sync_user api id u (member_by_email u.email current))
            (λ _. sync_users api id current us (n + 1)) s h in
        omega (arith, sync_users-count us (n + 1) k b.1 s' b.3)

  -- The members of the list that are to go are still what the server has.
  abbrev pub Unlisted : S → List String → List OrgMember → Type 0
  Unlisted s desired [] = Unit
  Unlisted s desired (m ∷ ms) =
      (contains m.email desired ≡ false → member s m.email ≡ some m) × Unlisted s desired ms

  pub Unlisted-found :
      (s s' : S) (desired : List String) (ms : List OrgMember)
      → ((x : String) → contains x desired ≡ false → member s' x ≡ member s x)
      → AllFound (member s) ms
      → Unlisted s' desired ms
  Unlisted-found s s' desired [] keep f = tt
  Unlisted-found s s' desired (m ∷ ms) keep f =
      (λ out. keep m.email out ∙ f.0, Unlisted-found s s' desired ms keep f.1)

  Unlisted-step :
      (s s' : S) (desired : List String) (e : String) (ms : List OrgMember)
      → contains e (member_emails ms) ≡ false
      → ((x : String) → (e == x) ≡ false → member s' x ≡ member s x)
      → Unlisted s desired ms
      → Unlisted s' desired ms
  Unlisted-step s s' desired e [] d keep u = tt
  Unlisted-step s s' desired e (m ∷ ms) d keep u = (
    λ out. keep m.email (ground (arith, d)) ∙ u.0 out,
    Unlisted-step s s' desired e ms (ground (arith, d)) keep u.1,
  )

  pub remove_unlisted-member :
      (desired : List String) (ms : List OrgMember) (s s' : S)
      → distinct (member_emails ms) ≡ true
      → Unlisted s desired ms
      → remove_unlisted api id desired ms s ≡ (replied tt, s')
      → (x : String)
      → member s' x ≡ (
          if contains x desired
          then member s x
          else if contains x (member_emails ms)
          then none
          else member s x)
  unfolding remove_unlisted
  remove_unlisted-member desired [] s s' d u h x = rw (← (pure-replied h).1) (ground arith)
  remove_unlisted-member desired (m ∷ ms) s s' d u h x =
      elim (Bool-cases (contains m.email desired)) [
        | inl p ↦ ground (
          arith,
          p,
          eq_iff x m.email,
          remove_unlisted-member desired ms s s' (ground (arith, d)) u.1 (rw p at h) x,
        )
        | inr p ↦
            let b =
              bind-replied (within _ (api.remove_org_member id m.id))
                (λ _. remove_unlisted api id desired ms) s (rw p at h) in
            let done = within-replied _ (api.remove_org_member id m.id) s b.2 in
            let gone = λ (y : String). laws.removed s b.1 m y (u.0 p) done in
            let rest =
              remove_unlisted-member desired ms b.1 s' (ground (arith, d))
                (Unlisted-step s b.1 desired m.email ms (ground (arith, d))
                  (λ y q. gone y ∙ ground (arith, q)) u.1)
                b.3 x in
            ground (arith, p, rest, gone x, eq_iff x m.email, eq_iff m.email x)
      ]
