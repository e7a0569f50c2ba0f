-- ===== src/Organizations/Membership.antt =====
-- What the membership calls of Langfuse promise, and what a synchronisation then achieves.
use langfuse_operator.Common.{
  String, ◌==◌, Bool, true, false, not, ◌&&◌, contains, Option, none, some, List, [], ◌∷◌, ◌≡◌, ◌∙◌,
  refl, ap, arith, eq_iff, eq_refl, Bool-cases, Option-cases, inl, inr, if◌then◌else◌,
}
use langfuse_operator.Api.{OrganizationMemberSpec, OrganizationMembersSpec}
use langfuse_operator.Langfuse.{OrgMember, replied}
use langfuse_operator.Langfuse.Action.{pure, within, bind-replied, within-replied, pure-replied}
use langfuse_operator.Organizations.Api.{OrgApi}
use langfuse_operator.Organizations.Sync.{member_by_email, emails, sync_user}

abbrev pub role_of : Option OrgMember → Option String
role_of none = none
role_of (some m) = some m.role

-- Each entry of the list is the one that its email finds.
abbrev pub AllFound : (String → Option OrgMember) → List OrgMember → Type 0
AllFound find [] = Unit
AllFound find (m ∷ ms) = (find m.email ≡ some m) × AllFound find ms

-- No email stands twice.
abbrev pub distinct : List String → Bool
distinct [] = true
distinct (x ∷ xs) = not (contains x xs) && distinct xs

abbrev pub member_emails : List OrgMember → List String
member_emails [] = []
member_emails (m ∷ ms) = m.email ∷ member_emails ms

-- The membership calls for one organization. A member is known by its email, and an email stands once in the
-- list; adding is promised only for an email that is no member yet.
pub record MemberLaws {S : Type 0} (api : OrgApi S) (id : String) : Type 0 where
  pub member : S → String → Option OrgMember
  pub listed :
      (s : S) (ms : List OrgMember)
      → api.list_org_members id s ≡ replied ms
      → ((e : String) → member s e ≡ member_by_email e ms)
        × AllFound (member s) ms
        × (distinct (member_emails ms) ≡ true)
  pub added :
      (s s' : S) (m : OrgMember) (email role x : String)
      → member s email ≡ none
      → api.add_org_member id email role s ≡ (replied m, s')
      → role_of (member s' x) ≡ (if email == x then some role else role_of (member s x))
  pub added_other :
      (s s' : S) (m : OrgMember) (email role x : String)
      → (email == x) ≡ false
      → api.add_org_member id email role s ≡ (replied m, s')
      → member s' x ≡ member s x
  pub updated :
      (s s' : S) (m : OrgMember) (role x : String)
      → member s m.email ≡ some m
      → api.update_org_member_role id m.id role s ≡ (replied tt, s')
      → member s' x ≡ (if m.email == x then some (record m { role = role }) else member s x)
  pub removed :
      (s s' : S) (m : OrgMember) (x : String)
      → member s m.email ≡ some m
      → api.remove_org_member id m.id s ≡ (replied tt, s')
      → member s' x ≡ (if m.email == x then none else member s x)

-- The role that the spec gives to an email.
unfoldable pub role_for : String → List OrganizationMemberSpec → Option String
role_for x [] = none
role_for x (u ∷ us) = if u.email == x then some u.role else role_for x us

-- The role that the spec wants for an email that has the role `old`.
unfoldable pub wanted_role : OrganizationMembersSpec → String → Option String → Option String
unfolding role_for
wanted_role members x old = elim (role_for x members.users) [
  | some role ↦ some role
  | none ↦ if members.managed_exclusively then none else old
]

pub by_email-email :
    (e : String) (ms : List OrgMember) (m : OrgMember) → member_by_email e ms ≡ some m → m.email ≡ e
unfolding member_by_email
by_email-email e [] m h = cc h
by_email-email e (n ∷ ns) m h = elim (Option-cases (member_by_email e ns)) [
  | inl p ↦ ground (arith, p, h, eq_iff n.email e)
  | inr (x, p) ↦ ground (arith, p, h, by_email-email e ns x p)
]

pub role_for-contains :
    (x : String) (us : List OrganizationMemberSpec)
    → contains x (emails us) ≡ false
    → role_for x us ≡ none
unfolding role_for
role_for-contains x [] h = refl
role_for-contains x (u ∷ us) h =
    ground (arith, eq_iff u.email x, eq_iff x u.email, role_for-contains x us)

pub by_email-none :
    (x : String) (ms : List OrgMember)
    → contains x (member_emails ms) ≡ false
    → member_by_email x ms ≡ none
unfolding member_by_email
by_email-none x [] h = refl
by_email-none x (m ∷ ms) h = ground (arith, eq_iff m.email x, eq_iff x m.email, by_email-none x ms)

module _ {S : Type 0} (api : OrgApi S) (id : String) (laws : MemberLaws api id) where
  open laws use {member}

  -- One desired member, whose entry in the list is still what the server has.
  pub sync_user-role :
      (u : OrganizationMemberSpec) (s s' : S) (o : Option OrgMember)
      → member s u.email ≡ o
      → ((m : OrgMember) → o ≡ some m → m.email ≡ u.email)
      → sync_user api id u o s ≡ (replied tt, s')
      → role_of (member s' u.email) ≡ some u.role
  unfolding sync_user
  sync_user-role u s s' none e same h =
      let call = api.add_org_member id u.email u.role in
      let b = bind-replied (within _ call) (λ _. pure tt) s h in
      let done = within-replied _ call s b.2 in
      rw (← (pure-replied b.3).1)
        (laws.added s b.1 b.0 u.email u.role u.email e done ∙ ground (arith, eq_refl u.email))
  sync_user-role u s s' (some m) e same h = elim (Bool-cases (m.role == u.role)) [
    | inl p ↦
        rw (← (pure-replied (rw p at h)).1) (ap role_of e ∙ ap some ((eq_iff m.role u.role).0 p))
    | inr p ↦
        let done = within-replied _ (api.update_org_member_role id m.id u.role) s (rw p at h) in
        let found = rw (← same m refl) at e in
        ap role_of (laws.updated s s' m u.role u.email found done)
        ∙ ground (arith, same m refl, eq_refl u.email)
  ]

  pub sync_user-other :
      (u : OrganizationMemberSpec) (s s' : S) (o : Option OrgMember) (x : String)
      → member s u.email ≡ o
      → ((m : OrgMember) → o ≡ some m → m.email ≡ u.email)
      → (u.email == x) ≡ false
      → sync_user api id u o s ≡ (replied tt, s')
      → member s' x ≡ member s x
  unfolding sync_user
  sync_user-other u s s' none x e same d h =
      let call = api.add_org_member id u.email u.role in
      let b = bind-replied (within _ call) (λ _. pure tt) s h in
      let done = within-replied _ call s b.2 in
      rw (← (pure-replied b.3).1) (laws.added_other s b.1 b.0 u.email u.role x d done)
  sync_user-other u s s' (some m) x e same d h = elim (Bool-cases (m.role == u.role)) [
    | inl p ↦ rw (← (pure-replied (rw p at h)).1) refl
    | inr p ↦
        let done = within-replied _ (api.update_org_member_role id m.id u.role) s (rw p at h) in
        let found = rw (← same m refl) at e in
        laws.updated s s' m u.role x found done ∙ ground (arith, same m refl, d)
  ]
