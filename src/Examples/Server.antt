-- ===== src/Examples/Server.antt =====
-- A Langfuse instance with one organization, whose state is its members with their roles.
use langfuse_operator.Common.{
  String, ◌==◌, true, false, contains, Option, none, some, List, [], ◌∷◌, ◌≡◌, ◌∙◌, refl, ap, arith,
  eq_iff, eq_refl, Bool-cases, inl, inr, if◌then◌else◌,
}
use langfuse_operator.Langfuse.{Organization, OrgMember, failure, Reply, replied, refused}
use langfuse_operator.Langfuse.Action.{pure, pure-replied}
use langfuse_operator.Organizations.Api.{OrgApi}
use langfuse_operator.Organizations.Sync.{member_by_email}
use langfuse_operator.Organizations.Membership.{
  role_of, AllFound, distinct, member_emails, MemberLaws, by_email-none,
}

abbrev pub Roles : Type 0
Roles = List (String × String)

-- The email serves as the identifier.
abbrev pub entry : String → String → OrgMember
entry email role = record { id = email; email = email; role = role }

abbrev pub find : Roles → String → Option OrgMember
find [] e = none
find ((k, r) ∷ s) e = if k == e then some (entry k r) else find s e

abbrev pub entries : Roles → List OrgMember
entries [] = []
entries ((k, r) ∷ s) = entry k r ∷ entries s

unfoldable pub set_role : String → String → Roles → Roles
set_role id role [] = []
set_role id role ((k, r) ∷ s) = (k, if k == id then role else r) ∷ set_role id role s

unfoldable pub remove : String → Roles → Roles
remove id [] = []
remove id ((k, r) ∷ s) = if k == id then remove id s else (k, r) ∷ remove id s

abbrev demo_organization : Organization
demo_organization = record { id = "o1"; name = "Demo" }

unfoldable pub listing : Roles → Reply (List OrgMember)
listing s =
    if distinct (member_emails (entries s))
    then replied (entries s)
    else refused (failure "an email stands twice")

abbrev pub instance_api : OrgApi Roles
instance_api = record {
  list_organizations = λ s. replied (demo_organization ∷ []);
  get_organization = λ id s.
      if id == "o1" then replied demo_organization else refused (failure "API returned status 404");
  create_organization = λ name. pure (record { id = "o2"; name = name });
  update_organization = λ id name. pure (record { id = id; name = name });
  delete_organization = λ id. pure tt;
  list_org_members = λ id s. listing s;
  add_org_member = λ id email role s. (replied (entry email role), (email, role) ∷ s);
  update_org_member_role = λ id member role s. (replied tt, set_role member role s);
  remove_org_member = λ id member s. (replied tt, remove member s);
  create_organization_api_key =
      λ id note. pure (record { id = "k"; public_key = "pk"; secret_key = "sk" });
}

pub find-entry :
    (s : Roles) (e : String) (m : OrgMember) → find s e ≡ some m → (m.id ≡ e) × (m.email ≡ e)
find-entry [] e m h = cc h
find-entry ((k, r) ∷ s) e m h = ground (arith, eq_iff k e, find-entry s e m)

abbrev with_role : String → Option OrgMember → Option OrgMember
with_role role none = none
with_role role (some m) = some (record m { role = role })

find-set_role :
    (s : Roles) (id role x : String)
    → find (set_role id role s) x ≡ (if id == x then with_role role (find s x) else find s x)
unfolding set_role
find-set_role [] id role x = ground arith
find-set_role ((k, r) ∷ s) id role x =
    ground (arith, find-set_role s id role x, eq_iff k id, eq_iff k x, eq_iff id x)

pub find-updated :
    (s : Roles) (m : OrgMember) (role x : String)
    → find s m.email ≡ some m
    → find (set_role m.id role s) x
      ≡ (if m.email == x then some (record m { role = role }) else find s x)
find-updated s m role x h =
    find-set_role s m.id role x
    ∙ ground (arith, find-entry s m.email m h, eq_iff m.id x, eq_iff m.email x, h)

find-remove :
    (s : Roles) (id x : String) → find (remove id s) x ≡ (if id == x then none else find s x)
unfolding remove
find-remove [] id x = ground arith
find-remove ((k, r) ∷ s) id x =
    ground (arith, find-remove s id x, eq_iff k id, eq_iff k x, eq_iff id x)

find-listed :
    (s : Roles) (e : String)
    → distinct (member_emails (entries s)) ≡ true
    → find s e ≡ member_by_email e (entries s)
unfolding member_by_email
find-listed [] e d = refl
find-listed ((k, r) ∷ s) e d =
    ground (arith, find-listed s e, eq_iff k e, by_email-none k (entries s))

AllFound-entries :
    (find' : String → Option OrgMember) (s : Roles)
    → ((e : String)
        → contains e (member_emails (entries s)) ≡ true
        → find' e ≡ member_by_email e (entries s))
    → distinct (member_emails (entries s)) ≡ true
    → AllFound find' (entries s)
unfolding member_by_email
AllFound-entries find' [] h d = tt
AllFound-entries find' ((k, r) ∷ s) h d = (
  h k (ground (arith, eq_refl k)) ∙ ground (arith, by_email-none k (entries s), eq_refl k),
  AllFound-entries find' s (λ e m. h e (ground (arith, m)) ∙ ground (arith, eq_iff k e))
      (ground (arith, d)),
)

pub found-listed :
    (s : Roles) (ms : List OrgMember)
    → listing s ≡ replied ms
    → ((e : String) → find s e ≡ member_by_email e ms)
      × AllFound (find s) ms
      × (distinct (member_emails ms) ≡ true)
unfolding listing
found-listed s ms h = elim (Bool-cases (distinct (member_emails (entries s)))) [
  | inl d ↦
      let same : entries s ≡ ms = cc (rw d at h) in
      rw (← same)
        (λ e. find-listed s e d, AllFound-entries (find s) s (λ e m. find-listed s e d) d, d)
  | inr d ↦ cc (rw d at h)
]

added_lem :
    (s s' : Roles) (m : OrgMember) (email role x : String)
    → instance_api.add_org_member "o1" email role s ≡ (replied m, s')
    → find s' x ≡ (if email == x then some (entry email role) else find s x)
added_lem s s' m email role x h = rw (← (pure-replied h).1) refl

pub added-role :
    (s s' : Roles) (m : OrgMember) (email role x : String)
    → instance_api.add_org_member "o1" email role s ≡ (replied m, s')
    → role_of (find s' x) ≡ (if email == x then some role else role_of (find s x))
added-role s s' m email role x h = ap role_of (added_lem s s' m email role x h) ∙ ground arith

pub added-other :
    (s s' : Roles) (m : OrgMember) (email role x : String)
    → (email == x) ≡ false
    → instance_api.add_org_member "o1" email role s ≡ (replied m, s')
    → find s' x ≡ find s x
added-other s s' m email role x d h = added_lem s s' m email role x h ∙ ground (arith, d)

pub find-removed :
    (s : Roles) (m : OrgMember) (x : String)
    → find s m.email ≡ some m
    → find (remove m.id s) x ≡ (if m.email == x then none else find s x)
find-removed s m x f = find-remove s m.id x ∙ ground (arith, find-entry s m.email m f)

abbrev pub instance_laws : (id : String) → MemberLaws instance_api id
instance_laws id = record {
  member = find;
  listed = found-listed;
  added = λ s s' m email role x n h. added-role s s' m email role x h;
  added_other = added-other;
  updated = λ s s' m role x f h. rw (← (pure-replied h).1) (find-updated s m role x f);
  removed = λ s s' m x f h. rw (← (pure-replied h).1) (find-removed s m x f);
}
