-- ===== src/SchemaDrift/Tables.antt =====
-- What a check tells.
use langfuse_operator.Common.{
  is_empty, if_some, ℕ, ◌*◌, String, ◌==◌, trim_space, Bool, true, false, not, ◌&&◌, contains,
  contains-append, only_if, map, Option, none, some, List, [], ◌∷◌, ◌≡◌, ◌∙◌, ap, refl, arith,
  eq_iff, eq_refl, Bool-cases, inl, inr,
}
use langfuse_operator.Api.{ConditionApi, ClickHouseStatus, Instance, InstanceStatus}
use langfuse_operator.Client.{ApiError, found, failed}
use langfuse_operator.Phase.{is_met}
use langfuse_operator.SchemaDrift.Reconcile.{
  expected_click_house_tables, missing_of, find_missing_tables, drift_of, is_enabled, drift_status,
  send_status, reconcile, or_new, check_interval,
}

-- The tables that are reported are exactly the expected ones that the answer lacks.
pub contains-missing_of :
    (t : String) (expected present : List String)
    → contains t (missing_of expected present) ≡ (contains t expected && not (contains t present))
unfolding missing_of
contains-missing_of t [] present = refl
contains-missing_of t (e ∷ es) present =
    contains-append t (only_if (not (contains e present)) (e ∷ [])) (missing_of es present)
    ∙ elim (Bool-cases (t == e)) [
      | inl p ↦ rw ((eq_iff t e).0 p) (ground (arith, eq_refl e, contains-missing_of e es present))
      | inr p ↦ ground (arith, p, contains-missing_of t es present)
    ]

-- Every table of the list is there.
abbrev pub all_in : List String → List String → Bool
all_in [] present = true
all_in (t ∷ ts) present = contains t present && all_in ts present

is_empty-missing :
    (expected present : List String)
    → is_empty (missing_of expected present) ≡ all_in expected present
unfolding missing_of
is_empty-missing [] present = refl
is_empty-missing (t ∷ ts) present = ground (arith, is_empty-missing ts present)

abbrev pub drift_flag : Option ClickHouseStatus → Option Bool
drift_flag none = none
drift_flag (some s) = s.schema_drift

kept_flag : (o : Option ClickHouseStatus) → drift_flag (some (or_new o)) ≡ drift_flag o
kept_flag none = refl
kept_flag (some s) = refl

module _ (api : ConditionApi) where
  open api use {Conditions, find}

  told :
      (i : Instance Conditions) (missing : List String)
      → let s = drift_status api i (found missing) in
        (is_met (find s.conditions "SchemaDriftChecked") ≡ is_empty missing)
        × (drift_flag s.click_house ≡ some (not (is_empty missing)))
  unfolding drift_status
  told i [] = (ap is_met (api.find-set i.status.conditions _ "SchemaDriftChecked") ∙ refl, refl)
  told i (t ∷ ts) =
      (ap is_met (api.find-set i.status.conditions _ "SchemaDriftChecked") ∙ refl, refl)

  unknown :
      (i : Instance Conditions) (e : ApiError)
      → let s = drift_status api i (failed e) in
        (is_met (find s.conditions "SchemaDriftChecked") ≡ false)
        × (drift_flag s.click_house ≡ drift_flag i.status.click_house)
  unfolding drift_status
  unknown i e = (
    ap is_met (api.find-set i.status.conditions _ "SchemaDriftChecked") ∙ refl,
    kept_flag i.status.click_house,
  )

  module _ (equal : InstanceStatus Conditions → InstanceStatus Conditions → Bool) where
    sends :
        (i : Instance Conditions) (s t : InstanceStatus Conditions) (answer : Option ApiError)
        (n : ℕ)
        → (send_status api equal i s answer n).written ≡ some t
        → t ≡ s
    unfolding send_status
    sends i s t answer n h = if_some _ s t h

    -- A pass over a live instance with the check enabled, which was answered: the status that it writes says
    -- that the schema was checked exactly if every expected table is among the trimmed rows, and its drift
    -- flag says the opposite.
    pub reconcile-drift :
        (i : Instance Conditions) (rows : List String) (answer : Option ApiError)
        {s : InstanceStatus Conditions}
        → i.deleting ≡ false
        → is_enabled (drift_of i.spec.click_house) ≡ true
        → (reconcile api equal (found i) (found rows) answer).written ≡ some s
        → let full = all_in expected_click_house_tables (map trim_space rows) in
          (is_met (find s.conditions "SchemaDriftChecked") ≡ full)
          × (drift_flag s.click_house ≡ some (not full))
    unfolding reconcile find_missing_tables
    reconcile-drift i rows answer live on h =
        let present = map trim_space rows in
        let missing = missing_of expected_click_house_tables present in
        let seconds = check_interval (drift_of i.spec.click_house) * 60 in
        let p =
          sends i (drift_status api i (found missing)) _ answer seconds (rw (on, live) at h) in
        let t = told i missing in
        let e = is_empty-missing expected_click_house_tables present in
        rw p (t.0 ∙ e, t.1 ∙ ap (λ b. some (not b)) e)

    -- Where the query fails, the status that is written does not say that the schema was checked, and keeps
    -- the drift flag that it had.
    pub reconcile_unread :
        (i : Instance Conditions) (e : ApiError) (answer : Option ApiError)
        {s : InstanceStatus Conditions}
        → i.deleting ≡ false
        → is_enabled (drift_of i.spec.click_house) ≡ true
        → (reconcile api equal (found i) (failed e) answer).written ≡ some s
        → (is_met (find s.conditions "SchemaDriftChecked") ≡ false)
          × (drift_flag s.click_house ≡ drift_flag i.status.click_house)
    unfolding reconcile find_missing_tables
    reconcile_unread i e answer live on h =
        let seconds = check_interval (drift_of i.spec.click_house) * 60 in
        let p = sends i (drift_status api i (failed e)) _ answer seconds (rw (on, live) at h) in
        let u = unknown i e in rw p (u.0, u.1)
