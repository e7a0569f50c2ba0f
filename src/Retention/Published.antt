-- ===== src/Retention/Published.antt =====
-- What a pass of the retention controller says of the policies.
use langfuse_operator.Common.{
  OnSome, on_some, if_some, ℕ, suc, String, Bool, true, false, not, ◌&&◌, is_some, is_empty, any,
  take, length, Option, none, some, List, [], ◌≡◌, ◌∙◌, sym, ap, refl, arith, if◌then◌else◌,
}
use mathlib.Core.Path.{subst}
use langfuse_operator.Api.{
  ConditionApi, ConditionStatus, RetentionSpec, StoragePressureSpec, ClickHouseStatus, Instance,
  InstanceStatus, cluster_enabled,
}
use langfuse_operator.Client.{ApiError, Got, found, failed}
use langfuse_operator.Phase.{is_met}
use langfuse_operator.SchemaDrift.Reconcile.{or_new}
use langfuse_operator.Retention.Statements.{build_retention_statements}
use langfuse_operator.Retention.Disks.{NodeDiskUsage}
use langfuse_operator.Retention.Apply.{accepted, apply_statements_stops}
use langfuse_operator.Retention.Rows.{query_disk_usage}
use langfuse_operator.Retention.Reconcile.{
  Answers, retention_of, apply_retention, applied_status, apply_step, with_condition,
  evaluate_storage_pressure, pressure_status, pressure_step, retained, publish, reconcile,
}

abbrev pub applied_flag : Option ClickHouseStatus → Option Bool
applied_flag none = none
applied_flag (some s) = s.retention_applied

-- ClickHouse can be reached and takes every statement.
abbrev pub all_accepted : Answers → List String → Bool
all_accepted ans statements =
    not (is_some ans.connect) && not (any (λ s. is_some (ans.exec s)) statements)

-- The statements that a pass is to send.
abbrev pub sent_to : Answers → List String → List String
sent_to ans statements =
    if is_some ans.connect then [] else take (suc (accepted ans.exec statements)) statements

apply_retention-tells :
    (connect : Option ApiError) (exec : String → Option ApiError) (ss : List String)
    → ((apply_retention connect exec ss).0
        ≡ (if is_some connect then [] else take (suc (accepted exec ss)) ss))
      × (not (is_some (apply_retention connect exec ss).2)
          ≡ (not (is_some connect) && not (any (λ s. is_some (exec s)) ss)))
unfolding apply_retention
apply_retention-tells (some e) exec ss = (refl, refl)
apply_retention-tells none exec ss =
    let (sent, _, fails) = apply_statements_stops exec ss in (sent, ap not fails)

module _ (api : ConditionApi) where
  open api use {Conditions, find}

  -- What a status says of the policies.
  record Says (s : InstanceStatus Conditions) (works : Bool) : Type 0 where
    met : is_met (find s.conditions "RetentionConfigured") ≡ works
    flag : applied_flag s.click_house ≡ some works

  applied_status-Says :
      (s : InstanceStatus Conditions) (generation total applied : ℕ) (error : Option ApiError)
      → Says (applied_status api s generation total applied error) (not (is_some error))
  unfolding applied_status with_condition
  applied_status-Says s generation total applied none = record {
    met = ap is_met (api.find-set s.conditions _ "RetentionConfigured");
    flag = refl;
  }
  applied_status-Says s generation total applied (some e) = record {
    met = ap is_met (api.find-set s.conditions _ "RetentionConfigured");
    flag = refl;
  }

  with_pressure-Says :
      (s : InstanceStatus Conditions) (works : Bool) (generation : ℕ) (c : ConditionStatus)
      (reason message : String)
      → Says s works
      → Says (with_condition api s "StoragePressure" generation c reason message) works
  unfolding with_condition
  with_pressure-Says s works generation c reason message p = record {
    met = ap is_met (api.find-set s.conditions _ "RetentionConfigured") ∙ p.met;
    flag = p.flag;
  }

  kept-flag :
      (o : Option ClickHouseStatus) (works : Bool)
      → applied_flag o ≡ some works
      → (or_new o).retention_applied ≡ some works
  kept-flag none works h = ground arith
  kept-flag (some s) works h = h

  evaluate-Says :
      (s : InstanceStatus Conditions) (works : Bool) (generation : ℕ) (p : StoragePressureSpec)
      (disks : Got (List NodeDiskUsage))
      → Says s works
      → Says (evaluate_storage_pressure api s generation p disks) works
  unfolding evaluate_storage_pressure pressure_status
  evaluate-Says s works generation p (failed e) q = with_pressure-Says s works generation _ _ _ q
  evaluate-Says s works generation p (found nodes) q =
      with_pressure-Says _ works generation _ _ _
        (record { met = q.met; flag = kept-flag s.click_house works q.flag })

  choose :
      (b : Bool) {s t : InstanceStatus Conditions} {works : Bool}
      → Says s works
      → Says t works
      → Says (if b then s else t) works
  choose true p q = p
  choose false p q = q

  pressure_step-Says :
      (s : InstanceStatus Conditions) (works : Bool) (generation : ℕ)
      (o : Option StoragePressureSpec) (disks : Got (List NodeDiskUsage))
      → Says s works
      → Says (pressure_step api s generation o disks) works
  unfolding pressure_step
  pressure_step-Says s works generation none disks q = q
  pressure_step-Says s works generation (some p) disks q =
      choose p.enabled (evaluate-Says s works generation p disks q) q

  retained-Says :
      (i : Instance Conditions) (r : RetentionSpec) (ans : Answers)
      → is_empty (build_retention_statements i.spec.click_house r) ≡ false
      → ((retained api i (some r) ans).0
          ≡ sent_to ans (build_retention_statements i.spec.click_house r))
        × Says
            (retained api i (some r) ans).1
            (all_accepted ans (build_retention_statements i.spec.click_house r))
  unfolding retained apply_step
  retained-Says i r ans some_statement =
      let ss = build_retention_statements i.spec.click_house r in
      let (sent, works) = apply_retention-tells ans.connect ans.exec ss in
      let outcome = apply_retention ans.connect ans.exec ss in
      rw some_statement (
        sent,
        pressure_step-Says _ _ i.generation r.storage_pressure
            (query_disk_usage (cluster_enabled i.spec.click_house) ans.disks)
            (subst (Says (applied_status api i.status i.generation (length ss) outcome.1 outcome.2))
              works (applied_status-Says i.status i.generation (length ss) outcome.1 outcome.2)),
      )

  module _ (equal : InstanceStatus Conditions → InstanceStatus Conditions → Bool) where
    publish-tells :
        (i : Instance Conditions) (out : List String × InstanceStatus Conditions)
        (answer : Option ApiError) (P : InstanceStatus Conditions → Type 0)
        → P out.1
        → ((publish api equal i out answer).sent ≡ out.0)
          × OnSome (publish api equal i out answer).written P
    unfolding publish
    publish-tells i out answer P p =
        (refl, on_some _ P (λ st h. subst P (sym (if_some _ out.1 st h)) p))

    reconcile-publish :
        (i : Instance Conditions) (r : RetentionSpec) (ans : Answers)
        → i.deleting ≡ false
        → retention_of i.spec.click_house ≡ some r
        → reconcile api equal (found i) ans
          ≡ publish api equal i (retained api i (some r) ans) ans.write
    unfolding reconcile
    reconcile-publish i r ans alive configured = simp (alive, configured) refl

    -- A live instance whose retention policy gives some table a TTL: the statements go out in order up to the
    -- first that ClickHouse refuses, none if it cannot be reached. A status that is written says that the
    -- policies are applied, in its condition and in its flag, exactly if it was reached and took all of
    -- them, whatever the disks answer.
    pub reconcile-retention :
        (i : Instance Conditions) (r : RetentionSpec) (ans : Answers)
        → i.deleting ≡ false
        → retention_of i.spec.click_house ≡ some r
        → is_empty (build_retention_statements i.spec.click_house r) ≡ false
        → let statements = build_retention_statements i.spec.click_house r in
          ((reconcile api equal (found i) ans).sent ≡ sent_to ans statements)
          × OnSome (reconcile api equal (found i) ans).written (λ st.
            (is_met (find st.conditions "RetentionConfigured") ≡ all_accepted ans statements)
            × (applied_flag st.click_house ≡ some (all_accepted ans statements)))
    reconcile-retention i r ans alive configured some_statement =
        let statements = build_retention_statements i.spec.click_house r in
        let (sent, says) = retained-Says i r ans some_statement in
        let (same, told) =
          publish-tells i (retained api i (some r) ans) ans.write
            (λ st.
              (is_met (find st.conditions "RetentionConfigured") ≡ all_accepted ans statements)
              × (applied_flag st.click_house ≡ some (all_accepted ans statements)))
            (says.met, says.flag) in
        rw (reconcile-publish i r ans alive configured) (same ∙ sent, told)
