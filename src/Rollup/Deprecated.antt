-- ===== src/Rollup/Deprecated.antt =====
-- What the Deprecated condition says.
use langfuse_operator.Common.{
  is_empty, ℕ, String, ◌==◌, false, not, ◌||◌, List, [], ◌∷◌, ◌≡◌, ◌∙◌, ap, arith,
}
use langfuse_operator.Api.{ConditionApi, Instance, InstanceSpec}
use langfuse_operator.Phase.{is_met}
use langfuse_operator.Rollup.Update.{
  deprecated_fields, set_deprecation_condition, flag_deprecated, managed_click_house, managed_redis,
  service_monitor,
}

deprecated_fields-empty :
    (s : InstanceSpec)
    → not (is_empty (deprecated_fields s)) ≡ (
        managed_click_house s.click_house
        || (managed_redis s.redis || service_monitor s.observability))
unfolding deprecated_fields
deprecated_fields-empty s = ground arith

module _ (api : ConditionApi) where
  open api use {Conditions, find}

  flag_deprecated-find :
      (cs : Conditions) (generation : ℕ) (fields : List String) (t : String)
      → (is_met (find (flag_deprecated api cs generation fields) "Deprecated")
          ≡ not (is_empty fields))
        × (("Deprecated" == t) ≡ false
            → find (flag_deprecated api cs generation fields) t ≡ find cs t)
  unfolding flag_deprecated
  flag_deprecated-find cs generation [] t = (
    ap is_met (api.find-remove cs "Deprecated" "Deprecated"),
    λ h. api.find-remove cs "Deprecated" t ∙ ground (arith, h),
  )
  flag_deprecated-find cs generation (f ∷ fs) t =
      (ap is_met (api.find-set cs _ "Deprecated"), λ h. api.find-set cs _ t ∙ ground (arith, h))

  -- Behind the deprecation check the condition stands exactly when the spec uses a managed ClickHouse, a managed
  -- Redis or a ServiceMonitor, whatever it said before, and no other condition is touched.
  pub set_deprecation_condition-find :
      (i : Instance Conditions) (t : String)
      → ("Deprecated" == t) ≡ false
      → (is_met (find (set_deprecation_condition api i) "Deprecated") ≡ (
          managed_click_house i.spec.click_house
          || (managed_redis i.spec.redis || service_monitor i.spec.observability)))
        × (find (set_deprecation_condition api i) t ≡ find i.status.conditions t)
  unfolding set_deprecation_condition
  set_deprecation_condition-find i t other =
      let (told, others) =
        flag_deprecated-find i.status.conditions i.generation (deprecated_fields i.spec) t in
      (told ∙ deprecated_fields-empty i.spec, others other)
