-- ===== src/Migration/Reflexive.antt =====
-- A target that was migrated is up to date, and has moved nowhere.
use langfuse_operator.Common.{
  String, ◌==◌, Bool, true, false, Option, none, some, List, [], ◌∷◌, ◌≡◌, refl, ap, arith, eq_iff,
  eq_refl, lookup, ◌<>◌, lacks, lacks_at_sep, Bool-cases, inl, inr,
}
use langfuse_operator.Identity.Target.{
  Target, postgres_ref_key, click_house_ref_key, normalize_version, build_migration_identity,
}
use langfuse_operator.Identity.Fields.{bar-append}
use langfuse_operator.Identity.Recorded.{
  bar, identity_component, identity_cluster_mode, identity_database, identity_version, refs_agree,
  keys_agree, same_mapping, agrees, same_text, migration_up_to_date, split_ref,
}

same_mapping_refl : (o : Option String) → same_mapping o o ≡ true
unfolding same_mapping
same_mapping_refl none = refl
same_mapping_refl (some s) = eq_refl s

keys_agree_refl : (keys all : List (String × String)) → keys_agree keys all all ≡ true
unfolding keys_agree
keys_agree_refl [] all = refl
keys_agree_refl ((k, v) ∷ rest) all =
    ground (arith, same_mapping_refl (lookup k all), keys_agree_refl rest all)

refs_agree_refl : (r : String) → refs_agree r r ≡ true
unfolding refs_agree
refs_agree_refl r =
    ground (arith, eq_refl ((split_ref r).0), keys_agree_refl ((split_ref r).1) ((split_ref r).1))

agrees_refl :
    (test : String → String → Bool)
    → ((s : String) → test s s ≡ true)
    → (o : Option String) → agrees test o o ≡ true
unfolding agrees
agrees_refl test h none = refl
agrees_refl test h (some s) = h s

pub migration_up_to_date_refl : (a : String) → (a == "") ≡ false → migration_up_to_date a a ≡ true
unfolding migration_up_to_date
migration_up_to_date_refl a h = ground (
  arith,
  eq_refl (identity_version a),
  agrees_refl refs_agree refs_agree_refl (identity_component a postgres_ref_key),
  agrees_refl refs_agree refs_agree_refl (identity_component a click_house_ref_key),
  agrees_refl same_text eq_refl (identity_cluster_mode a),
  agrees_refl same_text eq_refl (identity_database a),
)

lacks-bar : (s r : String) → lacks bar (s <> ("|" <> r)) ≡ false
lacks-bar s r = rw (bar-append r) (lacks_at_sep "|" s r)

pub build_migration_identity-nonempty : (t : Target) → (build_migration_identity t == "") ≡ false
unfolding build_migration_identity
build_migration_identity-nonempty t = elim (Bool-cases (build_migration_identity t == "")) [
  | inl e ↦ cc (ap (lacks bar) ((eq_iff _ "").0 e), lacks-bar (normalize_version t.version) _)
  | inr e ↦ e
]
