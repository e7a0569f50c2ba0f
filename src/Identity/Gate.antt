-- ===== src/Identity/Gate.antt =====
-- When an applied identity covers the desired target, and what counts as a move to another datastore.
use langfuse_operator.Common.{
  String, ◌==◌, bool_text, Bool, true, false, not, ◌&&◌, none, [], ◌∷◌, ◌++◌, ◌≡◌, ◌↔◌, refl, ap,
  arith, eq_iff, Bool-cases, inl, inr, only_if,
}
use langfuse_operator.Identity.Target.{
  Target, normalize_version, build_migration_identity, cluster_key, postgres_ref_key,
  click_house_ref_key,
}
use langfuse_operator.Identity.Recorded.{
  identity_version, identity_component, identity_cluster_mode, identity_database, refs_agree,
  same_text, agrees, changed, migration_up_to_date, retargeted_components,
}
use langfuse_operator.Identity.Fields.{IsPlain, fields-build}

-- Four rows of the table: no row is reported exactly when the four comparisons hold.
rows-nil :
    (a b c d : Bool) (p q r s : String)
    → (only_if (not a) (p ∷ [])
          ++ (only_if (not b) (q ∷ []) ++ (only_if (not c) (r ∷ []) ++ only_if (not d) (s ∷ [])))
        ≡ [])
      ↔ ((a && (b && (c && d))) ≡ true)
rows-nil a b c d p q r s = (ground arith, ground arith)

-- An identity that was recorded is up to date exactly when its version is the desired one and no
-- component counts as retargeted: past both tests, only a new version is left to migrate.
pub up_to_date_iff :
    (applied desired : String)
    → (applied == "") ≡ false
    → (migration_up_to_date applied desired ≡ true) ↔ (
        (identity_version applied ≡ identity_version desired)
        × (retargeted_components applied desired ≡ []))
unfolding migration_up_to_date retargeted_components changed identity_cluster_mode
up_to_date_iff applied desired ne =
    let rows =
      rows-nil
        (agrees refs_agree (identity_component applied postgres_ref_key)
          (identity_component desired postgres_ref_key))
        (agrees refs_agree (identity_component applied click_house_ref_key)
          (identity_component desired click_house_ref_key))
        (agrees same_text (identity_component applied cluster_key)
          (identity_component desired cluster_key))
        (agrees same_text (identity_database applied) (identity_database desired)) _ _ _ _ in
    let versions = eq_iff (identity_version applied) (identity_version desired) in
    elim (Bool-cases (identity_version applied == identity_version desired)) [
      | inl e ↦ rw (ne, e) (λ h. (versions.0 e, rows.1 h), λ h. rows.0 h.1)
      | inr e ↦ rw (ne, e) (λ h. cc, λ h. cc (versions.1 h.0))
    ]

no_database : identity_database "" ≡ none
unfolding identity_database
no_database = refl

bool_text-eq : (b c : Bool) → ((bool_text b == bool_text c) ≡ true) ↔ (b ≡ c)
unfolding bool_text
bool_text-eq true true = (λ h. refl, λ h. refl)
bool_text-eq true false = (λ h. cc, λ h. cc)
bool_text-eq false true = (λ h. cc, λ h. cc)
bool_text-eq false false = (λ h. refl, λ h. refl)

nonempty-build : (t : Target) → IsPlain t → (build_migration_identity t == "") ≡ false
nonempty-build t p = elim (Bool-cases (build_migration_identity t == "")) [
  | inl e ↦ cc (ap identity_database ((eq_iff _ "").0 e), no_database, (fields-build t p).4)
  | inr e ↦ e
]

-- Between targets whose names are plain: the recorded target covers the desired one exactly when the
-- versions agree up to a leading v, both references agree, and clustering and database are the same.
pub up_to_date-build :
    (t u : Target)
    → IsPlain t
    → IsPlain u
    → (migration_up_to_date (build_migration_identity t) (build_migration_identity u) ≡ true) ↔ (
        (normalize_version t.version ≡ normalize_version u.version)
        × (refs_agree t.postgres_ref u.postgres_ref ≡ true)
        × (refs_agree t.click_house_ref u.click_house_ref ≡ true)
        × (t.click_house_clust ≡ u.click_house_clust)
        × (t.click_house_db ≡ u.click_house_db))
unfolding migration_up_to_date agrees
up_to_date-build t u p q =
    let f = fields-build t p in
    let g = fields-build u q in
    rw (nonempty-build t p, f.0, g.0, f.1, g.1, f.2, g.2, f.3, g.3, f.4, g.4)
      (
        ground (
          arith,
          eq_iff (normalize_version t.version) (normalize_version u.version),
          eq_iff t.click_house_db u.click_house_db,
          bool_text-eq t.click_house_clust u.click_house_clust,
        ),
        ground (
          arith,
          eq_iff (normalize_version t.version) (normalize_version u.version),
          eq_iff t.click_house_db u.click_house_db,
          bool_text-eq t.click_house_clust u.click_house_clust,
        ),
      )
