-- ===== src/Identity/Recorded.antt =====
-- What is read back from a recorded identity, and the two comparisons with the desired one:
-- migrationUpToDate and retargetedComponents.
use langfuse_operator.Common.{
  ℕ, String, ◌==◌, ◌<>◌, cut, split, cut_prefix, after_index, quoted, lookup, insert, Bool, true,
  false, not, ◌&&◌, Option, none, some, List, [], ◌∷◌, ◌++◌, only_if, if◌then◌else◌,
}
use langfuse_operator.Identity.Target.{
  cluster_key, postgres_ref_key, click_house_ref_key, database_key,
}

-- The code of the separator `|`.
abbrev pub bar : ℕ
bar = b'|'

unfoldable pub identity_version : String → String
unfolding cut
identity_version identity = (cut bar identity).0

-- The loop over the parts of an identity.
unfoldable pub component_in : List String → String → Option String
unfolding cut_prefix
component_in [] key = none
component_in (part ∷ parts) key =
    let rest = component_in parts key in
    elim (cut_prefix key part) [ some value ↦ some value | none ↦ rest ]

unfoldable pub identity_component : String → String → Option String
unfolding component_in split
identity_component identity key = component_in (split bar identity) key

unfoldable pub identity_cluster_mode : String → Option String
unfolding identity_component
identity_cluster_mode identity = identity_component identity cluster_key

-- The database is the last component, so all behind its marker is the name.
unfoldable pub identity_database : String → Option String
unfolding after_index
identity_database identity = after_index ("|" <> database_key) identity

-- The loop over the mappings of a reference.
ref_keys : List String → List (String × String) → List (String × String)
unfolding cut insert
ref_keys [] keys = keys
ref_keys (mapping ∷ rest) keys =
    let (key, value, found) = cut b'=' mapping in ref_keys rest (insert key value keys)

unfoldable pub split_ref : String → String × List (String × String)
unfolding cut split ref_keys
split_ref ref =
    let (name, mappings, found) = cut b'#' ref in
    if found then (name, ref_keys (split b',' mappings) []) else (name, [])

-- The desired mapping of a key is there and is the recorded one.
unfoldable pub same_mapping : Option String → Option String → Bool
same_mapping none want = true
same_mapping (some was) none = false
same_mapping (some was) (some want) = was == want

-- The loop over the recorded keys. A map has the value that was stored last under a key.
unfoldable pub keys_agree :
    List (String × String) → List (String × String) → List (String × String) → Bool
unfolding same_mapping lookup
keys_agree [] applied desired = true
keys_agree ((key, _) ∷ rest) applied desired =
    same_mapping (lookup key applied) (lookup key desired) && keys_agree rest applied desired

unfoldable pub refs_agree : String → String → Bool
unfolding split_ref keys_agree
refs_agree applied desired =
    let (applied_name, applied_keys) = split_ref applied in
    let (desired_name, desired_keys) = split_ref desired in
    applied_name == desired_name && keys_agree applied_keys applied_keys desired_keys

-- The value of a component that the desired identity may lack.
abbrev pub or_empty : Option String → String
or_empty none = ""
or_empty (some s) = s

-- A component is compared only where the recorded identity carries it.
unfoldable pub agrees : (String → String → Bool) → Option String → Option String → Bool
agrees test none want = true
agrees test (some was) want = test was (or_empty want)

abbrev pub same_text : String → String → Bool
same_text was want = was == want

unfoldable pub migration_up_to_date : String → String → Bool
migration_up_to_date applied desired =
    if applied == ""
    then false
    else if not (identity_version applied == identity_version desired)
    then false
    else agrees refs_agree (identity_component applied postgres_ref_key)
        (identity_component desired postgres_ref_key)
      && (agrees refs_agree (identity_component applied click_house_ref_key)
            (identity_component desired click_house_ref_key)
          && (agrees same_text (identity_cluster_mode applied) (identity_cluster_mode desired)
              && agrees same_text (identity_database applied) (identity_database desired)))

-- One row of the table in retargetedComponents.
unfoldable pub changed :
    String → (String → String → Bool) → Option String → Option String → List String
unfolding agrees quoted
changed field test was want =
    only_if (not (agrees test was want))
      ((field <> " " <> quoted (or_empty was) <> " -> " <> quoted (or_empty want)) ∷ [])

unfoldable pub retargeted_components : String → String → List String
unfolding changed
retargeted_components applied desired =
    if applied == ""
    then []
    else changed "spec.database" refs_agree (identity_component applied postgres_ref_key)
        (identity_component desired postgres_ref_key)
      ++ (changed "spec.clickhouse (connection)" refs_agree
            (identity_component applied click_house_ref_key)
            (identity_component desired click_house_ref_key)
          ++ (changed "spec.clickhouse.cluster.enabled" same_text
                (identity_component applied cluster_key) (identity_component desired cluster_key)
              ++ changed "spec.clickhouse.database" same_text (identity_database applied)
                  (identity_database desired)))
