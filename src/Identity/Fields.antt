-- ===== src/Identity/Fields.antt =====
-- Every component of a target is read back from its identity.
use text.Mathlib.TextLemmas.{nil-append, cons-append, append_assoc}
use langfuse_operator.Common.{
  String, ◌<>◌, bool_text, split, after_index, lacks, clash, Bool, true, false, some, List, ◌∷◌,
  ◌≡◌, refl, ap, ◌∙◌, arith, cut_prefix_self, cut_prefix-clash, cut_prefix-lacks, lacks-append,
  split_at_sep, cut_at_sep, after_index_skip, after_index-clash, after_index_here,
}
use langfuse_operator.Identity.Target.{
  Target, normalize_version, build_migration_identity, cluster_key, postgres_ref_key,
  click_house_ref_key, database_key,
}
use langfuse_operator.Identity.Recorded.{
  bar, identity_version, component_in, identity_component, identity_cluster_mode, identity_database,
}

-- What Kubernetes guarantees of the names: an image tag has no `|` and no `=`, and neither the name of a
-- Secret or cluster nor a key of a Secret has a `|`. The database name is free.
pub record IsPlain (t : Target) : Type 0 where
  pub version_bar : lacks bar (normalize_version t.version) ≡ true
  pub version_eq : lacks b'=' (normalize_version t.version) ≡ true
  pub postgres_bar : lacks bar t.postgres_ref ≡ true
  pub click_house_bar : lacks bar t.click_house_ref ≡ true

pub bar-append : (x : String) → "|" <> x ≡ String.◌∷◌ "|" x
bar-append x = cons-append "|" "" x ∙ ap (String.◌∷◌ "|") (nil-append x)

split_segment :
    (key ref rest : String)
    → lacks bar key ≡ true
    → lacks bar ref ≡ true
    → split bar (key <> (ref <> ("|" <> rest))) ≡ (key <> ref) ∷ split bar rest
split_segment key ref rest k r =
    rw (bar-append rest, ← append_assoc key ref (String.◌∷◌ "|" rest))
      (split_at_sep "|" (key <> ref) rest (lacks-append bar key ref k r))

split_version :
    (v rest : String) → lacks bar v ≡ true → split bar (v <> ("|" <> rest)) ≡ v ∷ split bar rest
split_version v rest k = rw (bar-append rest) (split_at_sep "|" v rest k)

bool_text-lacks : (b : Bool) → lacks bar (bool_text b) ≡ true
unfolding bool_text
bool_text-lacks true = refl
bool_text-lacks false = refl

component_here :
    (key x : String) (parts : List String) → component_in ((key <> x) ∷ parts) key ≡ some x
unfolding component_in
component_here key x parts = ground (arith, cut_prefix_self key x)

component_skip :
    (key other x : String) (parts : List String)
    → clash key other ≡ true
    → component_in ((other <> x) ∷ parts) key ≡ component_in parts key
unfolding component_in
component_skip key other x parts h = ground (arith, cut_prefix-clash key other x h)

skip_segment :
    (key ref rest : String)
    → clash database_key key ≡ true
    → lacks bar key ≡ true
    → lacks bar ref ≡ true
    → after_index ("|" <> database_key) ("|" <> (key <> (ref <> rest)))
      ≡ after_index ("|" <> database_key) rest
skip_segment key ref rest c k r = rw (bar-append (key <> (ref <> rest))) (
    after_index-clash "|" database_key key (ref <> rest) c
    ∙ after_index_skip "|" database_key key (ref <> rest) k
    ∙ after_index_skip "|" database_key ref rest r)

component-split :
    (identity key : String)
    → identity_component identity key ≡ component_in (split bar identity) key
unfolding identity_component
component-split identity key = refl

cluster-split :
    (identity : String)
    → identity_cluster_mode identity ≡ component_in (split bar identity) cluster_key
unfolding identity_cluster_mode
cluster-split identity = refl

module _ (t : Target) (p : IsPlain t) where
  -- The parts before the database.
  split-build :
      split bar (build_migration_identity t)
      ≡ normalize_version t.version
        ∷ (postgres_ref_key <> t.postgres_ref)
        ∷ (click_house_ref_key <> t.click_house_ref)
        ∷ (cluster_key <> bool_text t.click_house_clust)
        ∷ split bar (database_key <> t.click_house_db)
  unfolding build_migration_identity
  split-build =
      split_version (normalize_version t.version) _ p.version_bar
      ∙ ap (λ l. normalize_version t.version ∷ l)
          (split_segment postgres_ref_key t.postgres_ref _ refl p.postgres_bar
            ∙ ap (λ l. (postgres_ref_key <> t.postgres_ref) ∷ l)
                (split_segment click_house_ref_key t.click_house_ref _ refl p.click_house_bar
                  ∙ ap (λ l. (click_house_ref_key <> t.click_house_ref) ∷ l)
                      (split_segment cluster_key (bool_text t.click_house_clust) _ refl
                        (bool_text-lacks t.click_house_clust))))

  component-version :
      (key : String) (parts : List String)
      → lacks b'=' key ≡ false
      → component_in (normalize_version t.version ∷ parts) key ≡ component_in parts key
  unfolding component_in
  component-version key parts k =
      ground (arith, cut_prefix-lacks b'=' key (normalize_version t.version) k p.version_eq)

  version-build : identity_version (build_migration_identity t) ≡ normalize_version t.version
  unfolding identity_version build_migration_identity
  version-build =
      rw (bar-append (postgres_ref_key <> _))
        (ap (λ r. r.0) (cut_at_sep "|" (normalize_version t.version) _ p.version_bar))

  postgres-build :
      identity_component (build_migration_identity t) postgres_ref_key ≡ some t.postgres_ref
  postgres-build =
      rw (component-split (build_migration_identity t) postgres_ref_key, split-build)
        (component-version postgres_ref_key _ refl
          ∙ component_here postgres_ref_key t.postgres_ref _)

  click_house-build :
      identity_component (build_migration_identity t) click_house_ref_key ≡ some t.click_house_ref
  click_house-build =
      rw (component-split (build_migration_identity t) click_house_ref_key, split-build)
        (component-version click_house_ref_key _ refl
          ∙ component_skip click_house_ref_key postgres_ref_key t.postgres_ref _ refl
          ∙ component_here click_house_ref_key t.click_house_ref _)

  cluster-build :
      identity_cluster_mode (build_migration_identity t) ≡ some (bool_text t.click_house_clust)
  cluster-build =
      rw (cluster-split (build_migration_identity t), split-build)
        (component-version cluster_key _ refl
          ∙ component_skip cluster_key postgres_ref_key t.postgres_ref _ refl
          ∙ component_skip cluster_key click_house_ref_key t.click_house_ref _ refl
          ∙ component_here cluster_key (bool_text t.click_house_clust) _)

  database-build : identity_database (build_migration_identity t) ≡ some t.click_house_db
  unfolding identity_database build_migration_identity
  database-build =
      after_index_skip "|" database_key (normalize_version t.version) _ p.version_bar
      ∙ skip_segment postgres_ref_key t.postgres_ref _ refl refl p.postgres_bar
      ∙ skip_segment click_house_ref_key t.click_house_ref _ refl refl p.click_house_bar
      ∙ skip_segment cluster_key (bool_text t.click_house_clust) _ refl refl
          (bool_text-lacks t.click_house_clust)
      ∙ rw (bar-append (database_key <> t.click_house_db))
          (after_index_here "|" database_key t.click_house_db)

  -- Round trip: the version, both references, the clustering mode and the database of a target are
  -- read back from its identity, whatever the database is called.
  pub fields-build :
      let identity = build_migration_identity t in
      (identity_version identity ≡ normalize_version t.version)
      × (identity_component identity postgres_ref_key ≡ some t.postgres_ref)
      × (identity_component identity click_house_ref_key ≡ some t.click_house_ref)
      × (identity_cluster_mode identity ≡ some (bool_text t.click_house_clust))
      × (identity_database identity ≡ some t.click_house_db)
  fields-build = (version-build, postgres-build, click_house-build, cluster-build, database-build)
