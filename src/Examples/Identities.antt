-- ===== src/Examples/Identities.antt =====
-- Identities of two targets.
use langfuse_operator.Common.{String, bool_text, true, some, ◌≡◌, ◌↔◌, refl}
use langfuse_operator.Identity.Target.{
  Target, build_migration_identity, normalize_version, postgres_ref_key, click_house_ref_key,
}
use langfuse_operator.Identity.Recorded.{
  identity_version, identity_component, identity_cluster_mode, identity_database, refs_agree,
  migration_up_to_date,
}
use langfuse_operator.Identity.Fields.{IsPlain, fields-build}
use langfuse_operator.Identity.Gate.{up_to_date-build}
use langfuse_operator.Identity.Refs.{IsRef}

-- The database's name holds the separator.
abbrev target : Target
target = record {
  version = "v3.1.0";
  postgres_ref = "secret/pg#url=DATABASE_URL,directUrl=";
  click_house_ref = "managed";
  click_house_db = "a|b";
  click_house_clust = true;
}

target-IsPlain : IsPlain target
unfolding normalize_version
target-IsPlain = record {
  version_bar = refl;
  version_eq = refl;
  postgres_bar = refl;
  click_house_bar = refl;
}

fields-build_example :
    let identity = build_migration_identity target in
    (identity_version identity ≡ normalize_version target.version)
    × (identity_component identity postgres_ref_key ≡ some target.postgres_ref)
    × (identity_component identity click_house_ref_key ≡ some target.click_house_ref)
    × (identity_cluster_mode identity ≡ some (bool_text target.click_house_clust))
    × (identity_database identity ≡ some target.click_house_db)
fields-build_example = fields-build target target-IsPlain

abbrev bumped : Target
bumped = record target { version = "3.1.0" }

bumped-IsPlain : IsPlain bumped
unfolding normalize_version
bumped-IsPlain = record {
  version_bar = refl;
  version_eq = refl;
  postgres_bar = refl;
  click_house_bar = refl;
}

up_to_date-build_example :
    (migration_up_to_date (build_migration_identity target) (build_migration_identity bumped)
      ≡ true)
    ↔ ((normalize_version target.version ≡ normalize_version bumped.version)
        × (refs_agree target.postgres_ref bumped.postgres_ref ≡ true)
        × (refs_agree target.click_house_ref bumped.click_house_ref ≡ true)
        × (target.click_house_clust ≡ bumped.click_house_clust)
        × (target.click_house_db ≡ bumped.click_house_db))
up_to_date-build_example = up_to_date-build target bumped target-IsPlain bumped-IsPlain

abbrev secret_name : String
secret_name = "pg"

abbrev url_key : String
url_key = "url"

abbrev direct_key : String
direct_key = "direct"

plain-IsRef : IsRef "pg" "url" "direct"
plain-IsRef = record {
  name_hash = refl;
  url_comma = refl;
  url_eq = refl;
  key_comma = refl;
  key_eq = refl;
}

other-IsRef : IsRef "pg" "url" "other"
other-IsRef = record {
  name_hash = refl;
  url_comma = refl;
  url_eq = refl;
  key_comma = refl;
  key_eq = refl;
}
