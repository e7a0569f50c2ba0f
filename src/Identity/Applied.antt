-- ===== src/Identity/Applied.antt =====
-- What an instance's status says of its last migration: appliedMigrationIdentity and
-- legacyBaselineIdentity; missingClickHouseMigrationKeys.
use langfuse_operator.Common.{
  String, ◌==◌, ◌<>◌, text_at, bool_text, false, not, Option, none, some, List, [], ◌∷◌, ◌++◌,
  only_if, if◌then◌else◌,
}
use langfuse_operator.Api.{
  Instance, MigrationStatus, DatabaseStatus, ClickHouseSpec, ExternalClickHouseSpec,
}
use langfuse_operator.Identity.Target.{
  normalize_version, cluster_key, database_key, default_click_house_database,
}
use langfuse_operator.Identity.Recorded.{migration_up_to_date}

-- The identity that a status records in full, "" if none.
unfoldable pub recorded_identity : Option MigrationStatus → String
recorded_identity none = ""
recorded_identity (some m) = m.applied_identity

legacy_identity : Option DatabaseStatus → String
unfolding normalize_version bool_text
legacy_identity none = ""
legacy_identity (some db) =
    if db.migration_version == ""
    then ""
    else normalize_version db.migration_version
      <> ("|"
          <> (cluster_key
              <> (bool_text false <> ("|" <> (database_key <> default_click_house_database)))))

unfoldable pub applied_migration_identity : {C : Type 0} → Instance C → String
unfolding recorded_identity legacy_identity
applied_migration_identity i =
    if not (recorded_identity i.status.migration == "")
    then recorded_identity i.status.migration
    else legacy_identity i.status.database

unfoldable pub legacy_baseline_identity : {C : Type 0} → Instance C → String → Option String
unfolding recorded_identity
legacy_baseline_identity i desired =
    if not (recorded_identity i.status.migration == "")
    then none
    else if applied_migration_identity i == ""
    then none
    else if not (migration_up_to_date (applied_migration_identity i) desired)
    then none
    else some desired

missing_of : Option ExternalClickHouseSpec → List String
unfolding text_at
missing_of none = []
missing_of (some e) =
    only_if (text_at e.secret_ref.keys "migrationUrl" == "") ("migrationUrl" ∷ [])
    ++ (only_if (text_at e.secret_ref.keys "username" == "") ("username" ∷ [])
        ++ only_if (text_at e.secret_ref.keys "password" == "") ("password" ∷ []))

unfoldable pub missing_click_house_migration_keys : Option ClickHouseSpec → List String
unfolding missing_of
missing_click_house_migration_keys none = []
missing_click_house_migration_keys (some ch) = missing_of ch.external
