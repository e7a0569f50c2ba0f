-- ===== src/Identity/Target.antt =====
-- The target of a migration and its text: migrationIdentity, buildMigrationIdentity and the names of the
-- datastore references; langfuse/version.go and clickHouseDatabase of clickhouse_client.go.
use langfuse_operator.Common.{
  String, ◌==◌, ◌<>◌, trim_prefix, bool_text, text_at, non_empty_or, Bool, Option, none, some, not,
}
use langfuse_operator.Api.{
  SecretKeysRef, DatabaseSpec, ClickHouseSpec, cluster_enabled, Instance, ExternalDatabaseSpec,
  ExternalClickHouseSpec,
}

-- langfuse.NormalizeVersion
unfoldable pub normalize_version : String → String
unfolding trim_prefix
normalize_version tag = trim_prefix "v" tag

-- langfuse.VersionChanged
unfoldable pub version_changed : String → String → Bool
unfolding normalize_version
version_changed desired current = not (normalize_version desired == normalize_version current)

abbrev pub cluster_key : String
cluster_key = "clickhouse-cluster="

abbrev pub postgres_ref_key : String
postgres_ref_key = "postgres-ref="

abbrev pub click_house_ref_key : String
click_house_ref_key = "clickhouse-ref="

abbrev pub database_key : String
database_key = "clickhouse-db="

abbrev pub default_click_house_database : String
default_click_house_database = "default"

-- migrationTarget
pub record Target : Type 0 where
  pub version : String
  pub postgres_ref : String
  pub click_house_ref : String
  pub click_house_db : String
  pub click_house_clust : Bool

unfoldable pub build_migration_identity : Target → String
unfolding normalize_version bool_text
build_migration_identity t =
    normalize_version t.version
    <> ("|"
        <> (postgres_ref_key
            <> (t.postgres_ref
                <> ("|"
                    <> (click_house_ref_key
                        <> (t.click_house_ref
                            <> ("|"
                                <> (cluster_key
                                    <> (bool_text t.click_house_clust
                                        <> ("|" <> (database_key <> t.click_house_db)))))))))))

unfoldable pub postgres_url_key : SecretKeysRef → String
unfolding non_empty_or text_at
postgres_url_key ref = non_empty_or (text_at ref.keys "url") "database_url"

unfoldable pub click_house_url_key : SecretKeysRef → String
unfolding non_empty_or text_at
click_house_url_key ref = non_empty_or (text_at ref.keys "url") "url"

-- The text of a reference to an endpoint of a Secret: `second` is the name of its second key.
unfoldable pub secret_ref_text : String → String → String → String → String
secret_ref_text name url second key =
    "secret/" <> (name <> ("#url=" <> (url <> ("," <> (second <> ("=" <> key))))))

external_postgres_ref : Option ExternalDatabaseSpec → String
unfolding postgres_url_key secret_ref_text text_at
external_postgres_ref none = ""
external_postgres_ref (some e) =
    secret_ref_text e.secret_ref.name (postgres_url_key e.secret_ref) "directUrl"
      (text_at e.secret_ref.keys "directUrl")

unfoldable pub postgres_ref_name : Option DatabaseSpec → String
unfolding external_postgres_ref
postgres_ref_name none = ""
postgres_ref_name (some db) = elim db.cloud_native_pg [
  | some cluster ↦ "cnpg/" <> cluster
  | none ↦ external_postgres_ref db.external
]

external_click_house_ref : Option ExternalClickHouseSpec → String
unfolding click_house_url_key secret_ref_text text_at
external_click_house_ref none = ""
external_click_house_ref (some e) =
    secret_ref_text e.secret_ref.name (click_house_url_key e.secret_ref) "migrationUrl"
      (text_at e.secret_ref.keys "migrationUrl")

unfoldable pub click_house_ref_name : Option ClickHouseSpec → String
unfolding external_click_house_ref
click_house_ref_name none = ""
click_house_ref_name (some ch) = elim ch.managed [
  | some m ↦ "managed"
  | none ↦ external_click_house_ref ch.external
]

unfoldable pub click_house_database : Option ClickHouseSpec → String
unfolding non_empty_or
click_house_database none = default_click_house_database
click_house_database (some ch) = non_empty_or ch.database default_click_house_database

-- What the spec asks for, as migrationIdentity reads it.
unfoldable pub desired_target : {C : Type 0} → Instance C → Target
unfolding postgres_ref_name click_house_ref_name click_house_database cluster_enabled
desired_target i = record {
  version = i.spec.image_tag;
  postgres_ref = postgres_ref_name i.spec.database;
  click_house_ref = click_house_ref_name i.spec.click_house;
  click_house_db = click_house_database i.spec.click_house;
  click_house_clust = cluster_enabled i.spec.click_house;
}

unfoldable pub migration_identity : {C : Type 0} → Instance C → String
unfolding build_migration_identity desired_target
migration_identity i = build_migration_identity (desired_target i)
