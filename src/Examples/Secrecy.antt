-- ===== src/Examples/Secrecy.antt =====
-- The generated Secret of an instance that predates a key, and the Secrets that it watches.
use langfuse_operator.Common.{
  String, true, false, is_some, none, some, [], ◌∷◌, ◌≡◌, refl, contains, lookup, ok,
}
use langfuse_operator.Api.{SecretKeyRef}
use langfuse_operator.Client.{found}
use langfuse_operator.Config.Auth.{auth_env}
use langfuse_operator.Secrets.Generated.{
  Data, Generator, SecretAnswers, generated_secret_keys, ensure_generated_secret, backfill,
}
use langfuse_operator.Secrets.Backfill.{ensure-keeps, ensure-settles, sent}
use langfuse_operator.Secrets.Referenced.{references, collect_referenced_secret_names}
use langfuse_operator.Secrets.Watched.{secrets_read, with_admin_key, unwatched_admin_key}
use langfuse_operator.Examples.Values.{fresh}

abbrev dice : Generator
dice key = ok "x"

abbrev old_entries : Data
old_entries =
    ("nextauth-secret", "a")
    ∷ ("salt", "b")
    ∷ ("clickhouse-username", "default")
    ∷ ("clickhouse-password", "c")
    ∷ ("redis-password", "d")
    ∷ []

abbrev new_entries : Data
new_entries = ("admin-api-key", "x") ∷ old_entries

abbrev granted : SecretAnswers
granted = record { secret = found old_entries; owner = none; write = none }

run_backfill :
    sent ((ensure_generated_secret dice (found old_entries) granted).0) ≡ some new_entries
unfolding ensure_generated_secret backfill
run_backfill = refl

ensure-keeps_example :
    ((k : String)
      → is_some (lookup k old_entries) ≡ true
      → lookup k new_entries ≡ lookup k old_entries)
    × ((k : String)
        → contains k generated_secret_keys ≡ true
        → is_some (lookup k new_entries) ≡ true)
ensure-keeps_example = ensure-keeps dice old_entries granted run_backfill

ensure-settles_example : ensure_generated_secret dice (found new_entries) granted ≡ ([], none)
ensure-settles_example = ensure-settles dice dice old_entries granted granted run_backfill

abbrev admin_ref : SecretKeyRef
admin_ref = record { name = "admin"; key = "key" }

unwatched_admin_key_example :
    let j = with_admin_key admin_ref fresh in
    (contains "admin" (secrets_read (auth_env j)) ≡ true)
    × (contains "admin" (collect_referenced_secret_names j) ≡ false)
unfolding references
unwatched_admin_key_example = unwatched_admin_key fresh admin_ref refl
