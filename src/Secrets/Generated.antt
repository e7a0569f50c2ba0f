-- ===== src/Secrets/Generated.antt =====
-- autoGenerateEnabled, generatedSecretKeys and ensureGeneratedSecret. The data of a Secret is an association
-- list; `random` stands for generateSecureRandom and generateAlphanumeric, at the key that they are called for.
use langfuse_operator.Common.{
  String, ◌==◌, ◌<>◌, Bool, true, false, not, is_some, Option, none, some, List, [], ◌∷◌, lookup,
  insert, bool_or, Result, ok, err, ◌>>=◌, if◌then◌else◌,
}
use langfuse_operator.Api.{Instance}
use langfuse_operator.Client.{ApiError, other, is_not_found, wrap, Got, found, failed}

unfoldable pub auto_generate_enabled : {C : Type 0} → Instance C → Bool
auto_generate_enabled i = bool_or i.spec.auto_generate true

abbrev pub Data : Type 0
Data = List (String × String)

abbrev pub Generator : Type 0
Generator = String → Result String

-- The keys in their order; the user name is fixed, the others are random.
abbrev pub generated_secret_keys : List String
generated_secret_keys =
    "nextauth-secret" ∷ "salt" ∷ "clickhouse-username" ∷ "clickhouse-password" ∷ "redis-password"
    ∷ "admin-api-key" ∷ []

unfoldable pub generate : Generator → String → Result String
generate random key = if key == "clickhouse-username" then ok "default" else random key

-- A failed generator, by the key that it was called for.
abbrev pub named : {A : Type 0} → String → Result A → Result A
named key (ok a) = ok a
named key (err e) = err ("generating " <> key <> ": " <> e)

-- The loop over the keys: a key that is there is kept.
unfoldable pub backfill : Generator → List String → Data → Result Data
unfolding generate lookup insert
backfill random [] entries = ok entries
backfill random (key ∷ keys) entries =
    if is_some (lookup key entries)
    then backfill random keys entries
    else named key (generate random key) >>= λ v. backfill random keys (insert key v entries)

-- What is sent for the generated Secret.
pub data SecretRequest : Type 0 where
  update_secret : Data → SecretRequest
  create_secret : Data → SecretRequest

-- The answers to the Get of the Secret, to SetControllerReference and to the write.
pub record SecretAnswers : Type 0 where
  pub secret : Got Data
  pub owner : Option ApiError
  pub write : Option ApiError

abbrev pub plain : String → ApiError
plain text = record { kind = other; text = text }

abbrev pub wrapped : String → Option ApiError → Option ApiError
wrapped what none = none
wrapped what (some e) = some (wrap what e)

-- Whether the loop added a key: it adds at the front.
abbrev pub added : Data → Data → Bool
added [] [] = false
added [] (_ ∷ _) = true
added (_ ∷ _) [] = false
added (_ ∷ old) (_ ∷ new) = added old new

-- The text of the keys that were added is left out of the error.
unfoldable pub update_with :
    Data → Result Data → Option ApiError → List SecretRequest × Option ApiError
update_with old (err e) answer = ([], some (plain e))
update_with old (ok new) answer =
    if added old new
    then (update_secret new ∷ [], wrapped "backfilling generated secret keys" answer)
    else ([], none)

unfoldable pub create_with :
    Result Data → Option ApiError → Option ApiError → List SecretRequest × Option ApiError
create_with (err e) owner answer = ([], some (plain e))
create_with (ok new) (some e) answer = ([], some (wrap "setting owner reference" e))
create_with (ok new) none answer =
    (create_secret new ∷ [], wrapped "creating generated secret" answer)

-- `got` is the answer to the Get.
unfoldable pub ensure_generated_secret :
    Generator → Got Data → SecretAnswers → List SecretRequest × Option ApiError
unfolding update_with create_with
ensure_generated_secret random (found entries) ans =
    update_with entries (backfill random generated_secret_keys entries) ans.write
ensure_generated_secret random (failed e) ans =
    if not (is_not_found e.kind)
    then ([], some (wrap "checking for existing secret" e))
    else create_with (backfill random generated_secret_keys []) ans.owner ans.write
