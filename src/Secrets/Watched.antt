-- ===== src/Secrets/Watched.antt =====
-- Which Secrets are watched.
use langfuse_operator.Common.{
  String, ◌==◌, true, false, ◌||◌, contains-append, some, List, [], ◌∷◌, ◌++◌, contains, ◌≡◌, refl,
  ◌∙◌, arith, eq_iff, eq_refl,
}
use langfuse_operator.Api.{SecretKeyRef, Instance}
use langfuse_operator.Config.Env.{
  full_ref, env_or_generated, env_from_secret, EnvVar, EnvSource, value, secret_key,
  generated_secret_name,
}
use langfuse_operator.Config.Auth.{auth_env, login_env}
use langfuse_operator.Secrets.Referenced.{
  references, insert_name, sort_names, collect_referenced_secret_names,
}

contains-insert_name :
    (s n : String) (ns : List String) → contains s (insert_name n ns) ≡ (s == n || contains s ns)
unfolding insert_name
contains-insert_name s n [] = refl
contains-insert_name s n (m ∷ ms) =
    ground (arith, eq_iff n m, eq_iff s n, eq_iff s m, contains-insert_name s n ms)

contains-sort_names : (s : String) (ns : List String) → contains s (sort_names ns) ≡ contains s ns
unfolding sort_names
contains-sort_names s [] = refl
contains-sort_names s (n ∷ ns) =
    contains-insert_name s n (sort_names ns) ∙ ground (arith, contains-sort_names s ns)

-- Sorting and the removal of duplicates lose no name and add none.
pub contains-collect :
    {C : Type 0} (i : Instance C) (s : String)
    → contains s (collect_referenced_secret_names i) ≡ contains s (references i)
unfolding collect_referenced_secret_names
contains-collect i s = contains-sort_names s (references i)

abbrev read_by : EnvSource → List String
read_by (value s) = []
read_by (secret_key secret key) = secret ∷ []

-- The Secrets that variables read.
abbrev pub secrets_read : List EnvVar → List String
secrets_read [] = []
secrets_read (v ∷ vs) = read_by v.source ++ secrets_read vs

reads-behind :
    (n : String) (v : EnvVar) (vs : List EnvVar)
    → contains n (secrets_read vs) ≡ true
    → contains n (secrets_read (v ∷ vs)) ≡ true
reads-behind n v vs h = contains-append n (read_by v.source) (secrets_read vs) ∙ ground (arith, h)

reads-here :
    (name key : String) (r : SecretKeyRef) (vs : List EnvVar)
    → contains r.name (secrets_read (env_from_secret name r.name key ∷ vs)) ≡ true
reads-here name key r vs = ground (arith, eq_refl r.name)

-- The instance with another Secret for the admin key.
abbrev pub with_admin_key : {C : Type 0} → SecretKeyRef → Instance C → Instance C
with_admin_key r i = record i {
  spec = record (i.spec) {
    auth = record (i.spec.auth) { admin_api_key = some (record { secret_ref = some r }) };
  };
}

-- The web and worker pods read the admin key from the Secret that the spec names, but where nothing else
-- refers to that Secret it is not among the watched ones: its rotation restarts nothing.
pub unwatched_admin_key :
    {C : Type 0} (i : Instance C) (r : SecretKeyRef)
    → contains r.name (references i) ≡ false
    → let j = with_admin_key r i in
      (contains r.name (secrets_read (auth_env j)) ≡ true)
      × (contains r.name (collect_referenced_secret_names j) ≡ false)
unfolding auth_env env_or_generated references
unwatched_admin_key i r h =
    let j = with_admin_key r i in
    let generated = generated_secret_name j in
    let secret =
      env_or_generated "NEXTAUTH_SECRET" (full_ref i.spec.auth.next_auth_secret) generated
        "nextauth-secret" in
    let salt = env_or_generated "SALT" (full_ref i.spec.auth.salt) generated "salt" in
    let admin = env_from_secret "ADMIN_API_KEY" r.name r.key ∷ login_env j in
    (
      reads-behind r.name secret (salt ∷ admin)
          (reads-behind r.name salt admin (reads-here "ADMIN_API_KEY" r.key r (login_env j))),
      contains-collect j r.name ∙ h,
    )
