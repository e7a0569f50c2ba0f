-- ===== src/Config/Names/Pieces.antt =====
-- The names that each step of BuildConfig may add, in the order of the source.
use langfuse_operator.Common.{String, Option, none, some, List, [], ◌∷◌, ◌++◌, if◌then◌else◌}
use langfuse_operator.Api.{
  EmailPasswordSpec, OidcSpec, InitUserSpec, SecretKeysRef, SecretKeyRef, Instance,
}
use langfuse_operator.Config.Env.{env_or_generated, full_ref}
use langfuse_operator.Config.Auth.{
  email_password_env, oidc_env, init_user_env, auth_env, login_env, login_env,
}
use langfuse_operator.Config.Database.{plain_database_env, tls_database_env}
use langfuse_operator.Config.Names.Fits.{
  Fits, keep, skip, Fits-append, Fits-if, Fits-when, one, two, set-Fits, mapped-Fits, ◌then◌,
}

abbrev email_password_names : List String
email_password_names = "AUTH_DISABLE_USERNAME_PASSWORD" ∷ "AUTH_DISABLE_SIGNUP" ∷ []

email_password-Fits : (e : EmailPasswordSpec) → Fits (email_password_env e) email_password_names
unfolding email_password_env
email_password-Fits e = Fits-append (Fits-if _ (one _)) (Fits-if _ (one _))

abbrev oidc_names : List String
oidc_names =
    "AUTH_CUSTOM_CLIENT_ID" ∷ "AUTH_CUSTOM_CLIENT_SECRET" ∷ "AUTH_CUSTOM_ISSUER"
    ∷ "AUTH_CUSTOM_NAME" ∷ "AUTH_CUSTOM_SCOPE" ∷ "AUTH_DOMAINS_WITH_SSO_ENFORCEMENT" ∷ []

oidc-Fits : (o : OidcSpec) → Fits (oidc_env o) oidc_names
unfolding oidc_env
oidc-Fits o = Fits-if o.enabled (
    Fits-when o.client_id (λ r. one _)
    then Fits-when o.client_secret (λ r. one _)
    then set-Fits _ o.issuer
    then keep (keep (Fits-if _ (one _))))

abbrev init_user_names : List String
init_user_names =
    "LANGFUSE_INIT_USER_EMAIL" ∷ "LANGFUSE_INIT_USER_PASSWORD" ∷ "LANGFUSE_INIT_ORG_NAME"
    ∷ "LANGFUSE_INIT_PROJECT_NAME" ∷ []

init_user-Fits : (u : InitUserSpec) → Fits (init_user_env u) init_user_names
unfolding init_user_env
init_user-Fits u = Fits-if u.enabled (
    keep
      (Fits-when u.password (λ r. one _) then set-Fits _ u.org_name then set-Fits _ u.project_name))

generated-Fits :
    (name : String) (r : Option SecretKeyRef) (generated key : String)
    → Fits (env_or_generated name r generated key ∷ []) (name ∷ [])
unfolding env_or_generated
generated-Fits name none generated key = one _
generated-Fits name (some ref) generated key = one _

abbrev pub auth_names : List String
auth_names =
    "NEXTAUTH_URL"
    ∷ "NEXTAUTH_SECRET"
    ∷ "SALT"
    ∷ "ADMIN_API_KEY"
    ∷ "LANGFUSE_EE_LICENSE_KEY"
    ∷ (email_password_names ++ (oidc_names ++ init_user_names))

pub auth-Fits : {C : Type 0} (i : Instance C) → Fits (auth_env i) auth_names
unfolding auth_env login_env
auth-Fits i =
    let auth = i.spec.auth in
    keep (
      generated-Fits _ (full_ref auth.next_auth_secret) _ _
      then generated-Fits _ (full_ref auth.salt) _ _
      then generated-Fits _ (full_ref auth.admin_api_key) _ _
      then Fits-when (full_ref i.spec.ee_license_key) (λ r. one _)
      then Fits-append (Fits-when auth.email_password email_password-Fits)
          (Fits-append (Fits-when auth.oidc oidc-Fits) (Fits-when auth.init_user init_user-Fits)))

abbrev pub database_names : List String
database_names = "DATABASE_URL_BASE" ∷ "DATABASE_URL" ∷ "DIRECT_URL_BASE" ∷ "DIRECT_URL" ∷ []

pub plain_database-Fits : (ref : SecretKeysRef) → Fits (plain_database_env ref) database_names
unfolding plain_database_env
plain_database-Fits ref = skip (keep (skip (mapped-Fits _ _ _)))

pub tls_database-Fits :
    (ref : SecretKeysRef) (q : String) → Fits (tls_database_env ref q) database_names
unfolding tls_database_env
tls_database-Fits ref q = keep (keep (Fits-if _ (two _ _)))
