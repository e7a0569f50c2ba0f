-- ===== src/Config/Auth.antt =====
-- addAuthEnv and addTrustedCAEnv.
use langfuse_operator.Common.{
  String, ◌<>◌, join, Bool, true, false, not, bool_or, Option, none, some, List, [], ◌∷◌, ◌++◌,
  only_if, when_some, non_empty_or,
}
use langfuse_operator.Api.{
  EmailPasswordSpec, OidcSpec, InitUserSpec, CaCertSecretRef, TlsSpec, Instance,
}
use langfuse_operator.Config.Env.{
  EnvVar, Config, env_var, env_from_secret, env_if_set, env_or_generated, full_ref, add_common,
  mount_ca, tls_base_mount_path, generated_secret_name,
}

unfoldable pub email_password_env : EmailPasswordSpec → List EnvVar
email_password_env e =
    only_if (not (bool_or e.enabled true)) (env_var "AUTH_DISABLE_USERNAME_PASSWORD" "true" ∷ [])
    ++ only_if e.disable_signup (env_var "AUTH_DISABLE_SIGNUP" "true" ∷ [])

abbrev is_empty : List String → Bool
is_empty [] = true
is_empty (_ ∷ _) = false

scope_text : List String → String
unfolding join
scope_text [] = "openid email profile"
scope_text (s ∷ r) = join (s ∷ r) " "

unfoldable pub oidc_env : OidcSpec → List EnvVar
unfolding scope_text join non_empty_or
oidc_env o = only_if o.enabled (
    when_some o.client_id (λ r. env_from_secret "AUTH_CUSTOM_CLIENT_ID" r.name r.key ∷ [])
    ++ (when_some o.client_secret
          (λ r. env_from_secret "AUTH_CUSTOM_CLIENT_SECRET" r.name r.key ∷ [])
        ++ (env_if_set "AUTH_CUSTOM_ISSUER" o.issuer
            ++ (env_var "AUTH_CUSTOM_NAME" (non_empty_or o.name "SSO")
                ∷ env_var "AUTH_CUSTOM_SCOPE" (scope_text o.scope)
                ∷ only_if (not (is_empty o.sso_enforced_domains)) (
                    env_var "AUTH_DOMAINS_WITH_SSO_ENFORCEMENT" (join o.sso_enforced_domains ",")
                    ∷ [])))))

unfoldable pub init_user_env : InitUserSpec → List EnvVar
init_user_env u = only_if u.enabled (
    env_var "LANGFUSE_INIT_USER_EMAIL" u.email
    ∷ (when_some u.password (λ r. env_from_secret "LANGFUSE_INIT_USER_PASSWORD" r.name r.key ∷ [])
        ++ (env_if_set "LANGFUSE_INIT_ORG_NAME" u.org_name
            ++ env_if_set "LANGFUSE_INIT_PROJECT_NAME" u.project_name)))

-- What addAuthEnv appends behind the admin key.
unfoldable pub login_env : {C : Type 0} → Instance C → List EnvVar
unfolding email_password_env oidc_env init_user_env
login_env i =
    when_some (full_ref i.spec.ee_license_key)
      (λ r. env_from_secret "LANGFUSE_EE_LICENSE_KEY" r.name r.key ∷ [])
    ++ (when_some i.spec.auth.email_password email_password_env
        ++ (when_some i.spec.auth.oidc oidc_env ++ when_some i.spec.auth.init_user init_user_env))

unfoldable pub auth_env : {C : Type 0} → Instance C → List EnvVar
unfolding env_or_generated login_env
auth_env i =
    let auth = i.spec.auth in
    let generated = generated_secret_name i in
    env_var "NEXTAUTH_URL" auth.next_auth_url
    ∷ env_or_generated "NEXTAUTH_SECRET" (full_ref auth.next_auth_secret) generated
        "nextauth-secret"
    ∷ env_or_generated "SALT" (full_ref auth.salt) generated "salt"
    ∷ env_or_generated "ADMIN_API_KEY" (full_ref auth.admin_api_key) generated "admin-api-key"
    ∷ login_env i

abbrev trusted_ca_ref : Option TlsSpec → Option CaCertSecretRef
trusted_ca_ref none = none
trusted_ca_ref (some t) = t.trusted_ca_secret_ref

abbrev pub trusted_ca_path : String
trusted_ca_path = "/etc/langfuse/tls/trusted-ca/ca.crt"

-- The path of the CA, "" without one, and the Config with its mount.
unfoldable pub trust_ca : Option CaCertSecretRef → Config → String × Config
unfolding mount_ca
trust_ca none cfg = ("", cfg)
trust_ca (some ref) cfg = (
  trusted_ca_path,
  add_common (env_var "NODE_EXTRA_CA_CERTS" trusted_ca_path ∷ [])
      (mount_ca "langfuse-trusted-ca" (tls_base_mount_path <> "/trusted-ca") ref cfg),
)

unfoldable pub add_trusted_ca_env : Option TlsSpec → Config → String × Config
unfolding trust_ca
add_trusted_ca_env tls cfg = trust_ca (trusted_ca_ref tls) cfg
