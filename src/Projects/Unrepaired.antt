-- ===== src/Projects/Unrepaired.antt =====
-- The cached key of an organization whose Secret lacks one half of the pair.
use langfuse_operator.Common.{ℕ, zero, suc, ◌+◌, ◌<>◌, true, false, none, some, ◌≡◌, refl, arith}
use langfuse_operator.Api.{Instance, LangfuseOrganization}
use langfuse_operator.Client.{ApiError, is_already_exists, Got, found}
use langfuse_operator.Langfuse.{ApiKeyPair, replied, LangfuseClient}
use langfuse_operator.Organizations.Api.{OrgApi}
use langfuse_operator.Organizations.Resolve.{build_langfuse_client}
use langfuse_operator.Projects.Api.{SecretApi}
use langfuse_operator.Projects.Client.{
  is_complete, key_secret_name, pair_data, ensure_project_client, ensure_project_client_unrepaired,
}
use langfuse_operator.Secrets.Generated.{Data}

module _ {C S : Type 0} (connect : LangfuseClient → OrgApi S) (store : SecretApi S)
    (org : LangfuseOrganization C) where
  abbrev pub Cached : Data → S → Type 0
  Cached entries s = store.get_secret (key_secret_name org) s ≡ found entries

  -- While the Secret is there, each call of the admin API mints one more key, whichever it is, and the API server refuses to create it again.
  pub record Serving (admin : LangfuseClient) (entries : Data) (keys : S → ℕ) : Type 0 where
    pub pair : S → ApiKeyPair
    pub minted : S → S
    pub mints :
        (s : S)
        → (connect admin).create_organization_api_key org.status.organization_id
            ("langfuse-operator (" <> org.name <> ")")
            s
          ≡ (replied (pair s), minted s)
    pub counts : (s : S) → keys (minted s) ≡ keys s + 1
    pub keeps : (s : S) → Cached entries s → Cached entries (minted s)
    pub exists :
        (s : S) (entries' : Data)
        → Cached entries s
        → (e : ApiError) × (store.create_secret (key_secret_name org) entries' s ≡ (some e, s))
          × (is_already_exists e.kind ≡ true)

  module _ (instance_ : Instance C) (admin_secret : Got Data) where
    -- Passes in a row, each of which asks for the client.
    pub passes : ℕ → S → S
    passes zero s = s
    passes (suc n) s =
        passes n ((ensure_project_client connect store instance_ org admin_secret none s).1)

    -- As long as the servers answer, a cached Secret that lacks one half of its pair is never repaired: every pass mints
    -- one more key in Langfuse, and leaves the Secret as it found it.
    pub passes-unrepaired :
        (admin : LangfuseClient) (entries : Data) (keys : S → ℕ) (n : ℕ) (s : S)
        → Serving admin entries keys
        → build_langfuse_client instance_ admin_secret ≡ replied admin
        → is_complete entries ≡ false
        → Cached entries s
        → (keys (passes n s) ≡ keys s + n) × Cached entries (passes n s)
    unfolding passes
    passes-unrepaired admin entries keys zero s serving b half c = (omega arith, c)
    passes-unrepaired admin entries keys (suc n) s serving b half c =
        let t = serving.minted s in
        let c' = serving.keeps s c in
        let x = serving.exists t (pair_data (serving.pair s)) c' in
        let pass =
          ensure_project_client_unrepaired connect store instance_ org admin_secret none entries s t
            admin (serving.pair s) x.0 c half b refl (serving.mints s) x.1 x.2 in
        let rest = passes-unrepaired admin entries keys n t serving b half c' in
        rw pass (omega (arith, rest.0, serving.counts s), rest.1)
