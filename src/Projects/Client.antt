-- ===== src/Projects/Client.antt =====
-- resolveOrganization and ensureProjectClient.
use langfuse_operator.Common.{
  String, ◌==◌, ◌<>◌, quoted, text_at, Bool, true, false, not, ◌&&◌, Option, none, some, [], ◌∷◌,
  ◌≡◌, refl, if◌then◌else◌,
}
use langfuse_operator.Api.{Instance, ObjectReference, reference_namespace, LangfuseOrganization}
use langfuse_operator.Client.{ApiError, is_not_found, is_already_exists, Got, found, failed}
use langfuse_operator.Langfuse.{
  failure, in_context, of_api, Reply, replied, refused, ApiKeyPair, LangfuseClient, basic,
  instance_url,
}
use langfuse_operator.Langfuse.Action.{Action, pure, failing, ◌>>=◌, ◌>>◌, within}
use langfuse_operator.Organizations.Api.{OrgApi}
use langfuse_operator.Organizations.Resolve.{object_key, unresolved, build_langfuse_client}
use langfuse_operator.Projects.Api.{SecretApi, tolerate}
use langfuse_operator.Secrets.Generated.{Data}

-- The answer is that to the Get in the referenced namespace.
unfoldable pub resolve_organization :
    {C : Type 0}
    → ObjectReference
    → String
    → Got (LangfuseOrganization C)
    → Reply (LangfuseOrganization C)
unfolding reference_namespace
resolve_organization ref namespace (failed e) =
    refused (
      unresolved "LangfuseOrganization" (object_key (reference_namespace ref namespace) ref.name) e)
resolve_organization ref namespace (found org) =
    let key = quoted (object_key (reference_namespace ref namespace) ref.name) in
    if not org.status.ready
    then refused (failure ("LangfuseOrganization " <> key <> " is not ready"))
    else if org.status.organization_id == ""
    then refused (failure ("LangfuseOrganization " <> key <> " has no organization ID set"))
    else replied org

-- Both halves of the pair are there.
unfoldable pub is_complete : Data → Bool
unfolding text_at
is_complete entries =
    not (text_at entries "publicKey" == "") && not (text_at entries "secretKey" == "")

abbrev pub key_secret_name : {C : Type 0} → LangfuseOrganization C → String
key_secret_name org = org.name <> "-orgkey"

abbrev pub pair_data : ApiKeyPair → Data
pair_data pair = ("publicKey", pair.public_key) ∷ ("secretKey", pair.secret_key) ∷ []

abbrev pub project_client : {C : Type 0} → Instance C → String → String → LangfuseClient
project_client i public_key secret_key = record {
  base_url = instance_url i.name i.namespace;
  auth = basic public_key secret_key;
}

-- `store` holds the Secrets of the organization's namespace, `admin_secret` is the answer to the Get of the admin
-- key's Secret and `owner` the error of SetControllerReference.
module _ {C S : Type 0} (connect : LangfuseClient → OrgApi S) (store : SecretApi S)
    (instance_ : Instance C) (org : LangfuseOrganization C) (admin_secret : Got Data)
    (owner : Option ApiError) where
  unfoldable pub owned_key : Action S (Unit {0})
  owned_key = elim owner [
    | none ↦ pure tt
    | some e ↦ failing (in_context "setting owner reference on org key secret" (of_api e))
  ]

  unfoldable pub mint_key : LangfuseClient → Action S LangfuseClient
  unfolding owned_key
  mint_key admin = do
    pair ← within "minting organization API key" (
        (connect admin).create_organization_api_key org.status.organization_id
          ("langfuse-operator (" <> org.name <> ")"))
    owned_key
    λ s.
        tolerate is_already_exists ("caching org key secret " <> quoted (key_secret_name org))
          (store.create_secret (key_secret_name org) (pair_data pair) s)
    pure (project_client instance_ pair.public_key pair.secret_key)

  unfoldable pub mint_with : Reply LangfuseClient → Action S LangfuseClient
  unfolding mint_key
  mint_with (refused f) = failing f
  mint_with (replied admin) = mint_key admin

  -- The argument is the answer to the Get of the cached Secret.
  unfoldable pub cached_or_minted : Got Data → Action S LangfuseClient
  unfolding mint_with is_complete text_at
  cached_or_minted (found entries) =
      if is_complete entries
      then pure
          (project_client instance_ (text_at entries "publicKey") (text_at entries "secretKey"))
      else mint_with (build_langfuse_client instance_ admin_secret)
  cached_or_minted (failed e) =
      if is_not_found e.kind
      then mint_with (build_langfuse_client instance_ admin_secret)
      else failing
          (in_context ("reading cached org key secret " <> quoted (key_secret_name org)) (of_api e))

  unfoldable pub ensure_project_client : Action S LangfuseClient
  unfolding cached_or_minted
  ensure_project_client s = cached_or_minted (store.get_secret (key_secret_name org) s) s

  -- A cached Secret that lacks one half of its pair is never repaired. If a Secret of that name is already there to
  -- the API server, a pass mints a key in Langfuse, returns a client for it, and leaves the server with the Secret as
  -- it found it; so does the next pass.
  pub ensure_project_client_unrepaired :
      (entries : Data) (s s' : S) (admin : LangfuseClient) (pair : ApiKeyPair) (e : ApiError)
      → store.get_secret (key_secret_name org) s ≡ found entries
      → is_complete entries ≡ false
      → build_langfuse_client instance_ admin_secret ≡ replied admin
      → owner ≡ none
      → (connect admin).create_organization_api_key org.status.organization_id
          ("langfuse-operator (" <> org.name <> ")")
          s
        ≡ (replied pair, s')
      → store.create_secret (key_secret_name org) (pair_data pair) s' ≡ (some e, s')
      → is_already_exists e.kind ≡ true
      → ensure_project_client s
        ≡ (replied (project_client instance_ pair.public_key pair.secret_key), s')
  unfolding ensure_project_client
  ensure_project_client_unrepaired entries s s' admin pair e got half b o key create exists =
      rw (got, half, b, o, key, create, exists) refl
