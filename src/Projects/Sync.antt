-- ===== src/Projects/Sync.antt =====
-- syncProject, syncAPIKeys and revokeAPIKeys.
use langfuse_operator.Common.{
  ℕ, String, ◌==◌, ◌<>◌, quoted, text_at, contains, any, Bool, true, Option, none, some, List, [],
  ◌∷◌, if◌then◌else◌,
}
use langfuse_operator.Api.{ApiKeySpec, ApiKeyStatus, LangfuseProject}
use langfuse_operator.Client.{ApiError, is_not_found, is_already_exists, Got, found, failed}
use langfuse_operator.Langfuse.{
  Project, ApiKey, ApiKeyPair, failure, in_context, of_api, Reply, replied, refused,
}
use langfuse_operator.Langfuse.Action.{Action, pure, failing, ◌>>=◌, ◌>>◌, within, reading}
use langfuse_operator.Organizations.Resolve.{object_key}
use langfuse_operator.Projects.Api.{ProjectApi, SecretApi, tolerate}
use langfuse_operator.Secrets.Generated.{Data}

-- The first of the list that has the name.
unfoldable pub project_named : String → List Project → Option Project
project_named name [] = none
project_named name (p ∷ ps) = if p.name == name then some p else project_named name ps

-- Whether remoteKeysByPublicKey has the key.
abbrev pub has_key : String → List ApiKey → Bool
has_key public_key = any (λ k. k.public_key == public_key)

abbrev pub kept_status : ApiKeySpec → ApiKeyStatus
kept_status spec = record {
  name = spec.name;
  secret_name = spec.secret_name;
  created = true;
  last_rotated = none;
}

abbrev pub made_status : ApiKeySpec → ℕ → ApiKeyStatus
made_status spec now = record {
  name = spec.name;
  secret_name = spec.secret_name;
  created = true;
  last_rotated = some now;
}

abbrev pub key_data : ApiKeyPair → String → Data
key_data pair host =
    ("publicKey", pair.public_key) ∷ ("secretKey", pair.secret_key) ∷ ("host", host) ∷ []

module _ {S : Type 0} (api : ProjectApi S) where
  unfoldable pub search_project : String → Action S String
  unfolding project_named
  search_project name = do
    projects ← within "listing projects" (reading api.list_projects)
    elim (project_named name projects) [
      | some p ↦ pure p.id
      | none ↦ within "creating project" (api.create_project name) >>= λ created. pure created.id
    ]

  -- The last argument is the answer to GetProject; any error of it leads to the search.
  unfoldable pub verify_project : String → String → Reply Project → Action S String
  unfolding search_project
  verify_project id name (replied existing) = pure id
  verify_project id name (refused f) = search_project name

  unfoldable pub sync_project : {C : Type 0} → LangfuseProject C → Action S String
  unfolding search_project verify_project
  sync_project project s =
      let id = project.status.project_id in
      let name = project.spec.project_name in
      if id == "" then search_project name s else verify_project id name (api.get_project id s) s

  -- `store` holds the Secrets of the project's namespace, `owner` is the error of SetControllerReference and
  -- `now` the time.
  module _ (store : SecretApi S) (namespace id host : String) (owner : Option ApiError)
      (now : ℕ) where
    unfoldable pub owned : String → Action S (Unit {0})
    owned name = elim owner [
      | none ↦ pure tt
      | some e ↦
          failing
            (in_context ("setting owner reference on API key secret " <> quoted name) (of_api e))
    ]

    -- A new key, and a Secret with it. Where the Secret is there after all, the key is not stored.
    unfoldable pub make_key : ApiKeySpec → Action S ApiKeyStatus
    unfolding owned
    make_key spec = do
      pair ← within ("creating API key " <> quoted spec.name) (api.create_api_key id spec.name)
      owned spec.secret_name
      λ s.
          tolerate is_already_exists ("creating API key secret " <> quoted spec.secret_name)
            (store.create_secret spec.secret_name (key_data pair host) s)
      pure (made_status spec now)

    unfoldable pub replace_key : ApiKeySpec → Action S ApiKeyStatus
    unfolding make_key
    replace_key spec =
        (λ s.
          tolerate is_not_found
            ("deleting stale API key secret " <> quoted (object_key namespace spec.secret_name))
            (store.delete_secret spec.secret_name s))
        >> make_key spec

    -- The last argument is the answer to the Get of the Secret.
    unfoldable pub check_key : List ApiKey → ApiKeySpec → Got Data → Action S ApiKeyStatus
    unfolding make_key replace_key text_at
    check_key remote spec (failed e) =
        if is_not_found e.kind
        then make_key spec
        else failing (
            in_context ("getting API key secret " <> quoted (object_key namespace spec.secret_name))
              (of_api e))
    check_key remote spec (found entries) =
        if has_key (text_at entries "publicKey") remote
        then pure (kept_status spec)
        else replace_key spec

    unfoldable pub sync_key : List ApiKey → ApiKeySpec → Action S ApiKeyStatus
    unfolding check_key
    sync_key remote spec s = check_key remote spec (store.get_secret spec.secret_name s) s

    unfoldable pub sync_keys : List ApiKey → List ApiKeySpec → Action S (List ApiKeyStatus)
    unfolding sync_key
    sync_keys remote [] = pure []
    sync_keys remote (spec ∷ specs) = sync_key remote spec >>= λ status.
        (sync_keys remote specs >>= λ statuses. pure (status ∷ statuses))

    unfoldable pub sync_api_keys : List ApiKeySpec → Action S (List ApiKeyStatus)
    unfolding sync_keys
    sync_api_keys specs =
        if id == ""
        then failing (failure "project ID not set, cannot sync API keys")
        else within "listing remote API keys" (reading (api.list_api_keys id)) >>= λ remote.
            sync_keys remote specs

  -- The public keys that the Secrets of the project hold.
  unfoldable pub managed_public_keys : SecretApi S → List ApiKeySpec → S → List String
  unfolding text_at
  managed_public_keys store [] s = []
  managed_public_keys store (spec ∷ specs) s =
      let rest = managed_public_keys store specs s in
      elim (store.get_secret spec.secret_name s) [
        | failed e ↦ rest
        | found entries ↦
            let key = text_at entries "publicKey" in if key == "" then rest else key ∷ rest
      ]

  -- Best effort: an error is only logged.
  unfoldable pub revoke_keys : String → List String → List ApiKey → S → S
  revoke_keys id managed [] s = s
  revoke_keys id managed (k ∷ ks) s =
      revoke_keys id managed ks
        (if contains k.public_key managed then (api.delete_api_key id k.id s).1 else s)

  unfoldable pub revoke_api_keys : SecretApi S → String → List ApiKeySpec → S → S
  unfolding managed_public_keys revoke_keys
  revoke_api_keys store id specs s = elim (api.list_api_keys id s) [
    | refused f ↦ s
    | replied keys ↦ revoke_keys id (managed_public_keys store specs s) keys s
  ]
