-- ===== src/Projects/Specified.antt =====
-- The specification of syncAPIKeys by the turns of its keys.
use langfuse_operator.Common.{
  ℕ, String, ◌==◌, true, false, Option, none, some, List, [], ◌∷◌, ◌≡◌, ◌↔◌, refl,
}
use langfuse_operator.Api.{ApiKeySpec, ApiKeyStatus}
use langfuse_operator.Client.{ApiError, is_already_exists}
use langfuse_operator.Langfuse.{ApiKey, ApiKeyPair, replied}
use langfuse_operator.Projects.Api.{ProjectApi, SecretApi}
use langfuse_operator.Projects.Sync.{
  made_status, key_data, owned, make_key, replace_key, check_key, sync_key, sync_keys,
  sync_api_keys,
}
use langfuse_operator.Projects.Turns.{
  passes_as, Needed, missing, stale, Turn, kept, stored, lost, Turns, no_more, and_then,
  sync_api_keys-Turns,
}

module _ {S : Type 0} (api : ProjectApi S) (store : SecretApi S) (id host : String) (now : ℕ)
    (namespace : String) (owner : Option ApiError) where
  made-replied :
      (spec : ApiKeySpec) (u v t : S) (pair : ApiKeyPair) (answer : Option ApiError)
      → owner ≡ none
      → api.create_api_key id spec.name u ≡ (replied pair, v)
      → store.create_secret spec.secret_name (key_data pair host) v ≡ (answer, t)
      → passes_as is_already_exists answer ≡ true
      → make_key api store namespace id host owner now spec u ≡ (replied (made_status spec now), t)
  unfolding make_key owned
  made-replied spec u v t pair none own c w p = rw (own, c, w) refl
  made-replied spec u v t pair (some e) own c w p = rw (own, c, w, p) refl

  Needed-replied :
      (remote : List ApiKey) (spec : ApiKeySpec) (s u t : S) (status : ApiKeyStatus)
      → Needed api store remote spec.secret_name s u
      → make_key api store namespace id host owner now spec u ≡ (replied status, t)
      → sync_key api store namespace id host owner now remote spec s ≡ (replied status, t)
  unfolding sync_key check_key replace_key
  Needed-replied remote spec s u t status (missing e g p same) h = rw (g, p, ← same) h
  Needed-replied remote spec s u t status (stale d none g p gone q) h = rw (g, p, gone) h
  Needed-replied remote spec s u t status (stale d (some e) g p gone q) h = rw (g, p, gone, q) h

  Turn-replied :
      (remote : List ApiKey) (spec : ApiKeySpec) (s t : S) (status : ApiKeyStatus)
      → owner ≡ none
      → Turn api store id host now remote spec s t status
      → sync_key api store namespace id host owner now remote spec s ≡ (replied status, t)
  unfolding sync_key check_key
  Turn-replied remote spec s t status own (kept d g p same e) = rw (g, p, same, e) refl
  Turn-replied remote spec s t status own (stored u v pair n c w e) = rw e (
      Needed-replied remote spec s u t (made_status spec now) n
        (made-replied spec u v t pair none own c w refl))
  Turn-replied remote spec s t status own (lost u v pair f n c w p e) = rw e (
      Needed-replied remote spec s u t (made_status spec now) n
        (made-replied spec u v t pair (some f) own c w p))

  Turns-replied :
      (remote : List ApiKey) (specs : List ApiKeySpec) (s t : S) (statuses : List ApiKeyStatus)
      → owner ≡ none
      → Turns api store id host now remote specs s t statuses
      → sync_keys api store namespace id host owner now remote specs s ≡ (replied statuses, t)
  unfolding sync_keys
  Turns-replied remote [] s t statuses own no_more = refl
  Turns-replied remote (spec ∷ specs) s t statuses own (and_then turn later) =
      rw (Turn-replied remote spec s _ _ own turn, Turns-replied remote specs _ t _ own later) refl

  -- With an identifier, and where the owner reference can be set, a synchronisation of the keys succeeds in a state and
  -- with these statuses exactly when Langfuse lists its keys and every key of the spec has its turn, in order, from
  -- the state behind the one before: its Secret is kept, because its public key is listed; or it is missing, or stale
  -- and deleted, and a new pair of Langfuse's is stored; or the Create finds a Secret there again, and the new pair
  -- is lost. The status says of the last two alike that the key was made now.
  pub sync_api_keys_iff :
      (specs : List ApiKeySpec) (s t : S) (statuses : List ApiKeyStatus)
      → (id == "") ≡ false
      → owner ≡ none
      → (sync_api_keys api store namespace id host owner now specs s ≡ (replied statuses, t)) ↔ (
          (remote : List ApiKey) × (api.list_api_keys id s ≡ replied remote)
          × Turns api store id host now remote specs s t statuses)
  unfolding sync_api_keys
  sync_api_keys_iff specs s t statuses ne own = (
    sync_api_keys-Turns api store id host now namespace owner specs s t statuses,
    λ run. rw (ne, run.1) (Turns-replied run.0 specs s t statuses own run.2),
  )
