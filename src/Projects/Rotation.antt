-- ===== src/Projects/Rotation.antt =====
-- A pass over the API keys that rotates none.
use langfuse_operator.Common.{
  ℕ, String, ◌==◌, true, false, Option, List, [], ◌∷◌, ◌≡◌, ◌↔◌, ◌∙◌, refl, sym, ap, map, text_at,
}
use mathlib.Core.Path.{subst}
use langfuse_operator.Api.{ApiKeySpec, ApiKeyStatus}
use langfuse_operator.Client.{ApiError, found}
use langfuse_operator.Langfuse.{ApiKey, replied}
use langfuse_operator.Projects.Api.{ProjectApi, SecretApi}
use langfuse_operator.Projects.Sync.{
  has_key, kept_status, check_key, sync_key, sync_keys, sync_api_keys,
}
use langfuse_operator.Projects.Turns.{
  Turn, kept, stored, lost, Turns, no_more, and_then, sync_api_keys-Turns,
}
use langfuse_operator.Secrets.Generated.{Data}

module _ {S : Type 0} (api : ProjectApi S) (store : SecretApi S) where
  -- The Secret is read, and its public key is in the list.
  abbrev pub Known : List ApiKey → S → String → Type 0
  Known remote s name =
      (d : Data) × (store.get_secret name s ≡ found d)
      × (has_key (text_at d "publicKey") remote ≡ true)

  abbrev pub AllKnown : List ApiKey → S → List ApiKeySpec → Type 0
  AllKnown remote s [] = Unit {0}
  AllKnown remote s (spec ∷ specs) = Known remote s spec.secret_name × AllKnown remote s specs

  module _ (id host : String) (now : ℕ) where
    Turn-kept :
        (remote : List ApiKey) (spec : ApiKeySpec) (s t : S) (status : ApiKeyStatus)
        → Turn api store id host now remote spec s t status
        → status ≡ kept_status spec
        → (t ≡ s) × Known remote s spec.secret_name
    Turn-kept remote spec s t status (kept d g p same e) k = (same, (d, g, p))
    Turn-kept remote spec s t status (stored u v pair n c w e) k =
        absurd (cc (ap (λ r. r.last_rotated) (sym e ∙ k)))
    Turn-kept remote spec s t status (lost u v pair f n c w p e) k =
        absurd (cc (ap (λ r. r.last_rotated) (sym e ∙ k)))

    Turns-kept :
        (remote : List ApiKey) (specs : List ApiKeySpec) (s t : S) (statuses : List ApiKeyStatus)
        → Turns api store id host now remote specs s t statuses
        → statuses ≡ map kept_status specs
        → (t ≡ s) × AllKnown remote s specs
    Turns-kept remote [] s t statuses no_more k = (refl, tt)
    Turns-kept remote (spec ∷ specs) s t statuses (and_then turn later) k =
        let one = Turn-kept remote spec s _ _ turn (cc k) in
        let rest = Turns-kept remote specs _ t _ later (cc k) in
        (rest.0 ∙ one.0, (one.1, subst (λ u. AllKnown remote u specs) one.0 rest.1))

    module _ (namespace : String) (owner : Option ApiError) where
      sync_keys_idle :
          (remote : List ApiKey) (specs : List ApiKeySpec) (s : S)
          → AllKnown remote s specs
          → sync_keys api store namespace id host owner now remote specs s
            ≡ (replied (map kept_status specs), s)
      unfolding sync_keys sync_key check_key
      sync_keys_idle remote [] s k = refl
      sync_keys_idle remote (spec ∷ specs) s ((d, g, p), k) =
          rw (g, p, sync_keys_idle remote specs s k) refl

      -- Where the project has an identifier and Langfuse lists its keys, a pass succeeds with a status that tells no
      -- rotation for any key exactly when every Secret of the spec is read with a listed public key; it then makes no
      -- call that changes the servers, and no status carries a time of rotation from an earlier pass.
      pub sync_api_keys_idle :
          (specs : List ApiKeySpec) (s t : S) (remote : List ApiKey)
          → (id == "") ≡ false
          → api.list_api_keys id s ≡ replied remote
          → (sync_api_keys api store namespace id host owner now specs s
              ≡ (replied (map kept_status specs), t))
            ↔ ((t ≡ s) × AllKnown remote s specs)
      unfolding sync_api_keys
      sync_api_keys_idle specs s t remote ne l = (
        λ h.
            let run =
              sync_api_keys-Turns api store id host now namespace owner specs s t
                (map kept_status specs) h in
            let same : run.0 ≡ remote = cc (run.1, l) in
            rw (← same) (Turns-kept run.0 specs s t (map kept_status specs) run.2 refl),
        λ k. rw (ne, l, k.0) (sync_keys_idle remote specs s k.1),
      )
