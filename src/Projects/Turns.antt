-- ===== src/Projects/Turns.antt =====
-- What the turns of syncAPIKeys come to, whatever the servers answer.
use langfuse_operator.Common.{
  ℕ, String, ◌==◌, ◌<>◌, quoted, text_at, Bool, true, false, Option, none, some, List, [], ◌∷◌, ◌≡◌,
  ◌∙◌, refl, sym, ap, arith, Bool-cases, inl, inr,
}
use langfuse_operator.Api.{ApiKeySpec, ApiKeyStatus}
use langfuse_operator.Client.{
  ApiError, ErrorKind, is_not_found, is_already_exists, Got, found, failed,
}
use langfuse_operator.Langfuse.{ApiKey, ApiKeyPair, replied}
use langfuse_operator.Langfuse.Action.{
  Action, pure, ◌>>=◌, ◌>>◌, within, reading, bind-replied, within-replied, reading-replied,
  pure-replied,
}
use langfuse_operator.Organizations.Resolve.{object_key}
use langfuse_operator.Projects.Api.{ProjectApi, SecretApi, tolerate}
use langfuse_operator.Projects.Sync.{
  has_key, kept_status, made_status, key_data, owned, make_key, replace_key, check_key, sync_key,
  sync_keys, sync_api_keys,
}
use langfuse_operator.Secrets.Generated.{Data}

-- Whether a write went through, or its error is of the tolerated kind.
abbrev pub passes_as : (ErrorKind → Bool) → Option ApiError → Bool
passes_as good none = true
passes_as good (some e) = good e.kind

tolerate-passes :
    {S : Type 0} (good : ErrorKind → Bool) (what : String) (r : Option ApiError × S) {s : S}
    → tolerate good what r ≡ (replied tt, s)
    → (answer : Option ApiError) × (r ≡ (answer, s)) × (passes_as good answer ≡ true)
tolerate-passes good what (none, t) h = (none, ap (λ u. (none, u)) (pure-replied h).1, refl)
tolerate-passes good what (some e, t) h = elim (Bool-cases (good e.kind)) [
  | inl p ↦ (some e, ap (λ u. (some e, u)) (pure-replied (rw p at h)).1, p)
  | inr p ↦ cc (rw p at h)
]

module _ {S : Type 0} (api : ProjectApi S) (store : SecretApi S) where
  -- Why a key is needed, and the state behind the removal of what was there: the Secret is missing, or its public key
  -- is not one that Langfuse listed and it was deleted, if it was not gone by then.
  pub data Needed (remote : List ApiKey) (name : String) (s t : S) : Type 0 where
    missing :
        (e : ApiError)
        → store.get_secret name s ≡ failed e
        → is_not_found e.kind ≡ true
        → t ≡ s
        → Needed remote name s t
    stale :
        (d : Data) (answer : Option ApiError)
        → store.get_secret name s ≡ found d
        → has_key (text_at d "publicKey") remote ≡ false
        → store.delete_secret name s ≡ (answer, t)
        → passes_as is_not_found answer ≡ true
        → Needed remote name s t

  module _ (id host : String) (now : ℕ) where
    -- What one key's turn from `s` to `t` did. `lost` is the race with another writer: the pair that Langfuse made is
    -- written nowhere.
    pub data Turn (remote : List ApiKey) (spec : ApiKeySpec) (s t : S) (status : ApiKeyStatus)
        : Type 0 where
      kept :
          (d : Data)
          → store.get_secret spec.secret_name s ≡ found d
          → has_key (text_at d "publicKey") remote ≡ true
          → t ≡ s
          → status ≡ kept_status spec
          → Turn remote spec s t status
      stored :
          (u v : S) (pair : ApiKeyPair)
          → Needed remote spec.secret_name s u
          → api.create_api_key id spec.name u ≡ (replied pair, v)
          → store.create_secret spec.secret_name (key_data pair host) v ≡ (none, t)
          → status ≡ made_status spec now
          → Turn remote spec s t status
      lost :
          (u v : S) (pair : ApiKeyPair) (e : ApiError)
          → Needed remote spec.secret_name s u
          → api.create_api_key id spec.name u ≡ (replied pair, v)
          → store.create_secret spec.secret_name (key_data pair host) v ≡ (some e, t)
          → is_already_exists e.kind ≡ true
          → status ≡ made_status spec now
          → Turn remote spec s t status

    -- One turn for each key of the spec, in its order, each from the state behind the one before.
    pub data Turns (remote : List ApiKey)
        : List ApiKeySpec → S → S → List ApiKeyStatus → Type 0 where
      no_more : {s : S} → Turns remote [] s s []
      and_then :
          {spec : ApiKeySpec} {specs : List ApiKeySpec} {s t u : S} {status : ApiKeyStatus}
          {statuses : List ApiKeyStatus}
          → Turn remote spec s t status
          → Turns remote specs t u statuses
          → Turns remote (spec ∷ specs) s u (status ∷ statuses)

    module _ (namespace : String) (owner : Option ApiError) where
      owned-replied :
          (name : String) (s t : S)
          → owned api store namespace id host owner now name s ≡ (replied tt, t)
          → s ≡ t
      unfolding owned
      owned-replied name s t h = ground arith

      made-Turn :
          (remote : List ApiKey) (spec : ApiKeySpec) (s u v t : S) (pair : ApiKeyPair)
          (status : ApiKeyStatus) (answer : Option ApiError)
          → Needed remote spec.secret_name s u
          → api.create_api_key id spec.name u ≡ (replied pair, v)
          → store.create_secret spec.secret_name (key_data pair host) v ≡ (answer, t)
          → passes_as is_already_exists answer ≡ true
          → status ≡ made_status spec now
          → Turn remote spec s t status
      made-Turn remote spec s u v t pair status none n c w p e = stored u v pair n c w e
      made-Turn remote spec s u v t pair status (some f) n c w p e = lost u v pair f n c w p e

      make_key-Turn :
          (remote : List ApiKey) (spec : ApiKeySpec) (s u t : S) (status : ApiKeyStatus)
          → Needed remote spec.secret_name s u
          → make_key api store namespace id host owner now spec u ≡ (replied status, t)
          → Turn remote spec s t status
      unfolding make_key
      make_key-Turn remote spec s u t status needed h =
          let name = spec.secret_name in
          let what = "creating API key secret " <> quoted name in
          let put : ApiKeyPair → Action S (Unit {0}) = λ pair w.
            tolerate is_already_exists what (store.create_secret name (key_data pair host) w) in
          let rest : ApiKeyPair → Action S ApiKeyStatus = λ pair.
            owned api store namespace id host owner now name
            >> (put pair >> pure (made_status spec now)) in
          let a = bind-replied (within _ (api.create_api_key id spec.name)) rest u h in
          let minted = within-replied _ (api.create_api_key id spec.name) u a.2 in
          let b =
            bind-replied (owned api store namespace id host owner now name)
              (λ _. put a.0 >> pure (made_status spec now)) a.1 a.3 in
          let same = owned-replied name a.1 b.1 b.2 in
          let c = bind-replied (put a.0) (λ _. pure (made_status spec now)) b.1 b.3 in
          let end = pure-replied c.3 in
          let answer = ap (put a.0) same ∙ c.2 ∙ ap (λ w. (replied tt, w)) end.1 in
          let put_in = tolerate-passes is_already_exists what _ answer in
          made-Turn remote spec s u a.1 t a.0 status put_in.0 needed minted put_in.1 put_in.2
            (sym end.0)

      check_key-Turn :
          (remote : List ApiKey) (spec : ApiKeySpec) (s t : S) (status : ApiKeyStatus)
          (got : Got Data)
          → store.get_secret spec.secret_name s ≡ got
          → check_key api store namespace id host owner now remote spec got s ≡ (replied status, t)
          → Turn remote spec s t status
      unfolding check_key replace_key
      check_key-Turn remote spec s t status (failed e) g h =
          elim (Bool-cases (is_not_found e.kind)) [
            | inl p ↦ make_key-Turn remote spec s s t status (missing e g p refl) (rw p at h)
            | inr p ↦ cc (rw p at h)
          ]
      check_key-Turn remote spec s t status (found d) g h =
          elim (Bool-cases (has_key (text_at d "publicKey") remote)) [
            | inl p ↦ let end = pure-replied (rw p at h) in kept d g p (sym end.1) (sym end.0)
            | inr p ↦
                let what =
                  "deleting stale API key secret "
                  <> quoted (object_key namespace spec.secret_name) in
                let drop : Action S (Unit {0}) =
                  λ w. tolerate is_not_found what (store.delete_secret spec.secret_name w) in
                let a =
                  bind-replied drop (λ _. make_key api store namespace id host owner now spec) s
                    (rw p at h) in
                let gone = tolerate-passes is_not_found what _ a.2 in
                make_key-Turn remote spec s a.1 t status (stale d gone.0 g p gone.1 gone.2) a.3
          ]

      sync_keys-Turns :
          (remote : List ApiKey) (specs : List ApiKeySpec) (s t : S) (statuses : List ApiKeyStatus)
          → sync_keys api store namespace id host owner now remote specs s ≡ (replied statuses, t)
          → Turns remote specs s t statuses
      unfolding sync_keys sync_key
      sync_keys-Turns remote [] s t statuses h =
          let end = pure-replied h in rw (← end.0, ← end.1) no_more
      sync_keys-Turns remote (spec ∷ specs) s t statuses h =
          let one = sync_key api store namespace id host owner now remote spec in
          let all = sync_keys api store namespace id host owner now remote specs in
          let rest : ApiKeyStatus → Action S (List ApiKeyStatus) =
            λ status. (all >>= λ later. pure (status ∷ later)) in
          let a = bind-replied one rest s h in
          let b = bind-replied all (λ later. pure (a.0 ∷ later)) a.1 a.3 in
          let end = pure-replied b.3 in
          rw (← end.0, ← end.1)
            (and_then (check_key-Turn remote spec s a.1 a.0 _ refl a.2)
              (sync_keys-Turns remote specs a.1 b.1 b.0 b.2))

      -- A synchronisation that succeeds is a listing and the turns of the spec's keys.
      pub sync_api_keys-Turns :
          (specs : List ApiKeySpec) (s t : S) (statuses : List ApiKeyStatus)
          → sync_api_keys api store namespace id host owner now specs s ≡ (replied statuses, t)
          → (remote : List ApiKey) × (api.list_api_keys id s ≡ replied remote)
            × Turns remote specs s t statuses
      unfolding sync_api_keys
      sync_api_keys-Turns specs s t statuses h = elim (Bool-cases (id == "")) [
        | inl p ↦ cc (rw p at h)
        | inr p ↦
            let b =
              bind-replied (within "listing remote API keys" (reading (api.list_api_keys id)))
                (λ remote. sync_keys api store namespace id host owner now remote specs) s
                (rw p at h) in
            let l = reading-replied _ (api.list_api_keys id) s b.2 in
            (b.0, l.0, rw l.1 (sync_keys-Turns b.0 specs b.1 t statuses b.3))
      ]
