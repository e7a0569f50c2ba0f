-- ===== src/Secrets/Backfill.antt =====
-- What a backfill keeps and adds.
use langfuse_operator.Common.{
  String, ◌==◌, true, false, is_some, Option, none, some, List, [], ◌∷◌, ◌≡◌, refl, sym, ap, ◌∙◌,
  arith, eq_iff, eq_refl, lookup, insert, contains, Result, ok, err, bind-ok, Bool-cases, inl, inr,
  ok-injective,
}
use langfuse_operator.Client.{ApiError, found}
use langfuse_operator.Secrets.Generated.{
  Data, Generator, generated_secret_keys, generate, backfill, named, SecretRequest, update_secret,
  create_secret, SecretAnswers, ensure_generated_secret, update_with, added,
}

lookup-insert_other :
    (key k : String) (v : String) (entries : Data)
    → is_some (lookup key entries) ≡ false
    → is_some (lookup k entries) ≡ true
    → lookup k (insert key v entries) ≡ lookup k entries
unfolding lookup insert
lookup-insert_other key k v entries absent there = ground (arith, eq_iff key k)

lookup-insert_self :
    (key v : String) (entries : Data) → is_some (lookup key (insert key v entries)) ≡ true
unfolding lookup insert
lookup-insert_self key v entries = ground (arith, eq_refl key)

-- The entries that were there are kept.
backfill-keeps :
    (random : Generator) (keys : List String) (entries : Data) {new : Data}
    → backfill random keys entries ≡ ok new
    → (k : String) → is_some (lookup k entries) ≡ true
    → lookup k new ≡ lookup k entries
unfolding backfill
backfill-keeps random [] entries h k there = ap (lookup k) (sym (ok-injective h))
backfill-keeps random (key ∷ keys) entries h k there =
    elim (Bool-cases (is_some (lookup key entries))) [
      | inl p ↦ backfill-keeps random keys entries (rw p at h) k there
      | inr p ↦
          let b = bind-ok (named key (generate random key)) _ (rw p at h) in
          let other = lookup-insert_other key k b.0 entries p there in
          backfill-keeps random keys (insert key b.0 entries) b.1.1 k (rw other there) ∙ other
    ]

-- Every key of the list is there.
backfill-completes :
    (random : Generator) (keys : List String) (entries : Data) {new : Data}
    → backfill random keys entries ≡ ok new
    → (k : String) → contains k keys ≡ true
    → is_some (lookup k new) ≡ true
unfolding backfill
backfill-completes random [] entries h k m = cc m
backfill-completes random (key ∷ keys) entries h k m =
    elim (Bool-cases (is_some (lookup key entries))) [
      | inl p ↦ elim (Bool-cases (k == key)) [
        | inl e ↦
            let same = (eq_iff k key).0 e in
            let kept = backfill-keeps random keys entries (rw p at h) key p in rw same (rw kept p)
        | inr e ↦ backfill-completes random keys entries (rw p at h) k (ground (arith, m, e))
      ]
      | inr p ↦
          let b = bind-ok (named key (generate random key)) _ (rw p at h) in
          let q = lookup-insert_self key b.0 entries in
          elim (Bool-cases (k == key)) [
            | inl e ↦
                let same = (eq_iff k key).0 e in
                let kept = backfill-keeps random keys (insert key b.0 entries) b.1.1 key q in
                rw same (rw kept q)
            | inr e ↦
                backfill-completes random keys (insert key b.0 entries) b.1.1 k
                  (ground (arith, m, e))
          ]
    ]

-- Nothing is generated where every key is there.
backfill_idle :
    (random : Generator) (keys : List String) (entries : Data)
    → ((k : String) → contains k keys ≡ true → is_some (lookup k entries) ≡ true)
    → backfill random keys entries ≡ ok entries
unfolding backfill
backfill_idle random [] entries h = refl
backfill_idle random (key ∷ keys) entries h =
    rw (h key (ground (arith, eq_refl key)))
      (backfill_idle random keys entries (λ k m. h k (ground (arith, m))))

added-same : (entries : Data) → added entries entries ≡ false
added-same [] = refl
added-same (e ∷ rest) = added-same rest

-- The data that a pass sends, in an update or in a new Secret.
abbrev pub sent : List SecretRequest → Option Data
sent [] = none
sent (update_secret entries ∷ rest) = some entries
sent (create_secret entries ∷ rest) = some entries

update_with-sent :
    (old : Data) (r : Result Data) (answer : Option ApiError) {new : Data}
    → sent ((update_with old r answer).0) ≡ some new
    → r ≡ ok new
unfolding update_with
update_with-sent old (err e) answer h = cc h
update_with-sent old (ok n) answer h = elim (Bool-cases (added old n)) [
  | inl p ↦ cc (rw p at h)
  | inr p ↦ cc (rw p at h)
]

-- A Secret that is there keeps the value of every key that it has, and where an update is sent, it holds
-- every key that the operator owns.
pub ensure-keeps :
    (random : Generator) (entries : Data) (ans : SecretAnswers) {new : Data}
    → sent ((ensure_generated_secret random (found entries) ans).0) ≡ some new
    → ((k : String) → is_some (lookup k entries) ≡ true → lookup k new ≡ lookup k entries)
      × ((k : String) → contains k generated_secret_keys ≡ true → is_some (lookup k new) ≡ true)
unfolding ensure_generated_secret
ensure-keeps random entries ans h =
    let r = update_with-sent entries _ ans.write h in
    (
      backfill-keeps random generated_secret_keys entries r,
      backfill-completes random generated_secret_keys entries r,
    )

-- A pass over the data that an earlier pass sent for an existing Secret sends nothing and fails with
-- nothing, whatever the generators would give.
pub ensure-settles :
    (random random' : Generator) (entries : Data) (ans ans' : SecretAnswers) {new : Data}
    → sent ((ensure_generated_secret random (found entries) ans).0) ≡ some new
    → ensure_generated_secret random' (found new) ans' ≡ ([], none)
unfolding ensure_generated_secret update_with
ensure-settles random random' entries ans ans' {new} h =
    let full = (ensure-keeps random entries ans h).1 in
    rw (backfill_idle random' generated_secret_keys new full, added-same new) refl
