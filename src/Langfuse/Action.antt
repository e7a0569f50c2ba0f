-- ===== src/Langfuse/Action.antt =====
-- Calls that may change the state of a server and may fail, in sequence.
use langfuse_operator.Common.{String, ◌≡◌, refl, arith}
use langfuse_operator.Langfuse.{Failure, Reply, replied, refused, in_context}

abbrev pub Action : Type 0 → Type 0 → Type 0
Action S A = S → Reply A × S

abbrev pub pure : {S A : Type 0} → A → Action S A
pure a s = (replied a, s)

abbrev pub failing : {S A : Type 0} → Failure → Action S A
failing f s = (refused f, s)

-- An error ends the sequence; what was done stays done.
abbrev pub and_then : {S A B : Type 0} → Reply A × S → (A → Action S B) → Reply B × S
and_then (replied a, s) k = k a s
and_then (refused f, s) k = (refused f, s)

infixl 5 ◌>>=◌ ◌>>◌
abbrev pub ◌>>=◌ : {S A B : Type 0} → Action S A → (A → Action S B) → Action S B
◌>>=◌ m k s = and_then (m s) k

abbrev pub ◌>>◌ : {S B : Type 0} → Action S (Unit {0}) → Action S B → Action S B
m >> k = m >>= λ _. k

abbrev pub wrapped : {A : Type 0} → String → Reply A → Reply A
wrapped what (replied a) = replied a
wrapped what (refused f) = refused (in_context what f)

abbrev pub wrapping : {S A : Type 0} → String → Reply A × S → Reply A × S
wrapping what (r, s) = (wrapped what r, s)

-- The error of an action, with what it was doing.
abbrev pub within : {S A : Type 0} → String → Action S A → Action S A
within what m s = wrapping what (m s)

-- A call that reads.
abbrev pub reading : {S A : Type 0} → (S → Reply A) → Action S A
reading read s = (read s, s)

-- A sequence that succeeds went through a value and a state.
and_then-replied :
    {S A B : Type 0} (r : Reply A × S) (k : A → Action S B) {b : B} {t : S}
    → and_then r k ≡ (replied b, t)
    → (a : A) × (u : S) × (r ≡ (replied a, u)) × (k a u ≡ (replied b, t))
and_then-replied (replied a, s) k h = (a, s, refl, h)
and_then-replied (refused f, s) k h = ground arith

-- The same for an action and the rest of the sequence.
pub bind-replied :
    {S A B : Type 0} (m : Action S A) (k : A → Action S B) (s : S) {b : B} {t : S}
    → (m >>= k) s ≡ (replied b, t)
    → (a : A) × (u : S) × (m s ≡ (replied a, u)) × (k a u ≡ (replied b, t))
bind-replied m k s h = and_then-replied (m s) k h

wrapping-replied :
    {S A : Type 0} (what : String) (r : Reply A × S) {a : A} {t : S}
    → wrapping what r ≡ (replied a, t)
    → r ≡ (replied a, t)
wrapping-replied what (replied a, s) h = h
wrapping-replied what (refused f, s) h = ground arith

pub within-replied :
    {S A : Type 0} (what : String) (m : Action S A) (s : S) {a : A} {t : S}
    → within what m s ≡ (replied a, t)
    → m s ≡ (replied a, t)
within-replied what m s h = wrapping-replied what (m s) h

pub pure-replied :
    {S A : Type 0} {a b : A} {s t : S} → pure a s ≡ (replied b, t) → (a ≡ b) × (s ≡ t)
pure-replied h = (cc h, cc h)

-- A call that reads leaves the state.
pub reading-replied :
    {S A : Type 0} (what : String) (read : S → Reply A) (s : S) {a : A} {t : S}
    → within what (reading read) s ≡ (replied a, t)
    → (read s ≡ replied a) × (s ≡ t)
reading-replied what read s h = let e = within-replied what (reading read) s h in (cc e, cc e)
