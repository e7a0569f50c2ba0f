-- ===== src/Common/Lists.antt =====
-- Lists measured by native numbers, tests over them, and dictionaries keyed by texts.
use Prim.Native.Nat.{ℕ, zero, suc, ◌+◌}
use Prim.Native.String.{String}
use mathlib.Core.Path.{◌≡◌, refl, ap}
use mathlib.Core.Bool.{Bool, true, false, ◌||◌}
use mathlib.Core.Option.{Option, none, some}
use mathlib.Core.List.{List, [], ◌∷◌, ◌++◌, map}
use native.Mathlib.Omega.{arith}
use text.Mathlib.Text.{◌==◌}
use langfuse_operator.Common.Tests.{if◌then◌else◌}

module _ {ℓ} {A : Type ℓ} where
  abbrev pub length : List A → ℕ
  length [] = 0
  length (x ∷ xs) = suc (length xs)

  abbrev pub take : ℕ → List A → List A
  take zero xs = []
  take (suc n) [] = []
  take (suc n) (x ∷ xs) = x ∷ take n xs

  abbrev pub is_empty : List A → Bool
  is_empty [] = true
  is_empty (_ ∷ _) = false

  abbrev pub any : (A → Bool) → List A → Bool
  any p [] = false
  any p (x ∷ xs) = p x || any p xs

  -- One element where the test passes, none where it fails.
  abbrev pub only_if : Bool → List A → List A
  only_if true xs = xs
  only_if false xs = []

  pub length-append : (xs ys : List A) → length (xs ++ ys) ≡ length xs + length ys
  length-append [] ys = omega arith
  length-append (x ∷ xs) ys = omega (arith, length-append xs ys)

module _ {ℓ} {A : Type ℓ} where
  pub any-append : (p : A → Bool) (xs ys : List A) → any p (xs ++ ys) ≡ (any p xs || any p ys)
  any-append p [] ys = refl
  any-append p (x ∷ xs) ys = ground (arith, any-append p xs ys)

pub map-append :
    {A B : Type 0} (f : A → B) (xs ys : List A) → map f (xs ++ ys) ≡ map f xs ++ map f ys
map-append f [] ys = refl
map-append f (x ∷ xs) ys = ap (λ zs. f x ∷ zs) (map-append f xs ys)

abbrev pub contains : String → List String → Bool
contains s [] = false
contains s (t ∷ ts) = s == t || contains s ts

pub contains-append :
    (s : String) (xs ys : List String) → contains s (xs ++ ys) ≡ (contains s xs || contains s ys)
contains-append s [] ys = refl
contains-append s (x ∷ xs) ys = ground (arith, contains-append s xs ys)

-- A Go map of texts as an association list with the newest entry first; iteration order is not
-- modelled.
unfoldable pub lookup : String → List (String × String) → Option String
lookup key [] = none
lookup key (entry ∷ older) = if entry.0 == key then some entry.1 else lookup key older

-- m[key] = value
unfoldable pub insert : String → String → List (String × String) → List (String × String)
insert key value entries = (key, value) ∷ entries

-- `m[k]` at a map of texts: the empty text where the key is missing.
unfoldable pub text_at : List (String × String) → String → String
unfolding lookup
text_at m k = elim (lookup k m) [ none ↦ "" | some v ↦ v ]

-- The default of a key that is unset or empty.
unfoldable pub non_empty_or : String → String → String
non_empty_or s d = if s == "" then d else s

-- What a pointer that is not nil contributes.
abbrev pub when_some {ℓ κ} : {A : Type ℓ} {B : Type κ} → Option A → (A → List B) → List B
when_some none f = []
when_some (some a) f = f a
