-- ===== src/Common/Fallible.antt =====
-- A value or the text of an error, and a lemma on tests that return an option.
use Prim.Native.String.{String}
use mathlib.Core.Path.{◌≡◌, refl}
use mathlib.Core.Logic.{◌⊎◌, inl, inr}
use mathlib.Core.Bool.{Bool, true, false}
use mathlib.Core.Option.{Option, none, some}
use langfuse_operator.Common.Tests.{if◌then◌else◌}
use native.Mathlib.Omega.{arith}

pub data Result {ℓ} (A : Type ℓ) : Type ℓ where
  ok : A → Result A
  err : String → Result A

infixl 5 ◌>>=◌
abbrev pub ◌>>=◌ {ℓ κ} : {A : Type ℓ} {B : Type κ} → Result A → (A → Result B) → Result B
ok a >>= f = f a
err e >>= f = err e

-- A chain that succeeds went through a value.
pub bind-ok :
    {A B : Type 0} (r : Result A) (k : A → Result B) {b : B}
    → (r >>= k) ≡ ok b
    → (a : A) × ((r ≡ ok a) × (k a ≡ ok b))
bind-ok (ok a) k h = (a, (refl, h))
bind-ok (err e) k h = ground arith

pub ok-injective : {A : Type 0} {a b : A} → ok a ≡ ok b → a ≡ b
ok-injective h = cc h

pub if_some {ℓ} : {A : Type ℓ} (b : Bool) (x y : A) → (if b then some x else none) ≡ some y → y ≡ x
if_some true x y h = cc h
if_some false x y h = cc h

-- What holds of the value, where there is one.
abbrev pub OnSome : {A : Type 0} → Option A → (A → Type 0) → Type 0
OnSome none P = Unit {0}
OnSome (some a) P = P a

pub on_some :
    {A : Type 0} (o : Option A) (P : A → Type 0) → ((a : A) → o ≡ some a → P a) → OnSome o P
on_some none P k = tt
on_some (some a) P k = k a refl

pub Result-cases :
    {A : Type 0} (r : Result A) → ((a : A) × (r ≡ ok a)) ⊎ ((e : String) × (r ≡ err e))
Result-cases (ok a) = inl (a, refl)
Result-cases (err e) = inr (e, refl)
