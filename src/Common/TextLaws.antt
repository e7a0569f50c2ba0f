-- ===== src/Common/TextLaws.antt =====
-- Laws of the text functions: what a separator or a prefix does at the front of a concatenation.
use Prim.Native.Nat.{ℕ}
use Prim.Native.Char.{Char, code}
use Prim.Native.String.{String}
use mathlib.Core.Path.{◌≡◌, refl}
use mathlib.Core.Bool.{Bool, true, false}
use mathlib.Core.Option.{none, some}
use mathlib.Core.List.{[], ◌∷◌}
use native.Mathlib.Omega.{arith}
use text.Mathlib.TextLemmas.{nil-append, cons-append}
use langfuse_operator.Common.Tests.{eqb, if◌then◌else◌}
use langfuse_operator.Common.Text.{◌<>◌, lacks, cut, split, cut_prefix, after_index}

-- The texts differ at some place inside both.
abbrev pub clash : String → String → Bool
clash String.[] t = false
clash (String.◌∷◌ c s) String.[] = false
clash (String.◌∷◌ c s) (String.◌∷◌ d t) =
    let rest = clash s t in if eqb (code c) (code d) then rest else true

pub cut_prefix_self : (p x : String) → cut_prefix p (p <> x) ≡ some x
unfolding cut_prefix
cut_prefix_self String.[] x = rw nil-append
cut_prefix_self (String.◌∷◌ c p) x = rw cons-append (ground (arith, cut_prefix_self p x))

pub cut_prefix-clash : (p q x : String) → clash p q ≡ true → cut_prefix p (q <> x) ≡ none
unfolding cut_prefix
cut_prefix-clash String.[] q x h = cc
cut_prefix-clash (String.◌∷◌ c p) String.[] x h = cc
cut_prefix-clash (String.◌∷◌ c p) (String.◌∷◌ d q) x h =
    rw cons-append (ground (arith, cut_prefix-clash p q x))

-- A text that lacks a character has no prefix that holds it.
pub cut_prefix-lacks :
    (sep : ℕ) (p s : String) → lacks sep p ≡ false → lacks sep s ≡ true → cut_prefix p s ≡ none
unfolding cut_prefix
cut_prefix-lacks sep String.[] s h k = cc
cut_prefix-lacks sep (String.◌∷◌ c p) String.[] h k = refl
cut_prefix-lacks sep (String.◌∷◌ c p) (String.◌∷◌ d s) h k =
    ground (arith, cut_prefix-lacks sep p s)

pub lacks-append :
    (sep : ℕ) (s t : String) → lacks sep s ≡ true → lacks sep t ≡ true → lacks sep (s <> t) ≡ true
lacks-append sep String.[] t h k = rw nil-append k
lacks-append sep (String.◌∷◌ c s) t h k = rw cons-append (ground (arith, lacks-append sep s t))

-- A part that lacks the separator is the first of the split, where the separator follows it.
pub split_at_sep :
    (sep : Char) (s t : String)
    → lacks (code sep) s ≡ true
    → split (code sep) (s <> String.◌∷◌ sep t) ≡ s ∷ split (code sep) t
unfolding split
split_at_sep sep String.[] t h = rw nil-append (ground arith)
split_at_sep sep (String.◌∷◌ c s) t h = rw cons-append (ground (arith, split_at_sep sep s t))

pub split_last : (sep : ℕ) (s : String) → lacks sep s ≡ true → split sep s ≡ s ∷ []
unfolding split
split_last sep String.[] h = refl
split_last sep (String.◌∷◌ c s) h = ground (arith, split_last sep s)

pub cut_at_sep :
    (sep : Char) (s t : String)
    → lacks (code sep) s ≡ true
    → cut (code sep) (s <> String.◌∷◌ sep t) ≡ (s, t, true)
unfolding cut
cut_at_sep sep String.[] t h = rw nil-append (ground arith)
cut_at_sep sep (String.◌∷◌ c s) t h = rw cons-append (ground (arith, cut_at_sep sep s t))

pub cut_none : (sep : ℕ) (s : String) → lacks sep s ≡ true → cut sep s ≡ (s, "", false)
unfolding cut
cut_none sep String.[] h = refl
cut_none sep (String.◌∷◌ c s) h = ground (arith, cut_none sep s)

-- A search for a text that begins with `sep` passes over what lacks `sep`.
pub after_index_skip :
    (sep : Char) (sub s t : String)
    → lacks (code sep) s ≡ true
    → after_index (String.◌∷◌ sep sub) (s <> t) ≡ after_index (String.◌∷◌ sep sub) t
unfolding after_index
after_index_skip sep sub String.[] t h = rw nil-append
after_index_skip sep sub (String.◌∷◌ c s) t h =
    rw cons-append (ground (arith, after_index_skip sep sub s t))

-- It also passes over a `sep` behind which the text differs.
pub after_index-clash :
    (sep : Char) (sub q t : String)
    → clash sub q ≡ true
    → after_index (String.◌∷◌ sep sub) (String.◌∷◌ sep (q <> t))
      ≡ after_index (String.◌∷◌ sep sub) (q <> t)
unfolding after_index
after_index-clash sep sub q t h = ground (arith, cut_prefix-clash sub q t)

pub after_index_here :
    (sep : Char) (sub t : String)
    → after_index (String.◌∷◌ sep sub) (String.◌∷◌ sep (sub <> t)) ≡ some t
unfolding after_index
after_index_here sep sub t = ground (arith, cut_prefix_self sub t)

pub lacks_at_sep : (sep : Char) (s t : String) → lacks (code sep) (s <> String.◌∷◌ sep t) ≡ false
lacks_at_sep sep String.[] t = rw nil-append (ground arith)
lacks_at_sep sep (String.◌∷◌ c s) t = rw cons-append (ground (arith, lacks_at_sep sep s t))
