-- ===== src/Common/Text.antt =====
-- Text: what the program uses of Go's `strings`, `strconv` and `fmt`, over the native `String`.
use Prim.Native.Nat.{ℕ, zero, suc, ◌/◌, ◌%◌, Ordering}
use Prim.Native.Char.{Char, code}
use Prim.Native.String.{String, ◌++◌, compare}
use mathlib.Core.Bool.{Bool, true, false, ◌&&◌, ◌||◌}
use mathlib.Core.Option.{Option, none, some}
use mathlib.Core.List.{List, [], ◌∷◌}
use text.Mathlib.Text.{◌==◌}
use langfuse_operator.Common.Tests.{eqb, leb, ltb, if◌then◌else◌}

-- Concatenation of texts; `++` is that of lists.
infixl 65 ◌<>◌
abbrev pub ◌<>◌ : String → String → String
◌<>◌ = ◌++◌

-- strings.Join
unfoldable pub join : List String → String → String
join [] sep = ""
join (s ∷ []) sep = s
join (s ∷ t ∷ r) sep = s <> sep <> join (t ∷ r) sep

-- strings.Cut at a separator of one character: the part before, the part behind, and whether the
-- separator was found. Without it the whole text is the part before.
unfoldable pub cut : ℕ → String → String × String × Bool
cut sep String.[] = ("", "", false)
cut sep (String.◌∷◌ c s) =
    let (before, after, found) = cut sep s in
    if eqb (code c) sep then ("", s, true) else (String.◌∷◌ c before, after, found)

-- A character before the first part of a split.
abbrev pub push_first : Char → List String → List String
push_first c [] = String.◌∷◌ c "" ∷ []
push_first c (p ∷ ps) = String.◌∷◌ c p ∷ ps

-- strings.Split at a separator of one character.
unfoldable pub split : ℕ → String → List String
split sep String.[] = "" ∷ []
split sep (String.◌∷◌ c s) =
    let rest = split sep s in if eqb (code c) sep then "" ∷ rest else push_first c rest

-- strings.CutPrefix: the text behind the prefix, where it has the prefix.
unfoldable pub cut_prefix : String → String → Option String
cut_prefix String.[] s = some s
cut_prefix (String.◌∷◌ p ps) String.[] = none
cut_prefix (String.◌∷◌ p ps) (String.◌∷◌ c s) =
    let rest = cut_prefix ps s in if eqb (code p) (code c) then rest else none

-- strings.TrimPrefix
unfoldable pub trim_prefix : String → String → String
unfolding cut_prefix
trim_prefix p s = elim (cut_prefix p s) [ none ↦ s | some rest ↦ rest ]

-- `s[i+len(sub):]` for `i = strings.Index(s, sub)`, and none for -1.
unfoldable pub after_index : String → String → Option String
unfolding cut_prefix
after_index sub String.[] = cut_prefix sub ""
after_index sub (String.◌∷◌ c s) = elim (cut_prefix sub (String.◌∷◌ c s)) [
  | some rest ↦ some rest
  | none ↦ after_index sub s
]

-- No character of the text has this code.
abbrev pub lacks : ℕ → String → Bool
lacks sep String.[] = true
lacks sep (String.◌∷◌ c s) = let rest = lacks sep s in if eqb (code c) sep then false else rest

digit : ℕ → Char
digit zero = "0"
digit (suc zero) = "1"
digit (suc (suc zero)) = "2"
digit (suc (suc (suc zero))) = "3"
digit (suc (suc (suc (suc zero)))) = "4"
digit (suc (suc (suc (suc (suc zero))))) = "5"
digit (suc (suc (suc (suc (suc (suc zero)))))) = "6"
digit (suc (suc (suc (suc (suc (suc (suc zero))))))) = "7"
digit (suc (suc (suc (suc (suc (suc (suc (suc zero)))))))) = "8"
digit _ = "9"

digits : ℕ → ℕ → String → String
unfolding digit
digits zero n out = out
digits (suc fuel) n out =
    let out' = String.◌∷◌ (digit (n % 10)) out in
    let rest = digits fuel (n / 10) out' in if ltb n 10 then out' else rest

-- strconv.Itoa and %d of a number that is not negative. A number below 2 ^ 64 has twenty digits at
-- most, which is the fuel.
unfoldable pub decimal : ℕ → String
unfolding digits
decimal n = digits 20 n ""

-- %t
unfoldable pub bool_text : Bool → String
bool_text true = "true"
bool_text false = "false"

-- %q, of a text that has nothing to escape.
unfoldable pub quoted : String → String
quoted s = "\"" <> s <> "\""

-- unicode.IsSpace
is_space : ℕ → Bool
is_space c =
    (leb 9 c && leb c 13)
    || eqb c 32
    || eqb c 0x85
    || eqb c 0xA0
    || eqb c 0x1680
    || (leb 0x2000 c && leb c 0x200a)
    || eqb c 0x2028
    || eqb c 0x2029
    || eqb c 0x202f
    || eqb c 0x205f
    || eqb c 0x3000

trim_left : String → String
unfolding is_space
trim_left String.[] = ""
trim_left (String.◌∷◌ c s) =
    let rest = trim_left s in if is_space (code c) then rest else String.◌∷◌ c s

trim_right : String → String
unfolding is_space
trim_right String.[] = ""
trim_right (String.◌∷◌ c s) =
    let rest = trim_right s in if is_space (code c) && rest == "" then "" else String.◌∷◌ c rest

-- strings.TrimSpace
unfoldable pub trim_space : String → String
unfolding trim_left trim_right
trim_space s = trim_right (trim_left s)

-- s < t, byte by byte.
unfoldable pub text_lt : String → String → Bool
text_lt s t = elim (compare s t) [ Ordering.lt ↦ true | _ ↦ false ]
