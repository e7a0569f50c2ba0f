-- ===== src/Config/Names/Fits.antt =====
-- Variables whose names are some of a list of names, in its order.
use langfuse_operator.Common.{
  String, ◌==◌, Bool, true, false, not, ◌&&◌, Option, none, some, List, [], ◌∷◌, ◌++◌, contains,
  only_if, when_some, ◌≡◌, refl, arith,
}
use langfuse_operator.Config.Env.{EnvVar, env_if_set, env_if_mapped}

pub data Fits : List EnvVar → List String → Type 0 where
  fits_nil : Fits [] []
  keep :
      {v : EnvVar} {vs : List EnvVar} {ns : List String} → Fits vs ns → Fits (v ∷ vs) (v.name ∷ ns)
  skip : {n : String} {vs : List EnvVar} {ns : List String} → Fits vs ns → Fits vs (n ∷ ns)

pub Fits-none : (ns : List String) → Fits [] ns
Fits-none [] = fits_nil
Fits-none (n ∷ ns) = skip (Fits-none ns)

pub Fits-append :
    {vs ws : List EnvVar} {ms ns : List String}
    → Fits vs ms
    → Fits ws ns
    → Fits (vs ++ ws) (ms ++ ns)
Fits-append fits_nil g = g
Fits-append (keep f) g = keep (Fits-append f g)
Fits-append (skip f) g = skip (Fits-append f g)

pub Fits-append_none :
    {vs : List EnvVar} {ms : List String} (ns : List String) → Fits vs ms → Fits vs (ms ++ ns)
Fits-append_none ns fits_nil = Fits-none ns
Fits-append_none ns (keep f) = keep (Fits-append_none ns f)
Fits-append_none ns (skip f) = skip (Fits-append_none ns f)

pub Fits-if : {vs : List EnvVar} {ns : List String} (b : Bool) → Fits vs ns → Fits (only_if b vs) ns
Fits-if true f = f
Fits-if {ns} false f = Fits-none ns

pub Fits-when :
    {A : Type 0} {g : A → List EnvVar} {ns : List String} (o : Option A)
    → ((a : A) → Fits (g a) ns)
    → Fits (when_some o g) ns
Fits-when {ns} none f = Fits-none ns
Fits-when (some a) f = f a

pub one : (v : EnvVar) → Fits (v ∷ []) (v.name ∷ [])
one v = keep fits_nil

pub two : (v w : EnvVar) → Fits (v ∷ w ∷ []) (v.name ∷ w.name ∷ [])
two v w = keep (keep fits_nil)

pub set-Fits : (name v : String) → Fits (env_if_set name v) (name ∷ [])
set-Fits name v = Fits-if (not (v == "")) (keep fits_nil)

pub mapped-Fits : (name secret key : String) → Fits (env_if_mapped name secret key) (name ∷ [])
mapped-Fits name secret key = Fits-if (not (key == "")) (keep fits_nil)

-- One more piece in front, of one name.
infixr 6 ◌then◌
pub ◌then◌ :
    {vs ws : List EnvVar} {n : String} {ns : List String}
    → Fits vs (n ∷ [])
    → Fits ws ns
    → Fits (vs ++ ws) (n ∷ ns)
f then g = Fits-append f g

abbrev pub names : List EnvVar → List String
names [] = []
names (v ∷ vs) = v.name ∷ names vs

abbrev pub distinct : List String → Bool
distinct [] = true
distinct (n ∷ ns) = not (contains n ns) && distinct ns

pub contains-Fits :
    {vs : List EnvVar} {ns : List String} (s : String)
    → Fits vs ns
    → contains s ns ≡ false
    → contains s (names vs) ≡ false
contains-Fits s fits_nil h = refl
contains-Fits s (keep f) h = ground (arith, contains-Fits s f)
contains-Fits s (skip f) h = ground (arith, contains-Fits s f)

pub distinct-Fits :
    {vs : List EnvVar} {ns : List String}
    → Fits vs ns
    → distinct ns ≡ true
    → distinct (names vs) ≡ true
distinct-Fits fits_nil h = refl
distinct-Fits (keep {v} f) h = ground (arith, distinct-Fits f, contains-Fits v.name f)
distinct-Fits (skip f) h = ground (arith, distinct-Fits f)
