-- ===== src/Api/Conditions.antt =====
-- The condition list of a status. The package k8s.io/apimachinery/pkg/api/meta keeps it; the operator
-- relies on the laws below. The time of the last transition is not modelled.
use langfuse_operator.Common.{
  ℕ, String, ◌==◌, ◌≡◌, refl, Option, none, some, List, [], ◌∷◌, arith, eq_iff, if◌then◌else◌,
}

pub data ConditionStatus : Type 0 where
  condition_true condition_false condition_unknown : ConditionStatus

pub record Condition : Type 0 where
  pub type : String
  pub status : ConditionStatus
  pub reason : String
  pub message : String
  pub observed_generation : ℕ

-- FindStatusCondition, SetStatusCondition and RemoveStatusCondition, as their documentation has them.
pub record ConditionApi : Type 1 where
  pub Conditions : Type 0
  pub find : Conditions → String → Option Condition
  pub set : Conditions → Condition → Conditions
  pub remove : Conditions → String → Conditions
  pub find-set :
      (cs : Conditions) (c : Condition) (t : String)
      → find (set cs c) t ≡ (if c.type == t then some c else find cs t)
  pub find-remove :
      (cs : Conditions) (t u : String) → find (remove cs t) u ≡ (if t == u then none else find cs u)

unfoldable pub find_in : List Condition → String → Option Condition
find_in [] t = none
find_in (c ∷ cs) t = if c.type == t then some c else find_in cs t

unfoldable pub set_in : List Condition → Condition → List Condition
set_in [] c = c ∷ []
set_in (d ∷ cs) c = if d.type == c.type then c ∷ cs else d ∷ set_in cs c

unfoldable pub remove_in : List Condition → String → List Condition
remove_in [] t = []
remove_in (c ∷ cs) t = let rest = remove_in cs t in if c.type == t then rest else c ∷ rest

pub find_in-set_in :
    (cs : List Condition) (c : Condition) (t : String)
    → find_in (set_in cs c) t ≡ (if c.type == t then some c else find_in cs t)
unfolding find_in set_in
find_in-set_in [] c t = refl
find_in-set_in (d ∷ cs) c t =
    ground (arith, find_in-set_in cs c t, eq_iff d.type c.type, eq_iff c.type t, eq_iff d.type t)

pub find_in-remove_in :
    (cs : List Condition) (t u : String)
    → find_in (remove_in cs t) u ≡ (if t == u then none else find_in cs u)
unfolding find_in remove_in
find_in-remove_in [] t u = ground arith
find_in-remove_in (d ∷ cs) t u =
    ground (arith, find_in-remove_in cs t u, eq_iff d.type t, eq_iff t u, eq_iff d.type u)

-- A list with one entry for a type meets the laws.
abbrev pub listed : ConditionApi
listed = record {
  Conditions = List Condition;
  find = find_in;
  set = set_in;
  remove = remove_in;
  find-set = find_in-set_in;
  find-remove = find_in-remove_in;
}
