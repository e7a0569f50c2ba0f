-- ===== src/Retention/Apply.antt =====
-- How far applyRetention gets.
use langfuse_operator.Common.{
  ℕ, suc, ◌+◌, is_some, Option, List, [], ◌∷◌, take, any, ◌≡◌, refl, arith, if◌then◌else◌, String,
}
use langfuse_operator.Client.{ApiError}
use langfuse_operator.Retention.Statements.{apply_statements}

-- The number of statements ahead of the first that fails.
abbrev pub accepted : (String → Option ApiError) → List String → ℕ
accepted exec [] = 0
accepted exec (s ∷ rest) = let n = accepted exec rest in if is_some (exec s) then 0 else suc n

module _ (exec : String → Option ApiError) where
  apply-counts :
      (ss : List String) (applied : ℕ)
      → (apply_statements exec ss applied).1 ≡ applied + accepted exec ss
  unfolding apply_statements
  apply-counts [] applied = omega arith
  apply-counts (s ∷ rest) applied = ground (arith, apply-counts rest (suc applied))

  apply-sends :
      (ss : List String) (applied : ℕ)
      → (apply_statements exec ss applied).0 ≡ take (suc (accepted exec ss)) ss
  unfolding apply_statements
  apply-sends [] applied = refl
  apply-sends (s ∷ rest) applied = ground (arith, apply-sends rest (suc applied))

  apply-fails :
      (ss : List String) (applied : ℕ)
      → is_some ((apply_statements exec ss applied).2) ≡ any (λ s. is_some (exec s)) ss
  unfolding apply_statements
  apply-fails [] applied = refl
  apply-fails (s ∷ rest) applied = ground (arith, apply-fails rest (suc applied))

  -- The statements are sent in order up to the first that the server refuses, that one included; the ones
  -- ahead of it are counted; there is an error exactly if some statement would be refused.
  pub apply_statements_stops :
      (ss : List String)
      → ((apply_statements exec ss 0).0 ≡ take (suc (accepted exec ss)) ss)
        × ((apply_statements exec ss 0).1 ≡ accepted exec ss)
        × (is_some ((apply_statements exec ss 0).2) ≡ any (λ s. is_some (exec s)) ss)
  apply_statements_stops ss = (apply-sends ss 0, omega (arith, apply-counts ss 0), apply-fails ss 0)
