-- ===== src/Common/Int.antt =====
-- The signed fields of the spec (int32), under the library's names. `negsuc n` is -(n + 1).
use Prim.Native.Nat.{ℕ, zero, suc, ◌+◌}
use Prim.Native.String.{String}
use mathlib.Core.Bool.{Bool, true, false}
use langfuse_operator.Common.Tests.{leb}
use langfuse_operator.Common.Text.{◌<>◌, decimal}

pub data ℤ : Type 0 where
  pos : ℕ → ℤ
  negsuc : ℕ → ℤ

-- 0 < z
abbrev pub is_pos : ℤ → Bool
is_pos (pos zero) = false
is_pos (pos (suc n)) = true
is_pos (negsuc n) = false

-- The value of an integer that is above 0.
abbrev pub to_ℕ : ℤ → ℕ
to_ℕ (pos n) = n
to_ℕ (negsuc n) = 0

-- z ≤ n, for a natural number n.
abbrev pub le_ℕ : ℤ → ℕ → Bool
le_ℕ (pos z) n = leb z n
le_ℕ (negsuc z) n = true

-- %d
unfoldable pub show_ℤ : ℤ → String
unfolding decimal
show_ℤ (pos n) = decimal n
show_ℤ (negsuc n) = "-" <> decimal (n + 1)
