-- ===== src/Base/Int.antt =====
-- A signed C argument.
use Prim.Native.Nat.{ℕ}
use mathlib.Core.Bool.{Bool, true}
use pg_cuvs.Base.Tests.{◌==◌}

pub data ℤ : Type 0 where
  pos : ℕ → ℤ
  negsuc : ℕ → ℤ

-- The number, or 0 below 0.
abbrev pub magnitude : ℤ → ℕ
magnitude (pos n) = n
magnitude (negsuc n) = 0

abbrev pub at_most_zero : ℤ → Bool
at_most_zero (pos n) = n == 0
at_most_zero (negsuc n) = true
