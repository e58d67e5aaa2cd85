-- ===== src/Prelude/Int.antt =====
-- Go's `int` where a configuration may hold a negative value.
use Prim.Native.Nat.{ℕ}
use mathlib.Core.Bool.{Bool, true, false}
use ssv_oracle.Prelude.Tests.{ltb, ◌==◌}

-- `negsuc n` is -(n + 1).
pub data ℤ : Type 0 where
  pos : ℕ → ℤ
  negsuc : ℕ → ℤ

abbrev pub pos_part : ℤ → ℕ
pos_part (pos n) = n
pos_part (negsuc n) = 0

-- x < n for a literal n that is not negative.
abbrev pub below : ℤ → ℕ → Bool
below (pos x) n = ltb x n
below (negsuc x) n = true

-- n < x
abbrev pub above : ℤ → ℕ → Bool
above (pos x) n = ltb n x
above (negsuc x) n = false

abbrev pub is_zero : ℤ → Bool
is_zero (pos x) = x == 0
is_zero (negsuc x) = false
