-- ===== src/Schedule/Arith.antt =====
-- Multiples of an interval.
use ssv_oracle.Prelude.{ℕ, ◌+◌, ◌*◌, ◌/◌, ◌%◌, ◌≤◌, ◌<◌, ◌≡◌, arith}

pub lt-next_multiple : (x d : ℕ) → 0 < d → x < (x / d + 1) * d
lt-next_multiple x d h = grind arith

pub next_multiple-le : (x d : ℕ) → 0 < d → (x / d + 1) * d ≤ x + d
next_multiple-le x d h = grind arith

-- No multiple lies strictly between a number and the next multiple.
pub next_multiple_least : (x d k : ℕ) → 0 < d → x < k * d → (x / d + 1) * d ≤ k * d
next_multiple_least x d k h p = grind arith

pub multiple_of_mod : (x d : ℕ) → x % d ≡ 0 → (x / d) * d ≡ x
multiple_of_mod x d h = grind arith
