-- ===== src/Execution/BatchSize/Bounds.antt =====
-- For the adaptive batch size: its bounds and its moves.
use ssv_oracle.Prelude.{ℕ, ◌+◌, ◌/◌, ◌≤◌, ◌<◌, ◌≡◌, ◌⊎◌, u64_mod, arith}
use ssv_oracle.Execution.BatchSize.{AdaptiveBatchSize, new, decrease, increase}

pub record IsWithin (a : AdaptiveBatchSize) : Type 0 where
  pub min_pos : 1 ≤ a.min
  pub min_le : a.min ≤ a.current
  pub le_max : a.current ≤ a.max
  pub room : a.max + 100 < u64_mod

pub new-IsWithin : (min max : ℕ) → max + 100 < u64_mod → IsWithin (new min max)
unfolding new
new-IsWithin min max h = ground arith

pub decrease-IsWithin : (a : AdaptiveBatchSize) → IsWithin a → IsWithin (decrease a)
unfolding decrease
decrease-IsWithin a h = ground arith

pub increase-IsWithin : (a : AdaptiveBatchSize) → IsWithin a → IsWithin (increase a)
unfolding increase
increase-IsWithin a h = ground arith

-- Decrease halves the batch size or sets the minimum. Increase sets the maximum or grows the size by
-- at least one, at most 100, and at most a tenth plus one.
pub aimd :
    (a : AdaptiveBatchSize)
    → IsWithin a
    → (((decrease a).current ≡ a.min) ⊎ ((decrease a).current ≡ a.current / 2))
      × (((increase a).current ≡ a.max)
          ⊎ ((a.current < (increase a).current)
              × ((increase a).current ≤ a.current + 100)
              × ((increase a).current ≤ a.current + a.current / 10 + 1)))
unfolding decrease increase
aimd a h = ground arith
