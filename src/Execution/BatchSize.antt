-- ===== src/Execution/BatchSize.antt =====
-- eth/execution/batch_size.go. Every method holds the mutex from start to end, so a call is one
-- step; Decrease and Increase return the new `current`.
pub mod Bounds
use ssv_oracle.Prelude.{ℕ, ◌+◌, ◌/◌, ltb, ◌==◌, if◌then◌else◌, u64}

pub record AdaptiveBatchSize : Type 0 where
  pub current : ℕ
  pub min : ℕ
  pub max : ℕ

-- NewAdaptiveBatchSize
unfoldable pub new : ℕ → ℕ → AdaptiveBatchSize
new min max =
    let min₁ = if min == 0 then 200 else min in
    let max₁ = if max == 0 then 10000 else max in
    record { current = max₁; min = if ltb max₁ min₁ then max₁ else min₁; max = max₁ }

-- Decrease
unfoldable pub decrease : AdaptiveBatchSize → AdaptiveBatchSize
decrease a =
    let half = a.current / 2 in record a { current = if ltb half a.min then a.min else half }

-- Increase
unfoldable pub increase : AdaptiveBatchSize → AdaptiveBatchSize
increase a =
    let tenth = a.current / 10 in
    let capped = if ltb 100 tenth then 100 else tenth in
    let increment = if ltb capped 1 then 1 else capped in
    let next = u64 (a.current + increment) in
    record a { current = if ltb a.max next then a.max else next }
