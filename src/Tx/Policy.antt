-- ===== src/Tx/Policy.antt =====
-- txmanager/config.go.
use ssv_oracle.Prelude.{
  ℕ, ◌*◌, ◌≤◌, ◌≡◌, ◌||◌, Option, none, some, ℤ, pos, pos_part, below, above, is_zero, ltb, ◌==◌,
  if◌then◌else◌, arith,
}

-- A time.Duration is a number of nanoseconds.
pub record TxPolicy : Type 0 where
  pub gas_buffer_percent : ℤ
  pub max_fee_per_gas_gwei : ℕ  -- uint64
  pub pending_timeout_blocks : ℤ
  pub gas_bump_percent : ℤ
  pub max_attempts : ℤ
  pub retry_delay : ℤ

abbrev default_to : ℕ → ℤ → ℤ
default_to d x = if is_zero x then pos d else x

-- ApplyDefaults
unfoldable pub apply_defaults : TxPolicy → TxPolicy
apply_defaults p = record {
  gas_buffer_percent = default_to 20 p.gas_buffer_percent;
  max_fee_per_gas_gwei = if p.max_fee_per_gas_gwei == 0 then 420 else p.max_fee_per_gas_gwei;
  pending_timeout_blocks = default_to 10 p.pending_timeout_blocks;
  gas_bump_percent = default_to 10 p.gas_bump_percent;
  max_attempts = default_to 3 p.max_attempts;
  retry_delay = default_to 5_000_000_000 p.retry_delay;
}

pub data PolicyError : Type 0 where
  gas_buffer gas_bump pending_timeout attempts delay max_fee : PolicyError

-- Validate; `none` is a nil error.
unfoldable pub validate : TxPolicy → Option PolicyError
validate p =
    if below p.gas_buffer_percent 0 || above p.gas_buffer_percent 100
    then some gas_buffer
    else if below p.gas_bump_percent 10
    then some gas_bump
    else if below p.pending_timeout_blocks 1
    then some pending_timeout
    else if below p.max_attempts 1
    then some attempts
    else if below p.retry_delay 0
    then some delay
    else if ltb p.max_fee_per_gas_gwei 1
    then some max_fee
    else none

-- MaxFeePerGasWei
unfoldable pub max_fee_wei : TxPolicy → ℕ
max_fee_wei p = p.max_fee_per_gas_gwei * 1_000_000_000

-- The ranges of a valid policy.
pub record IsValid (p : TxPolicy) : Type 0 where
  pub buffer_nonneg : p.gas_buffer_percent ≡ pos (pos_part p.gas_buffer_percent)
  pub buffer_le : pos_part p.gas_buffer_percent ≤ 100
  pub bump_ge : 10 ≤ pos_part p.gas_bump_percent
  pub timeout_pos : 1 ≤ pos_part p.pending_timeout_blocks
  pub attempts_pos : 1 ≤ pos_part p.max_attempts
  pub max_fee_ge : 1_000_000_000 ≤ max_fee_wei p

-- A policy that Validate accepts has a gas buffer from 0 to 100 percent, a bump of at least 10 percent,
-- at least one block of timeout and one attempt, and a maximum fee of at least one gwei.
pub validate-IsValid : (p : TxPolicy) → validate p ≡ none → IsValid p
unfolding validate max_fee_wei
validate-IsValid p h = ground arith

-- ApplyDefaults keeps a policy that Validate accepts acceptable.
pub apply_defaults-validate :
    (p : TxPolicy) → validate p ≡ none → validate (apply_defaults p) ≡ none
unfolding validate apply_defaults
apply_defaults-validate p h = ground arith
