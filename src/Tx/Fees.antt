-- ===== src/Tx/Fees.antt =====
-- txmanager/manager.go: applyBumpPercent, suggestGasFees, bumpOrResuggest and the fees of cancelTx.
-- A *big.Int is a number without bound. The percentages of a valid policy are not negative, so
-- `pos_part` is the value.
pub mod Bounds
use ssv_oracle.Prelude.{
  ℕ, ◌+◌, ◌*◌, ◌/◌, ◌≤◌, ◌≡◌, Option, none, some, pos_part, ltb, if◌then◌else◌,
}
use ssv_oracle.Tx.Policy.{TxPolicy, max_fee_wei}

-- What the node answers to SuggestGasTipCap and HeaderByNumber (its base fee); `none` is an error.
pub record FeeView : Type 0 where
  pub tip_cap : Option ℕ
  pub base_fee : Option ℕ

pub record Fees : Type 0 where
  pub tip : ℕ
  pub cap : ℕ

pub data Suggestion : Type 0 where
  suggested : Fees → Suggestion
  rpc_failed base_fee_exceeds_max : Suggestion

-- applyBumpPercent
unfoldable pub apply_bump : TxPolicy → ℕ → ℕ
apply_bump p v = v * (100 + pos_part p.gas_bump_percent) / 100

abbrev pub min_tip_cap : ℕ
min_tip_cap = 1_000_000_000

-- The part of suggestGasFees behind the two calls.
unfoldable pub fees_for : ℕ → ℕ → ℕ → Suggestion
fees_for max_fee tip_cap base_fee =
    let tip = if ltb tip_cap min_tip_cap then min_tip_cap else tip_cap in
    let cap = base_fee * 2 + tip in
    if ltb max_fee base_fee
    then base_fee_exceeds_max
    else if ltb max_fee cap
    then suggested (record { tip = if ltb max_fee tip then max_fee else tip; cap = max_fee })
    else suggested (record { tip = tip; cap = cap })

-- suggestGasFees
unfoldable pub suggest_gas_fees : TxPolicy → FeeView → Suggestion
unfolding fees_for max_fee_wei
suggest_gas_fees p v = elim v.tip_cap [
  | none ↦ rpc_failed
  | some t ↦ elim v.base_fee [ none ↦ rpc_failed | some b ↦ fees_for (max_fee_wei p) t b ]
]

abbrev max_nat : ℕ → ℕ → ℕ
max_nat fresh bumped = if ltb bumped fresh then fresh else bumped

abbrev pub pick_fees : Fees → Suggestion → Option Fees
pick_fees bumped rpc_failed = some bumped
pick_fees bumped base_fee_exceeds_max = none
pick_fees bumped (suggested fresh) =
    some (record { tip = max_nat fresh.tip bumped.tip; cap = max_nat fresh.cap bumped.cap })

-- bumpOrResuggest; `none` is shouldCancel.
unfoldable pub bump_or_resuggest : TxPolicy → FeeView → Fees → Option Fees
unfolding apply_bump suggest_gas_fees max_fee_wei
bump_or_resuggest p v current =
    let bumped : Fees = record { tip = apply_bump p current.tip; cap = apply_bump p current.cap } in
    if ltb (max_fee_wei p) bumped.cap then none else pick_fees bumped (suggest_gas_fees p v)

-- The fees of cancelTx: one bump over the last fee cap, at most the maximum, for tip and cap.
unfoldable pub cancel_fees : TxPolicy → ℕ → Fees
unfolding apply_bump max_fee_wei
cancel_fees p prev_cap =
    let bumped = apply_bump p prev_cap in
    let cap = if ltb (max_fee_wei p) bumped then max_fee_wei p else bumped in
    record { tip = cap; cap = cap }
