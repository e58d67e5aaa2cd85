-- ===== src/Tx/Fees/Bounds.antt =====
-- Bounds on the fees that the manager chooses.
use ssv_oracle.Prelude.{
  ℕ, ◌≤◌, ◌<◌, ◌≡◌, refl, sym, ap, ◌∙◌, ◌↔◌, ltb→lt, tests, true, false, ltb→le, ◌⊎◌, inl, inr,
  Bool-cases, none, some, ltb, arith,
}
use ssv_oracle.Tx.Policy.{TxPolicy, max_fee_wei, IsValid}
use ssv_oracle.Tx.Fees.{
  FeeView, Fees, Suggestion, suggested, rpc_failed, base_fee_exceeds_max, apply_bump, min_tip_cap,
  fees_for, suggest_gas_fees, pick_fees, bump_or_resuggest, cancel_fees,
}

-- Fees that a node accepts under EIP-1559 and that the operator has allowed.
pub record AreWithin (max_fee : ℕ) (f : Fees) : Type 0 where
  pub tip_le : f.tip ≤ f.cap
  pub cap_le : f.cap ≤ max_fee

fees_for-AreWithin :
    (max_fee t b : ℕ) {f : Fees} → fees_for max_fee t b ≡ suggested f → AreWithin max_fee f
unfolding fees_for
fees_for-AreWithin max_fee t b h = ground arith

fees_for-min_tip :
    (max_fee t b : ℕ) {f : Fees}
    → min_tip_cap ≤ max_fee
    → fees_for max_fee t b ≡ suggested f
    → min_tip_cap ≤ f.tip
unfolding fees_for
fees_for-min_tip max_fee t b m h = ground arith

-- Suggested fees keep tip ≤ cap ≤ maximum; for a valid policy the tip is at least one gwei.
pub suggest_gas_fees-AreWithin :
    (p : TxPolicy) (v : FeeView) {f : Fees}
    → IsValid p
    → suggest_gas_fees p v ≡ suggested f
    → AreWithin (max_fee_wei p) f × (min_tip_cap ≤ f.tip)
unfolding suggest_gas_fees
suggest_gas_fees-AreWithin p v ok h = ground arith

apply_bump_mono : (p : TxPolicy) (a b : ℕ) → a ≤ b → apply_bump p a ≤ apply_bump p b
unfolding apply_bump
apply_bump_mono p a b h = grind arith

pub apply_bump-le : (p : TxPolicy) (a : ℕ) → a ≤ apply_bump p a
unfolding apply_bump
apply_bump-le p a = grind arith

abbrev bumped_fees : TxPolicy → Fees → Fees
bumped_fees p f = record { tip = apply_bump p f.tip; cap = apply_bump p f.cap }

bump_over :
    (p : TxPolicy) (v : FeeView) (current : Fees)
    → ltb (max_fee_wei p) (apply_bump p current.cap) ≡ true
    → bump_or_resuggest p v current ≡ none
unfolding bump_or_resuggest
bump_over p v current e = rw e

bump_under :
    (p : TxPolicy) (v : FeeView) (current : Fees)
    → ltb (max_fee_wei p) (apply_bump p current.cap) ≡ false
    → bump_or_resuggest p v current ≡ pick_fees (bumped_fees p current) (suggest_gas_fees p v)
unfolding bump_or_resuggest
bump_under p v current e = rw e

pick_fees-AreWithin :
    (p : TxPolicy) (v : FeeView) (bumped : Fees) {new : Fees}
    → IsValid p
    → AreWithin (max_fee_wei p) bumped
    → pick_fees bumped (suggest_gas_fees p v) ≡ some new
    → AreWithin (max_fee_wei p) new × (bumped.tip ≤ new.tip) × (bumped.cap ≤ new.cap)
pick_fees-AreWithin p v bumped {new} ok w h = go (suggest_gas_fees p v) refl h
  where
    go :
        (s : Suggestion)
        → suggest_gas_fees p v ≡ s
        → pick_fees bumped s ≡ some new
        → AreWithin (max_fee_wei p) new × (bumped.tip ≤ new.tip) × (bumped.cap ≤ new.cap)
    go (suggested fresh) e k = ground (arith, suggest_gas_fees-AreWithin p v ok e)
    go rpc_failed e k = ground arith
    go base_fee_exceeds_max e k = ground arith

-- When bumpOrResuggest does not cancel, the new fees are within the maximum with tip ≤ cap, and
-- both tip and cap are at least the old ones raised by the bump percentage, rounded down. The
-- policy is valid and the old fees have tip ≤ cap.
pub bump_or_resuggest-AreWithin :
    (p : TxPolicy) (v : FeeView) (current : Fees) {new : Fees}
    → IsValid p
    → current.tip ≤ current.cap
    → bump_or_resuggest p v current ≡ some new
    → AreWithin (max_fee_wei p) new
      × (apply_bump p current.tip ≤ new.tip)
      × (apply_bump p current.cap ≤ new.cap)
bump_or_resuggest-AreWithin p v current ok w h =
    elim (Bool-cases (ltb (max_fee_wei p) (apply_bump p current.cap))) [
      | inl e ↦ cc (bump_over p v current e, h)
      | inr e ↦
          pick_fees-AreWithin p v (bumped_fees p current) ok
            (record { tip_le = apply_bump_mono p current.tip current.cap w; cap_le = ltb→le _ _ e })
            (sym (bump_under p v current e) ∙ h)
    ]

pick_fees-none :
    (bumped : Fees) (s : Suggestion) → pick_fees bumped s ≡ none → s ≡ base_fee_exceeds_max
pick_fees-none bumped (suggested f) h = ground arith
pick_fees-none bumped rpc_failed h = ground arith
pick_fees-none bumped base_fee_exceeds_max h = refl

-- bumpOrResuggest gives up exactly where the bumped fee cap passes the maximum or the node's base
-- fee does.
pub bump_or_resuggest-cancels :
    (p : TxPolicy) (v : FeeView) (current : Fees)
    → (bump_or_resuggest p v current ≡ none)
      ↔ ((max_fee_wei p < apply_bump p current.cap) ⊎ (suggest_gas_fees p v ≡ base_fee_exceeds_max))
bump_or_resuggest-cancels p v current =
    elim (Bool-cases (ltb (max_fee_wei p) (apply_bump p current.cap))) [
      | inl e ↦ ((λ h. inl (ltb→lt _ _ e)), (λ h. bump_over p v current e))
      | inr e ↦ (
        (λ h. inr (
            pick_fees-none (bumped_fees p current) (suggest_gas_fees p v)
              (sym (bump_under p v current e) ∙ h))),
        λ h. elim h [
          | inl l ↦ absurd (omega (tests, e))
          | inr b ↦ bump_under p v current e ∙ ap (pick_fees (bumped_fees p current)) b
        ],
      )
    ]

-- The cancelling transaction stays within the maximum, and does not lower a fee cap within it.
pub cancel_fees-AreWithin :
    (p : TxPolicy) (prev_cap : ℕ)
    → prev_cap ≤ max_fee_wei p
    → AreWithin (max_fee_wei p) (cancel_fees p prev_cap)
      × (prev_cap ≤ (cancel_fees p prev_cap).cap)
      × (prev_cap ≤ (cancel_fees p prev_cap).tip)
unfolding cancel_fees
cancel_fees-AreWithin p prev_cap h = ground (arith, apply_bump-le p prev_cap)
