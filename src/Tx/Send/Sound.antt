-- ===== src/Tx/Send/Sound.antt =====
-- What holds of the transactions that one call of SendTransaction hands to a node.
use ssv_oracle.Prelude.{
  ℕ, ◌≤◌, ◌≡◌, ◌≢◌, Bool, true, false, Text, Option, none, some, List, [], ◌∷◌, All,
}
use ssv_oracle.Tx.Policy.{TxPolicy, max_fee_wei, IsValid}
use ssv_oracle.Tx.Fees.{Fees}
use ssv_oracle.Tx.Fees.Bounds.{AreWithin}
use ssv_oracle.Tx.Send.Rule.{Rule}
use ssv_oracle.Tx.Errors.{is_tx_already_known}
use ssv_oracle.Tx.Send.{to_node, to_mev, to_node_after_mev, Tx, Env, LoopState}

-- `t` pays no more than `f`.
abbrev pub PaysAtMost : Fees → Tx → Type 0
PaysAtMost f t = (t.fees.tip ≤ f.tip) × (t.fees.cap ≤ f.cap)

-- The MEV RPCs were asked, whether they took the transaction or not.
abbrev pub AsksMev : Tx → Type 0
AsksMev t = t.route ≢ to_node

-- The text of an error other than that the transaction is known already.
abbrev pub IsRejection : Option Text → Type 0
IsRejection none = ⊥
IsRejection (some msg) = is_tx_already_known msg ≡ false

-- By the answers of the MEV RPCs in one of the attempts: a transaction that went to them alone was
-- taken by one of them, and one that they were asked for and that went to the node was rejected by all.
abbrev pub IsRouted : Env → Tx → Type 0
IsRouted env t =
    (t.route ≡ to_mev → (n : ℕ) × ¬ All IsRejection (env.attempt n).mev_replies)
    × (t.route ≡ to_node_after_mev → (n : ℕ) × All IsRejection (env.attempt n).mev_replies)

-- Newest first: fees never fall from one transaction to the next, all have the nonce and are within
-- the maximum, and the MEV RPCs are not asked after a transaction that they were not asked for.
abbrev pub IsSound : Env → ℕ → ℕ → List Tx → Type 0
IsSound env max_fee nonce [] = Unit
IsSound env max_fee nonce (t ∷ rest) =
    (t.nonce ≡ nonce)
    × AreWithin max_fee t.fees
    × All (PaysAtMost t.fees) rest
    × (AsksMev t → All AsksMev rest)
    × IsRouted env t
    × IsSound env max_fee nonce rest

module _ (p : TxPolicy) (ok : IsValid p) (env : Env) (nonce gas : ℕ) where
  -- The invariant of the loop.
  record Inv (s : LoopState) : Type 0 where
    pub within : AreWithin (max_fee_wei p) s.fees
    pub sound : IsSound env (max_fee_wei p) nonce s.sent
    pub paid : All (PaysAtMost s.fees) s.sent
    pub via : s.mev ≡ true → All AsksMev s.sent
