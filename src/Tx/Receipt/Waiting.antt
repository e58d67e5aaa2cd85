-- ===== src/Tx/Receipt/Waiting.antt =====
-- How waitForReceipt ends.
use ssv_oracle.Prelude.{
  ℕ, ◌+◌, ◌≤◌, ◌<◌, ◌≡◌, none, some, List, [], ◌∷◌, ◌++◌, u64_mod, pos_part, All, arith,
}
use ssv_oracle.Tx.Policy.{TxPolicy}
use ssv_oracle.Tx.Receipt.{Receipt, Poll, mined, timed_out, poll_from, wait_for_receipt}

-- A tick on which the node has no receipt, and a block less than `timeout` blocks past the start.
abbrev pub IsEarly : TxPolicy → ℕ → Poll → Type 0
IsEarly p start t =
    (t.receipt ≡ none)
    × ((b : ℕ) × (t.block_number ≡ some b)
        × (start ≤ b)
        × (b < start + pos_part p.pending_timeout_blocks))

poll_from_early :
    (p : TxPolicy) (start failures : ℕ) (early rest : List Poll) (t : Poll) (r : Receipt)
    → start + pos_part p.pending_timeout_blocks < u64_mod
    → All (IsEarly p start) early
    → t.receipt ≡ some r
    → poll_from p start failures (early ++ t ∷ rest) ≡ mined r
unfolding poll_from
poll_from_early p start failures [] rest t r h a e = ground arith
poll_from_early p start failures (s ∷ l) rest t r h a e =
    ground (arith, a.0, poll_from_early p start 0 l rest t r h a.1 e)

-- While the chain is less than the timeout past the start, the wait goes on, and a receipt that
-- the node has afterwards is returned.
pub wait_for_receipt_early :
    (p : TxPolicy) (start : ℕ) (early rest : List Poll) (t : Poll) (r : Receipt)
    → start + pos_part p.pending_timeout_blocks < u64_mod
    → All (IsEarly p start) early
    → t.receipt ≡ some r
    → wait_for_receipt p (some start) (early ++ t ∷ rest) ≡ mined r
unfolding wait_for_receipt
wait_for_receipt_early p start early rest t r h a e = poll_from_early p start 0 early rest t r h a e

-- A node whose head falls behind the block at the start, by however little, ends the wait at once
-- as timed out: the difference of the unsigned block numbers wraps.
pub wait_for_receipt_behind :
    (p : TxPolicy) (start b : ℕ) (t : Poll) (rest : List Poll)
    → t.receipt ≡ none
    → t.block_number ≡ some b
    → b < start
    → start + pos_part p.pending_timeout_blocks < u64_mod
    → wait_for_receipt p (some start) (t ∷ rest) ≡ timed_out
unfolding wait_for_receipt
wait_for_receipt_behind p start b t rest e k l h = ground arith
