-- ===== src/Tx/Receipt.antt =====
-- txmanager/manager.go: waitForReceipt.
pub mod Waiting
use ssv_oracle.Prelude.{
  ℕ, suc, ◌+◌, ◌-◌, Bool, Option, none, some, List, [], ◌∷◌, leb, if◌then◌else◌, u64, u64_mod,
  pos_part,
}
use ssv_oracle.Tx.Policy.{TxPolicy}

pub record Receipt : Type 0 where
  pub tx_hash : ℕ
  pub successful : Bool
  pub block : ℕ

-- One tick of the poller: the receipt, and the block number that is asked for where there is no
-- receipt. `none` is an error of the node.
pub record Poll : Type 0 where
  pub receipt : Option Receipt
  pub block_number : Option ℕ

pub data Wait : Type 0 where
  mined : Receipt → Wait
  timed_out block_number_failed cancelled : Wait

abbrev pub block_number_retry_limit : ℕ
block_number_retry_limit = 3

-- The loop over the ticks; where the list ends, the context is done. `blockNumFailures` is the
-- first number.
unfoldable pub poll_from : TxPolicy → ℕ → ℕ → List Poll → Wait
poll_from p start failures [] = cancelled
poll_from p start failures (t ∷ rest) = elim t.receipt [
  | some r ↦ mined r
  | none ↦ elim t.block_number [
    | none ↦
        let more = poll_from p start (suc failures) rest in
        if leb block_number_retry_limit (suc failures) then block_number_failed else more
    | some b ↦
        let more = poll_from p start 0 rest in
        if leb (pos_part p.pending_timeout_blocks) (u64 (b + u64_mod - start))
        then timed_out
        else more
  ]
]

-- waitForReceipt: the first number is the block at the start.
unfoldable pub wait_for_receipt : TxPolicy → Option ℕ → List Poll → Wait
unfolding poll_from
wait_for_receipt p none polls = block_number_failed
wait_for_receipt p (some start) polls = poll_from p start 0 polls
