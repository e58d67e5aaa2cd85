-- ===== src/Tx/Send.antt =====
-- txmanager/manager.go: SendTransaction, sendToMEVRPCs, cancelTx, findMinedReceipt, handleReceipt
-- and estimateGas. What the node, the signer and the context do is an argument, one `Attempt` for
-- each round of the loop. The list of transactions handed to a node, newest first, is part of the
-- result.
pub mod Rule
pub mod Sound
pub mod Results
pub mod Direct
use ssv_oracle.Prelude.{
  ℕ, zero, suc, ◌+◌, ◌*◌, ◌/◌, ◌==◌, Bool, true, false, ◌&&◌, Option, none, some, List, [], ◌∷◌,
  ◌++◌, if◌then◌else◌, u64, pos_part, Text, text, ltb,
}
use ssv_oracle.Tx.Policy.{TxPolicy}
use ssv_oracle.Tx.Fees.{
  FeeView, Fees, Suggestion, suggested, rpc_failed, base_fee_exceeds_max, suggest_gas_fees,
  bump_or_resuggest, cancel_fees,
}
use ssv_oracle.Tx.Errors.{
  RpcError, SendClass, sent, already_known, nonce_too_low, insufficient_funds, underpriced, other,
  classify, is_tx_already_known, is_contract_revert, extract_revert_reason,
}
use ssv_oracle.Tx.Receipt.{
  Receipt, Poll, Wait, mined, timed_out, block_number_failed, cancelled, wait_for_receipt,
}

-- Where a transaction is handed in: at the node, at the MEV RPCs, or at the node after all MEV RPCs have
-- rejected it.
pub data Route : Type 0 where
  to_node to_mev to_node_after_mev : Route

pub record Tx : Type 0 where
  pub nonce : ℕ
  pub gas : ℕ
  pub fees : Fees
  pub route : Route
  -- the zero-value self-transfer of cancelTx
  pub cancels : Bool

pub data TxError : Type 0 where
  gas_reverted : Text → TxError
  gas_failed fees_failed base_fee_over_max nonce_failed sign_failed nonce_low no_funds : TxError
  max_gas_reached max_attempts_exhausted send_failed context_done : TxError

-- `reverted` is a receipt together with a RevertError.
pub data Outcome : Type 0 where
  confirmed : Receipt → Outcome
  reverted : Receipt → Text → Outcome
  failed : TxError → Outcome

-- What happens in one round of the loop. A send's answer is the text of its error, if any.
pub record Attempt : Type 0 where
  pub signs : Bool
  pub mev_replies : List (Option Text)
  pub eth_reply : Option Text
  pub receipt_of : Tx → Option Receipt
  -- the replay of a reverted call: its error, or none where it succeeds
  pub replay : Receipt → Option RpcError
  pub start_block : Option ℕ
  pub polls : List Poll
  pub fee_view : FeeView
  pub context_done_in_delay : Bool
  pub context_done_in_wait : Bool

-- abi.UnpackRevert (`none` is an error), and the manager's map of error selectors.
pub record Decoder : Type 0 where
  pub unpack : List ℕ → Option Text
  pub selectors : List (Text × Text)

pub record Env : Type 0 where
  pub decoder : Decoder
  pub gas_estimate : Option ℕ
  pub gas_error : RpcError
  pub fee_view : FeeView
  pub nonce : Option ℕ
  pub attempt : ℕ → Attempt
  pub cancel_signs : Bool

pub record Opts : Type 0 where
  pub gas_limit : ℕ  -- uint64
  pub mev_protected : Bool
  pub mev_clients : ℕ

unfoldable pub any_accepts : List (Option Text) → Bool
any_accepts [] = false
any_accepts (none ∷ rest) = true
any_accepts (some msg ∷ rest) = if is_tx_already_known msg then true else any_accepts rest

-- sendToMEVRPCs: one acceptance is enough, and none falls back to the node.
unfoldable pub send_to_mev : List (Option Text) → Option Text → Option Text
unfolding any_accepts
send_to_mev replies eth_reply = if any_accepts replies then none else eth_reply

-- Where a round hands in its transaction: `mevProtected` chooses between sendToMEVRPCs and the node.
unfoldable pub route_of : Bool → List (Option Text) → Route
unfolding any_accepts
route_of mev replies =
    if mev then (if any_accepts replies then to_mev else to_node_after_mev) else to_node

unfoldable pub reason_of : Decoder → RpcError → Text
reason_of d e = extract_revert_reason d.unpack d.selectors e

-- replayForRevertReason
unfoldable pub replay_for_revert_reason : Decoder → Option RpcError → Text
unfolding reason_of
replay_for_revert_reason d none = text "unknown (call succeeded on replay)"
replay_for_revert_reason d (some e) = reason_of d e

-- handleReceipt
unfoldable pub handle_receipt : Decoder → Attempt → Receipt → Outcome
handle_receipt d a r =
    if r.successful then confirmed r else reverted r (replay_for_revert_reason d (a.replay r))

-- findMinedReceipt: the first published transaction that has a receipt.
unfoldable pub find_mined : Attempt → List Tx → Option Receipt
find_mined a [] = none
find_mined a (t ∷ rest) = elim (a.receipt_of t) [ some r ↦ some r | none ↦ find_mined a rest ]

-- The variables of the loop; `sent` is the trace.
pub record LoopState : Type 0 where
  pub fees : Fees
  pub mev : Bool
  pub published : List Tx
  pub sent : List Tx

pub record Run : Type 0 where
  pub sent : List Tx
  pub outcome : Outcome

pub data Next : Type 0 where
  stop : Run → Next
  go : LoopState → Next

module _ (p : TxPolicy) (env : Env) (nonce gas : ℕ) where
  pub stop_with : LoopState → Outcome → Next
  stop_with s o = stop (record { sent = s.sent; outcome = o })

  -- cancelTx, whose own error is only logged, and the error that is returned after it.
  pub cancel_with : LoopState → TxError → Run
  cancel_with s e =
      let t : Tx = record {
        nonce = nonce;
        gas = 21000;
        fees = cancel_fees p s.fees.cap;
        route = to_node;
        cancels = true;
      } in
      record { sent = if env.cancel_signs then t ∷ s.sent else s.sent; outcome = failed e }

  after_bump : LoopState → Option Fees → Next
  unfolding cancel_with
  after_bump s none = stop (cancel_with s max_gas_reached)
  after_bump s (some f) = go (record s { fees = f })

  -- The fees for the next round, or the cancellation.
  bump_round : Attempt → LoopState → Next
  unfolding after_bump
  bump_round a s = after_bump s (bump_or_resuggest p a.fee_view s.fees)

  -- No receipt in time: the last attempt leaves the loop, another one leaves the MEV RPCs.
  retry_round : Attempt → Bool → LoopState → Next
  unfolding stop_with bump_round
  retry_round a last s =
      if a.context_done_in_wait
      then stop_with s (failed context_done)
      else if last
      then go s
      else bump_round a (record s { mev = false })

  after_wait : Attempt → Bool → LoopState → Wait → Next
  unfolding stop_with handle_receipt retry_round
  after_wait a last s (mined r) = stop_with s (handle_receipt env.decoder a r)
  after_wait a last s cancelled = stop_with s (failed context_done)
  after_wait a last s timed_out = retry_round a last s
  after_wait a last s block_number_failed = retry_round a last s

  -- The wait for the receipt of a published transaction, and what follows it.
  await_round : Attempt → Bool → LoopState → Next
  unfolding after_wait
  await_round a last s = after_wait a last s (wait_for_receipt p a.start_block a.polls)

  after_nonce_too_low : Attempt → LoopState → Option Receipt → Next
  unfolding stop_with handle_receipt
  after_nonce_too_low a s (some r) = stop_with s (handle_receipt env.decoder a r)
  after_nonce_too_low a s none = stop_with s (failed nonce_low)

  -- The `switch` over the answer to the send of `t`.
  pub send_round : Attempt → Bool → LoopState → Tx → SendClass → Next
  unfolding stop_with after_nonce_too_low find_mined bump_round await_round
  send_round a last s t sent = await_round a last (record s { published = s.published ++ t ∷ [] })
  send_round a last s t already_known =
      await_round a last (record s { published = s.published ++ t ∷ [] })
  send_round a last s t nonce_too_low = after_nonce_too_low a s (find_mined a s.published)
  send_round a last s t insufficient_funds = stop_with s (failed no_funds)
  send_round a last s t underpriced = bump_round a s
  send_round a last s t other =
      if last
      then stop_with s (failed send_failed)
      else if a.context_done_in_delay
      then stop_with s (failed context_done)
      else go s

  -- One round of the loop. `last` tells that the attempt is the last one.
  pub round : Attempt → Bool → LoopState → Next
  unfolding send_round send_to_mev route_of stop_with
  round a last s =
      let t : Tx = record {
        nonce = nonce;
        gas = gas;
        fees = s.fees;
        route = route_of s.mev a.mev_replies;
        cancels = false;
      } in
      let reply = if s.mev then send_to_mev a.mev_replies a.eth_reply else a.eth_reply in
      if a.signs
      then send_round a last (record s { sent = t ∷ s.sent }) t (classify reply)
      else stop_with s (failed sign_failed)

  -- The loop: the attempts that are left, and the number of the next one.
  unfoldable pub attempts : ℕ → ℕ → LoopState → Run
  unfolding round cancel_with
  attempts zero n s = cancel_with s max_attempts_exhausted
  attempts (suc left) n s = elim (round (env.attempt n) (left == 0) s) [
    | stop r ↦ r
    | go s' ↦ attempts left (n + 1) s'
  ]

abbrev pub fail : TxError → Run
fail e = record { sent = []; outcome = failed e }

-- estimateGas: the limit of the options, or the node's estimate with the buffer.
unfoldable pub with_buffer : TxPolicy → ℕ → ℕ
with_buffer p estimated = u64 (estimated * (100 + pos_part p.gas_buffer_percent)) / 100

unfoldable pub estimate_gas : TxPolicy → Env → Opts → Option ℕ
unfolding with_buffer
estimate_gas p env opts =
    if opts.gas_limit == 0
    then elim env.gas_estimate [ none ↦ none | some g ↦ some (with_buffer p g) ]
    else some opts.gas_limit

abbrev pub gas_failure : Env → TxError
gas_failure env =
    if is_contract_revert env.gas_error
    then gas_reverted (reason_of env.decoder env.gas_error)
    else gas_failed

-- The steps of SendTransaction before its loop: the gas limit, the fees, the nonce.
abbrev pub start_state : Opts → Fees → LoopState
start_state opts fees = record {
  fees = fees;
  mev = opts.mev_protected && ltb 0 opts.mev_clients;
  published = [];
  sent = [];
}

with_nonce : TxPolicy → Env → Opts → ℕ → Fees → Option ℕ → Run
unfolding attempts
with_nonce p env opts gas fees none = fail nonce_failed
with_nonce p env opts gas fees (some nonce) =
    attempts p env nonce gas (pos_part p.max_attempts) 1 (start_state opts fees)

with_fees : TxPolicy → Env → Opts → ℕ → Suggestion → Run
unfolding with_nonce
with_fees p env opts gas rpc_failed = fail fees_failed
with_fees p env opts gas base_fee_exceeds_max = fail base_fee_over_max
with_fees p env opts gas (suggested fees) = with_nonce p env opts gas fees env.nonce

with_gas : TxPolicy → Env → Opts → Option ℕ → Run
unfolding with_fees
with_gas p env opts none = fail (gas_failure env)
with_gas p env opts (some gas) = with_fees p env opts gas (suggest_gas_fees p env.fee_view)

-- SendTransaction
unfoldable pub send_transaction : TxPolicy → Env → Opts → Run
unfolding estimate_gas with_gas
send_transaction p env opts = with_gas p env opts (estimate_gas p env opts)
