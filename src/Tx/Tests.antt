-- ===== src/Tx/Tests.antt =====
-- Runs of txmanager/.
use ssv_oracle.Prelude.{
  ℕ, ◌≡◌, refl, Option, List, map, ◌==◌, if◌then◌else◌, Text, text, contains, to_lower, true, false,
  none, some, [], ◌∷◌, pos, arith,
}
use ssv_oracle.Tx.Policy.{TxPolicy}
use ssv_oracle.Tx.Errors.{
  classify, is_tx_already_known, is_nonce_too_low, is_insufficient_funds, is_underpriced,
}
use ssv_oracle.Tx.Fees.{FeeView, Fees, suggest_gas_fees, bump_or_resuggest}
use ssv_oracle.Tx.Receipt.{Receipt, Poll, timed_out, wait_for_receipt}
use ssv_oracle.Tx.Receipt.Waiting.{wait_for_receipt_behind}
use ssv_oracle.Tx.Send.{
  Route, to_node, to_mev, to_node_after_mev, Tx, Attempt, Env, Opts, send_transaction,
}
use ssv_oracle.Tx.Send.Results.{IsAccounted, send_transaction-IsAccounted}

abbrev policy : TxPolicy
policy = record {
  gas_buffer_percent = pos 20;
  max_fee_per_gas_gwei = 100;
  pending_timeout_blocks = pos 10;
  gas_bump_percent = pos 10;
  max_attempts = pos 3;
  retry_delay = pos 5;
}

abbrev view : FeeView
view = record { tip_cap = some 2000000000; base_fee = some 30000000000 }

abbrev fees : Fees
fees = record { tip = 2000000000; cap = 62000000000 }

abbrev bumped : Fees
bumped = record { tip = 2200000000; cap = 68200000000 }

abbrev receipt : Receipt
receipt = record { tx_hash = 7; successful = true; block = 101 }

abbrev poll : ℕ → Poll
poll b = record { receipt = none; block_number = some b }

abbrev mined_poll : Poll
mined_poll = record { receipt = some receipt; block_number = none }

wait_for_receipt_behind_example :
    wait_for_receipt policy (some 100) (poll 99 ∷ mined_poll ∷ []) ≡ timed_out
wait_for_receipt_behind_example =
    wait_for_receipt_behind policy 100 99 (poll 99) (mined_poll ∷ []) refl refl (omega arith)
      (omega arith)

abbrev attempt : Attempt
attempt = record {
  signs = true;
  mev_replies = [];
  eth_reply = none;
  receipt_of = λ t. none;
  replay = λ r. none;
  start_block = some 100;
  polls = poll 105 ∷ poll 110 ∷ [];
  fee_view = view;
  context_done_in_delay = false;
  context_done_in_wait = false;
}

abbrev env : Env
env = record {
  decoder = record { unpack = λ d. none; selectors = [] };
  gas_estimate = some 21000;
  gas_error = record { message = []; revert_data = none };
  fee_view = view;
  nonce = some 4;
  attempt = λ n. attempt;
  cancel_signs = true;
}

abbrev opts : Opts
opts = record { gas_limit = 0; mev_protected = false; mev_clients = 0 }

-- Two MEV RPCs: the first transaction is rejected by both, with a failure of the node behind them, the
-- second one is taken by the second RPC and not included, and the third one goes to the node.
abbrev protected : Opts
protected = record { gas_limit = 0; mev_protected = true; mev_clients = 2 }

abbrev refused : Option Text
refused = some (text "rejected")

abbrev mev_attempt : ℕ → Attempt
mev_attempt n = record attempt {
  mev_replies = if n == 1 then refused ∷ refused ∷ [] else refused ∷ none ∷ [];
  eth_reply = if n == 1 then some (text "connection refused") else none;
}

abbrev protected_env : Env
protected_env = record env { attempt = mev_attempt }

abbrev routes : List Tx → List Route
routes = map (λ (t : Tx). t.route)

routes_of_protected :
    routes (send_transaction policy protected_env protected).sent
    ≡ to_node ∷ to_node ∷ to_mev ∷ to_node_after_mev ∷ []
unfolding send_transaction suggest_gas_fees classify is_tx_already_known contains to_lower
    is_nonce_too_low is_insufficient_funds is_underpriced wait_for_receipt bump_or_resuggest
routes_of_protected = refl

send_transaction-IsAccounted_example : IsAccounted policy env (send_transaction policy env opts)
send_transaction-IsAccounted_example = send_transaction-IsAccounted policy env opts
