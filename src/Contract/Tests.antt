-- ===== src/Contract/Tests.antt =====
-- Runs of contract/: a commit over the client, the events of a subscription, and a client whose
-- WebSocket node is away.
use ssv_oracle.Prelude.{
  ℕ, ◌+◌, ◌*◌, ◌%◌, ◌≡◌, refl, Bool, true, false, none, some, List, [], ◌∷◌, ◌==◌, ltb, lookup,
  insert, sort, insert_sorted, pos, arith,
}
use ssv_oracle.Merkle.Crypto.{Crypto}
use ssv_oracle.Storage.{Db}
use ssv_oracle.Storage.Clusters.{get_active_validators, active_from}
use ssv_oracle.Storage.Commits.{
  commit_of, get_commit_by_block, insert_pending_commit, update_commit_status,
}
use ssv_oracle.Syncer.Parser.{Abi}
use ssv_oracle.Syncer.State.{sync_to_block}
use ssv_oracle.Tx.Policy.{TxPolicy, apply_defaults, validate, max_fee_wei}
use ssv_oracle.Tx.Fees.{FeeView, fees_for, suggest_gas_fees}
use ssv_oracle.Tx.Errors.{classify}
use ssv_oracle.Tx.Receipt.{Receipt, poll_from, wait_for_receipt}
use ssv_oracle.Tx.Send.{Attempt, Env, send_transaction, estimate_gas, attempts, handle_receipt}
use ssv_oracle.Oracle.Commit.{
  Answers, mined, fetch_balances, send_root, after_check, store_and_send, with_balances, commit,
}
use ssv_oracle.Oracle.Commit.Confirmed.{IsConfirmed}
use ssv_oracle.Contract.{
  ContractAbi, Client, TxOpts, CallMsg, CallReply, returned, send, commit_root, get_committed_root,
  reply_of,
}
use ssv_oracle.Contract.Publishes.{IsPublished, through, commit_publishes}
use ssv_oracle.Contract.Events.{
  RootCommittedEvent, parse_root_committed_event, WsSignal, log, subscription_ended,
}
use ssv_oracle.Contract.Events.Forwards.{
  log_of, before_end, events_of, process_root_committed_logs-events,
  parse_root_committed_event-log_of,
}
use ssv_oracle.Contract.Events.{process_root_committed_logs}
use ssv_oracle.Contract.Connect.{
  Net, open_next, dial, dial_all, new_manager, Manager, Config, new_client,
}
use ssv_oracle.Contract.Connect.Managed.{IsFresh, holds}
use ssv_oracle.Contract.Connect.Releases.{IsSettled, new_client-IsSettled, new_client_leaks}
use ssv_oracle.Storage.Clusters.{ClusterRow}
use ssv_oracle.Merkle.Tree.{Leaf, Tree, get_proof, find_leaf, proof_from}
use ssv_oracle.Updater.{process_cluster, with_row, submit}
use ssv_oracle.Contract.{get_cluster_effective_balance, update_cluster_balance, update_result_of}
use ssv_oracle.Contract.Updates.{
  IsUpdated, read_balance, send_update, update_for, process_cluster-IsUpdated,
}

unfoldable toy_hash : List ℕ → ℕ
toy_hash [] = 7
toy_hash (x ∷ xs) = (x + 31 * toy_hash xs) % 1000003

abbrev toy : Crypto
toy = record { keccak256 = toy_hash; pack_leaf = λ id b. id ∷ b ∷ [] }

abbrev no_abi : Abi
no_abi = record {
  unpack_validator_added = λ d. none;
  unpack_validator_removed = λ d. none;
  unpack_cluster_liquidated = λ d. none;
  unpack_cluster_reactivated = λ d. none;
  unpack_cluster_withdrawn = λ d. none;
  unpack_cluster_deposited = λ d. none;
  unpack_cluster_migrated = λ d. none;
  unpack_cluster_balance_updated = λ d. none;
}

abbrev db : Db
db = record {
  tables = record {
    events = [];
    clusters =
        (
          1,
          record {
            cluster_id = 1;
            owner_address = 7;
            operator_ids = 1 ∷ 2 ∷ [];
            validator_count = 1;
            network_fee_index = 0;
            index = 0;
            is_active = true;
            balance = 5;
          },
        )
        ∷ [];
    validators =
        record { validator_cluster = 1; validator_pubkey = record { size = 48; value = 11 } } ∷ [];
    last_synced = 320;
  };
  commits = [];
  chain_id = some 1;
}

abbrev replies : Answers
replies = record {
  batches = [];
  context_done = false;
  root_verified = true;
  balances = λ keys. some ((11, 40000000000) ∷ []);
  committed_root = none;
  reply = λ root. mined 0;
}

abbrev policy : TxPolicy
policy = record {
  gas_buffer_percent = pos 20;
  max_fee_per_gas_gwei = 100;
  pending_timeout_blocks = pos 10;
  gas_bump_percent = pos 10;
  max_attempts = pos 3;
  retry_delay = pos 5;
}

abbrev view : FeeView
view = record { tip_cap = some 2000000000; base_fee = some 30000000000 }

abbrev receipt : Receipt
receipt = record { tx_hash = 99; successful = true; block = 331 }

abbrev attempt : Attempt
attempt = record {
  signs = true;
  mev_replies = [];
  eth_reply = none;
  receipt_of = λ t. none;
  replay = λ r. none;
  start_block = some 330;
  polls = record { receipt = some receipt; block_number = none } ∷ [];
  fee_view = view;
  context_done_in_delay = false;
  context_done_in_wait = false;
}

abbrev env : TxOpts → Env
env o = record {
  decoder = record { unpack = λ d. none; selectors = [] };
  gas_estimate = some 21000;
  gas_error = record { message = []; revert_data = none };
  fee_view = view;
  nonce = some 4;
  attempt = λ n. attempt;
  cancel_signs = true;
}

abbrev client : Client
client = record {
  contract_address = 500;
  views_contract_address = 501;
  policy = policy;
  decoder = record { unpack = λ d. none; selectors = [] };
  mev_clients = 0;
}

abbrev toy_abi : ContractAbi
toy_abi = record {
  pack_commit_root = λ root block. some (root ∷ block ∷ []);
  pack_get_committed_root = λ block. some (block ∷ []);
  pack_get_effective_balance = λ owner ops c. none;
  pack_update_cluster_balance = λ block owner ops c b proof. none;
  unpack_committed_root = λ d. some 0;
  unpack_effective_balance = λ d. none;
}

abbrev call : CallMsg → CallReply
call m = returned []

commit_publishes_example :
    IsConfirmed toy 10 320 99
      (commit toy no_abi (through client toy_abi env call 320 replies) 320 10 db).0.commits
      (λ root. IsPublished client toy_abi env root 320 99)
unfolding commit sync_to_block fetch_balances get_active_validators active_from with_balances
    store_and_send after_check send_root insert_pending_commit commit_of get_commit_by_block
    update_commit_status get_committed_root commit_root send reply_of send_transaction estimate_gas
    suggest_gas_fees fees_for max_fee_wei attempts classify wait_for_receipt poll_from
    handle_receipt lookup sort insert_sorted
commit_publishes_example =
    commit_publishes toy no_abi client toy_abi env call replies 320 10 99 db refl refl

abbrev event : RootCommittedEvent
event = record { merkle_root = 81; block_num = 320; tx_hash = 99 }

parse_root_committed_event-log_of_example : parse_root_committed_event (log_of 5 event) ≡ some event
parse_root_committed_event-log_of_example = parse_root_committed_event-log_of 5 event (omega arith)

abbrev signals : List WsSignal
signals =
    log (log_of 5 event) false
    ∷ log (record { topics = 5 ∷ []; tx_hash = 3; removed = false }) true
    ∷ subscription_ended true
    ∷ log (log_of 5 event) false
    ∷ []

process_root_committed_logs-events_example :
    (process_root_committed_logs signals).events ≡ events_of (before_end signals)
process_root_committed_logs-events_example = process_root_committed_logs-events signals

one_event : events_of (before_end signals) ≡ event ∷ []
unfolding events_of before_end
one_event = refl

-- Only the first URLs can be reached.
abbrev reachable : ℕ → Bool
reachable url = ltb url 9

abbrev net : Net
net = record { next = 4; is_open = λ id. id == 2 }

net-IsFresh : IsFresh net
net-IsFresh id h = ground (arith, h)

abbrev config : Config
config = record {
  rpc_url = 1;
  ws_rpc_url = some 8;
  chain_id = some 1;
  has_signer = true;
  tx_policy = some policy;
  mev_rpcs = 3 ∷ 5 ∷ [];
}

ws_is_up : (url : ℕ) → some 8 ≡ some url → reachable url ≡ true
ws_is_up url h = ground (arith, h)

new_client-IsSettled_example : IsSettled net (new_client reachable config net)
new_client-IsSettled_example =
    new_client-IsSettled reachable net net-IsFresh config ((refl, tt), (tt, tt)) ws_is_up

abbrev ws_away : Config
ws_away = record config { ws_rpc_url = some 9 }

abbrev manager : Manager
manager = record { policy = policy; mev_clients = (3, 5) ∷ (5, 6) ∷ [] }

new_client_leaks_example :
    ((new_client reachable ws_away net).0 ≡ none)
    × ((new_client reachable ws_away net).1.is_open 6 ≡ true)
    × (net.is_open 6 ≡ false)
unfolding new_manager dial_all dial insert apply_defaults validate holds
new_client_leaks_example =
    new_client_leaks reachable net net-IsFresh ws_away 1 9 6 manager
      (open_next (open_next (open_next net))) refl refl refl ((refl, tt), (tt, tt)) refl refl refl
      refl

abbrev updating : ContractAbi
updating = record toy_abi {
  pack_get_effective_balance = λ owner ops c. some (owner ∷ []);
  pack_update_cluster_balance = λ block owner ops c b proof. some (block ∷ b ∷ []);
  unpack_effective_balance = λ d. some 32;
}

abbrev leaf : Leaf
leaf = record { cluster_id = 1; effective_balance = 40; hash = 5 }

abbrev tree : Tree
tree = record { leaves = leaf ∷ []; layers = (5 ∷ []) ∷ []; root = 5 }

abbrev row : ClusterRow
row = record {
  cluster_id = 1;
  owner_address = 7;
  operator_ids = 1 ∷ 2 ∷ [];
  validator_count = 1;
  network_fee_index = 0;
  index = 0;
  is_active = true;
  balance = 5;
}

process_cluster-IsUpdated_example : IsUpdated client updating env call 320 leaf tree row
unfolding process_cluster with_row submit get_proof find_leaf proof_from update_for read_balance
    send_update get_cluster_effective_balance update_cluster_balance send update_result_of
    send_transaction estimate_gas suggest_gas_fees fees_for max_fee_wei attempts classify
    wait_for_receipt poll_from handle_receipt
process_cluster-IsUpdated_example =
    process_cluster-IsUpdated client updating env call 320 leaf tree row refl
