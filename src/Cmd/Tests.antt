-- ===== src/Cmd/Tests.antt =====
-- Runs of cmd/oracle/commands/run.go: starts that end early and late, and their databases.
use ssv_oracle.Prelude.{ℕ, ◌≡◌, refl, true, false, none, some, [], ◌∷◌, All, arith}
use ssv_oracle.Merkle.Crypto.{Crypto}
use ssv_oracle.Storage.{Db, get_chain_id, set_chain_id, clear_all_state}
use ssv_oracle.Storage.Clusters.{Tables}
use ssv_oracle.Execution.BatchSize.{AdaptiveBatchSize}
use ssv_oracle.Execution.BatchSize.Bounds.{IsWithin}
use ssv_oracle.Execution.Fetch.{Round}
use ssv_oracle.Syncer.Parser.{Abi}
use ssv_oracle.Cmd.{
  ChainCheck, validate_chain_id, signals, metrics, signer, store, exec_client, contract_client,
  opened, closed, Start, finished, run,
}
use ssv_oracle.Cmd.Chain.{IsOf, checks, checks-IsOf}
use ssv_oracle.Cmd.Releases.{IsOrderly, run-IsOrderly}

abbrev tables : Tables
tables = record { events = []; clusters = []; validators = []; last_synced = 0 }

abbrev db : Db
db = record { tables = tables; commits = []; chain_id = none }

abbrev check_of : ℕ → ChainCheck
check_of chain = record { node_chain_id = some chain; reads = true; writes = true }

checks-IsOf_example :
    All
      (IsOf (checks (check_of 1 ∷ check_of 17 ∷ check_of 1 ∷ []) db).1)
      (checks (check_of 1 ∷ check_of 17 ∷ check_of 1 ∷ []) db).0
checks-IsOf_example = checks-IsOf (check_of 1 ∷ check_of 17 ∷ check_of 1 ∷ []) db

second_refused :
    (checks (check_of 1 ∷ check_of 17 ∷ check_of 1 ∷ []) db).0 ≡ some 1 ∷ none ∷ some 1 ∷ []
unfolding checks validate_chain_id get_chain_id set_chain_id
second_refused = refl

abbrev no_beacon : Start
no_beacon = record {
  config_loads = true;
  metrics_set_up = true;
  signer_created = true;
  store_opened = true;
  fresh_start = true;
  clears = true;
  exec_connects = true;
  chain_check = check_of 1;
  beacon_connects = false;
  contract_connects = true;
  services_end = finished;
}

run-IsOrderly_example :
    IsOrderly
      (check_of 1)
      (signals ∷ metrics ∷ signer ∷ store ∷ exec_client ∷ contract_client ∷ [])
      (run no_beacon db)
run-IsOrderly_example = run-IsOrderly no_beacon db

closes_what_is_open :
    (run no_beacon db).steps
    ≡ opened signals
      ∷ opened metrics
      ∷ opened signer
      ∷ opened store
      ∷ opened exec_client
      ∷ closed exec_client
      ∷ closed store
      ∷ closed signer
      ∷ closed metrics
      ∷ closed signals
      ∷ []
unfolding run validate_chain_id get_chain_id set_chain_id clear_all_state
closes_what_is_open = refl

abbrev no_abi : Abi
no_abi = record {
  unpack_validator_added = λ d. none;
  unpack_validator_removed = λ d. none;
  unpack_cluster_liquidated = λ d. none;
  unpack_cluster_reactivated = λ d. none;
  unpack_cluster_withdrawn = λ d. none;
  unpack_cluster_deposited = λ d. none;
  unpack_cluster_migrated = λ d. none;
  unpack_cluster_balance_updated = λ d. none;
}

abbrev toy : Crypto
toy = record { keccak256 = λ bytes. 7; pack_leaf = λ id b. id ∷ b ∷ [] }

abbrev size : AdaptiveBatchSize
size = record { current = 50; min = 10; max = 80 }

abbrev size_is_within : IsWithin size
size_is_within = record {
  min_pos = omega arith;
  min_le = omega arith;
  le_max = omega arith;
  room = omega arith;
}

abbrev smooth : Round
smooth = record {
  error = none;
  context_done_on_error = false;
  packs = true;
  callback_accepts = true;
  context_done = false;
}
