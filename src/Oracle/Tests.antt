-- ===== src/Oracle/Tests.antt =====
-- Runs of the aggregation, of the loop and of a commit.
use ssv_oracle.Prelude.{
  ℕ, ◌+◌, ◌*◌, ◌%◌, ◌/◌, ◌≡◌, refl, true, false, none, some, List, [], ◌∷◌, lookup, insert, All,
  u32, u64, sort, insert_sorted, arith,
}
use ssv_oracle.Merkle.Crypto.{Crypto, hash_leaf}
use ssv_oracle.Merkle.Tree.{get_proof, ok}
use ssv_oracle.Merkle.Layers.{process_proof}
use ssv_oracle.Storage.{Db}
use ssv_oracle.Storage.Clusters.{ClusterRow, Validator, Tables, get_active_validators, active_from}
use ssv_oracle.Storage.Commits.{
  OracleCommit, confirmed, commit_of, get_commit_by_block, insert_pending_commit,
  update_commit_status,
}
use ssv_oracle.Syncer.Parser.{Abi}
use ssv_oracle.Syncer.State.{sync_to_block}
use ssv_oracle.Updater.{Pass}
use ssv_oracle.Updater.Commit.{process_commit}
use ssv_oracle.Oracle.Commit.{
  Answers, mined, fetch_balances, send_root, after_check, store_and_send, with_balances, commit,
}
use ssv_oracle.Oracle.Commit.Roots.{
  IsSound, Job, commit_all, commit-IsSound, commit_all-process_commit,
}
use ssv_oracle.Oracle.Commit.Fetched.{fetch_balances-get_validator_balances}
use mathlib.Core.List.Permᴰ
use ssv_oracle.Beacon.{get_validator_balances}
use ssv_oracle.Beacon.Merged.{Answered}
use ssv_oracle.Schedule.{
  CommitSchedule, validate, validate_from, check_phase, next_target, phase_at, last_started,
  next_in_phase, target_at,
}
use ssv_oracle.Oracle.Balances.{
  gwei_per_eth, counted, totals_from, aggregate_by_cluster, build_tree,
}
use ssv_oracle.Oracle.Balances.Totals.{sum_of, build_tree-aggregate_by_cluster}
use ssv_oracle.Oracle.Loop.{Checkpoint, missed, attempted, after_target, run_loop, run}
use ssv_oracle.Oracle.Loop.Targets.{Ascends, run-Ascends}

unfoldable toy_hash : List ℕ → ℕ
toy_hash [] = 7
toy_hash (x ∷ xs) = (x + 31 * toy_hash xs) % 1000003

abbrev toy : Crypto
toy = record { keccak256 = toy_hash; pack_leaf = λ id b. id ∷ b ∷ [] }

abbrev validator : ℕ → ℕ → Validator
validator id key = record {
  validator_cluster = id;
  validator_pubkey = record { size = 48; value = key };
}

abbrev validators : List Validator
validators = validator 1 11 ∷ validator 2 12 ∷ validator 1 13 ∷ []

abbrev beacon : List (ℕ × ℕ)
beacon = (11, 40000000000) ∷ (12, 32000000000) ∷ []

build_tree-aggregate_by_cluster_example :
    (p : List ℕ) × (get_proof (build_tree toy (aggregate_by_cluster validators beacon)) 1 ≡ ok p)
    × (process_proof toy (hash_leaf toy 1 (u32 (u64 72000000000 / gwei_per_eth))) p
        ≡ (build_tree toy (aggregate_by_cluster validators beacon)).root)
unfolding sum_of lookup
build_tree-aggregate_by_cluster_example =
    build_tree-aggregate_by_cluster toy validators beacon 1 refl

abbrev every_ten : CommitSchedule
every_ten = record { start_epoch = 0; interval = 10 } ∷ []

abbrev at_epoch : ℕ → Checkpoint
at_epoch e = record { epoch = e; commit_succeeds = true }

run-Ascends_example : Ascends every_ten 6 (attempted 10 11 true ∷ missed 20 ∷ [])
unfolding validate validate_from check_phase run run_loop next_target phase_at last_started
    next_in_phase target_at after_target
run-Ascends_example =
    run-Ascends every_ten 6 (at_epoch 7 ∷ at_epoch 11 ∷ at_epoch 23 ∷ []) refl
      (omega arith, (omega arith, tt))
      (
        (omega arith, (omega arith, tt)),
        ((omega arith, (omega arith, tt)), ((omega arith, (omega arith, tt)), tt)),
      )
      refl

abbrev no_abi : Abi
no_abi = record {
  unpack_validator_added = λ d. none;
  unpack_validator_removed = λ d. none;
  unpack_cluster_liquidated = λ d. none;
  unpack_cluster_reactivated = λ d. none;
  unpack_cluster_withdrawn = λ d. none;
  unpack_cluster_deposited = λ d. none;
  unpack_cluster_migrated = λ d. none;
  unpack_cluster_balance_updated = λ d. none;
}

abbrev cluster_row : ℕ → ClusterRow
cluster_row id = record {
  cluster_id = id;
  owner_address = 7;
  operator_ids = 1 ∷ 2 ∷ [];
  validator_count = 1;
  network_fee_index = 0;
  index = 0;
  is_active = true;
  balance = 5;
}

abbrev tables : Tables
tables = record {
  events = [];
  clusters = (1, cluster_row 1) ∷ (2, cluster_row 2) ∷ [];
  validators = validators;
  last_synced = 320;
}

own_keys : (id : ℕ) {row : ClusterRow} → lookup id tables.clusters ≡ some row → row.cluster_id ≡ id
unfolding lookup
own_keys id e = ground arith

abbrev db : Db
db = record { tables = tables; commits = []; chain_id = some 1 }

db-IsSound : IsSound toy db
unfolding lookup
db-IsSound = record {
  consistent = record {
    distinct_events = tt;
    distinct_clusters = (refl, (refl, tt));
    own_keys = own_keys;
    placed = (
      (refl, (cluster_row 1, refl)),
      ((refl, (cluster_row 2, refl)), ((refl, (cluster_row 1, refl)), tt)),
    );
  };
  well_formed = tt;
  own_roots = tt;
}

abbrev replies : Answers
replies = record {
  batches = [];
  context_done = false;
  root_verified = true;
  balances = λ keys. some beacon;
  committed_root = some 0;
  reply = λ root. mined 99;
}

commit-IsSound_example : IsSound toy (commit toy no_abi replies 320 10 db).0
commit-IsSound_example = commit-IsSound toy replies 320 10 no_abi db db-IsSound

every_key : (batch : List ℕ) → All (λ k. lookup k beacon ≡ lookup k beacon) batch
every_key [] = tt
every_key (k ∷ batch) = (refl, every_key batch)

beacon_answers : Answered (λ k. lookup k beacon) (λ keys. some beacon)
unfolding lookup
beacon_answers batch = (beacon, refl, ((refl, (refl, tt)), every_key batch))

fetch_balances-get_validator_balances_example :
    fetch_balances
      (record replies { balances = get_validator_balances (λ keys. some beacon) (λ bs. bs) })
      validators
    ≡ some (aggregate_by_cluster validators beacon)
fetch_balances-get_validator_balances_example =
    fetch_balances-get_validator_balances beacon (λ keys. some beacon) (λ bs. bs) replies validators
      beacon_answers (λ bs. ∣ Permᴰ.refl bs ∣₁)

abbrev jobs : List Job
jobs = record { answers = replies; block = 320; target = 10 } ∷ []

abbrev stored : OracleCommit
stored = record {
  target_epoch = 10;
  merkle_root = (build_tree toy (aggregate_by_cluster validators beacon)).root;
  reference_block = 320;
  cluster_balances = aggregate_by_cluster validators beacon;
  status = confirmed;
  tx_hash = some 99;
}

found : get_commit_by_block 320 (commit_all toy no_abi jobs db).commits ≡ some stored
unfolding commit_all commit sync_to_block fetch_balances get_active_validators active_from sort
    insert_sorted with_balances store_and_send after_check send_root insert_pending_commit commit_of
    get_commit_by_block update_commit_status aggregate_by_cluster totals_from counted lookup insert
found = refl

commit_all-process_commit_example : (p : Pass) × (process_commit toy stored [] none ≡ some p)
commit_all-process_commit_example =
    commit_all-process_commit toy no_abi jobs db 320 [] none db-IsSound found
