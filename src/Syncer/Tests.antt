-- ===== src/Syncer/Tests.antt =====
-- Runs of eth/syncer/ on one event.
use ssv_oracle.Prelude.{
  ℕ, ◌+◌, ◌*◌, ◌%◌, ◌≡◌, refl, true, false, none, some, Option, List, [], ◌∷◌, ◌-◌, ◌==◌,
  if◌then◌else◌, lookup, arith,
}
use mathlib.Core.List.Permᴰ
use ssv_oracle.Merkle.Crypto.{Crypto}
use ssv_oracle.Storage.Clusters.{Tables, get_cluster}
use ssv_oracle.Execution.Group.{Log, BlockLogs}
use ssv_oracle.Syncer.Events.{
  Cluster, cluster_deposited, cluster_liquidated, event_owner, event_operators,
  compute_cluster_id_from_event,
}
use ssv_oracle.Syncer.Events.Identity.{compute_cluster_id_from_event_perm}
use ssv_oracle.Syncer.Parser.{
  Abi, liquidated, signature_of, parse_log, parse_topics, parse_event, find_kind,
}
use ssv_oracle.Syncer.State.{
  fetched, fetch_error, apply_event, process_parsed, process_log, process_logs, process_blocks,
  process_batch, sync_batches, sync_to_block,
}
use ssv_oracle.Syncer.State.Invariant.{IsConsistent, sync_to_block-IsConsistent}
use ssv_oracle.Syncer.Channel.{channel}
use ssv_oracle.Syncer.State.Readable.{AreReadable}
use ssv_oracle.Syncer.Channel.Progress.{Reaches, sync_to_block-Reaches, sync_to_block_catches_up}
use ssv_oracle.Syncer.Channel.Batching.{blocks_between, sync_to_block-process_batch}
use ssv_oracle.Execution.BatchSize.{AdaptiveBatchSize, increase}
use ssv_oracle.Execution.BatchSize.Bounds.{IsWithin}
use ssv_oracle.Execution.Fetch.{Round, Batch, batch_end, after_logs, fetch_logs}
use ssv_oracle.Execution.Fetch.Covers.{IsSmooth}
use ssv_oracle.Syncer.Overlay.{Snapshot, is_requested, build_head_state_snapshot}
use ssv_oracle.Syncer.Overlay.Refines.{build_head_state_snapshot-process_batch}

unfoldable toy_hash : List ℕ → ℕ
toy_hash [] = 7
toy_hash (x ∷ xs) = (x + 31 * toy_hash xs) % 1000003

abbrev toy : Crypto
toy = record { keccak256 = toy_hash; pack_leaf = λ id b. id ∷ b ∷ [] }

abbrev cluster : Cluster
cluster = record {
  validator_count = 1;
  network_fee_index = 0;
  index = 0;
  active = true;
  balance = 5;
}

abbrev toy_abi : Abi
toy_abi = record {
  unpack_validator_added = λ d. none;
  unpack_validator_removed = λ d. none;
  unpack_cluster_liquidated = λ d. some (1 ∷ 2 ∷ [], cluster);
  unpack_cluster_reactivated = λ d. none;
  unpack_cluster_withdrawn = λ d. none;
  unpack_cluster_deposited = λ d. none;
  unpack_cluster_migrated = λ d. none;
  unpack_cluster_balance_updated = λ d. none;
}

unfoldable topic : ℕ
unfolding signature_of
topic = toy_hash (signature_of liquidated)

abbrev log : Log
log = record {
  block_number = 12;
  tx_index = 0;
  index = 3;
  topics = topic ∷ 77 ∷ [];
  payload = [];
  tx_hash = 1;
  block_hash = 2;
}

abbrev blocks : List BlockLogs
blocks = record { block_number = 12; block_time = 144; logs = log ∷ [] } ∷ []

abbrev start : Tables
start = record { events = []; clusters = []; validators = []; last_synced = 10 }

abbrev start_is_consistent : IsConsistent start
unfolding lookup
start_is_consistent = record {
  distinct_events = tt;
  distinct_clusters = tt;
  own_keys = λ id e. absurd (ground arith);
  placed = tt;
}

sync_to_block-IsConsistent_example :
    IsConsistent (sync_to_block toy toy_abi 20 (fetched 15 blocks ∷ fetch_error ∷ []) false start).0
sync_to_block-IsConsistent_example =
    sync_to_block-IsConsistent toy toy_abi 20 (fetched 15 blocks ∷ fetch_error ∷ []) false start
      start_is_consistent

build_head_state_snapshot-process_batch_example :
    (m : Snapshot) × (build_head_state_snapshot toy toy_abi
        (4 ∷ 5 ∷ [])
        (some 15)
        (some blocks)
        start
      ≡ some m)
    × ((id : ℕ)
        → lookup id m ≡ (
            if is_requested id (4 ∷ 5 ∷ [])
            then get_cluster id (process_batch toy toy_abi 15 blocks start).0
            else none))
unfolding topic toy_hash signature_of process_batch process_blocks process_logs process_log
    process_parsed parse_log parse_topics find_kind parse_event apply_event
build_head_state_snapshot-process_batch_example =
    build_head_state_snapshot-process_batch toy toy_abi (4 ∷ 5 ∷ []) 15 blocks start
      start_is_consistent (omega arith) refl

compute_cluster_id_from_event_perm_example :
    compute_cluster_id_from_event toy (cluster_liquidated 77 (1 ∷ 2 ∷ []) cluster)
    ≡ compute_cluster_id_from_event toy (cluster_deposited 77 (2 ∷ 1 ∷ []) 9 cluster)
unfolding event_owner event_operators
compute_cluster_id_from_event_perm_example =
    compute_cluster_id_from_event_perm toy (cluster_liquidated 77 (1 ∷ 2 ∷ []) cluster)
      (cluster_deposited 77 (2 ∷ 1 ∷ []) 9 cluster) refl ∣ Permᴰ.swap refl refl ∣₁

abbrev size : AdaptiveBatchSize
size = record { current = 50; min = 10; max = 80 }

abbrev size_is_within : IsWithin size
size_is_within = record {
  min_pos = omega arith;
  min_le = omega arith;
  le_max = omega arith;
  room = omega arith;
}

abbrev smooth : Round
smooth = record {
  error = none;
  context_done_on_error = false;
  packs = true;
  callback_accepts = true;
  context_done = false;
}

abbrev is_smooth : IsSmooth smooth
is_smooth = record { no_error = refl; packed = refl; accepted = refl; going = refl }

sync_to_block-Reaches_example : Reaches start 13 (
    sync_to_block toy toy_abi 12
      (channel (λ b. blocks) (fetch_logs size (10 + 1) 12 (smooth ∷ smooth ∷ [])))
      false
      start)
sync_to_block-Reaches_example =
    sync_to_block-Reaches toy toy_abi (λ b. blocks) size 12 (smooth ∷ smooth ∷ []) false start
      size_is_within (omega arith) (omega arith)

blocks-AreReadable : AreReadable toy toy_abi blocks
unfolding parse_log parse_topics find_kind parse_event topic toy_hash signature_of
blocks-AreReadable = ((tt, tt), tt)

sync_to_block_catches_up_example :
    ((sync_to_block toy toy_abi 12
        (channel (λ b. blocks) (fetch_logs size (10 + 1) 12 (smooth ∷ smooth ∷ [])))
        false
        start).1
      ≡ true)
    × ((sync_to_block toy toy_abi 12
          (channel (λ b. blocks) (fetch_logs size (10 + 1) 12 (smooth ∷ smooth ∷ [])))
          false
          start).0.last_synced
        ≡ 12)
sync_to_block_catches_up_example =
    sync_to_block_catches_up toy toy_abi (λ b. blocks) size 12 (smooth ∷ smooth ∷ []) start
      size_is_within (omega arith) (omega arith) (is_smooth, (is_smooth, tt)) (omega arith)
      (λ b. blocks-AreReadable)

abbrev chain : ℕ → Option BlockLogs
chain n =
    if n == 12 then some (record { block_number = 12; block_time = 144; logs = log ∷ [] }) else none

abbrev logs_of : Batch → List BlockLogs
logs_of b = blocks_between chain b.first (b.last + 1 - b.first)

sync_to_block-process_batch_example :
    (k : ℕ) × (process_batch toy toy_abi 12 (blocks_between chain (10 + 1) (12 - 10)) start ≡ (
      (sync_to_block toy toy_abi 12
          (channel logs_of (fetch_logs size (10 + 1) 12 (smooth ∷ smooth ∷ [])))
          false
          start).0,
      some k,
    ))
unfolding process_batch process_blocks process_logs process_log process_parsed parse_log
    parse_topics find_kind parse_event apply_event topic toy_hash signature_of sync_to_block
    sync_batches channel fetch_logs batch_end after_logs increase blocks_between
sync_to_block-process_batch_example =
    sync_to_block-process_batch toy toy_abi chain logs_of (λ b. refl) size 12 (smooth ∷ smooth ∷ [])
      false start size_is_within (omega arith) (omega arith) refl
