-- ===== src/Syncer/State.antt =====
-- eth/syncer/syncer.go: what an event does to the tables, and the batches.
pub mod Invariant
pub mod Cursor
pub mod Readable
use ssv_oracle.Prelude.{
  ℕ, ◌+◌, Bool, true, false, not, Option, none, some, List, [], ◌∷◌, leb, if◌then◌else◌, Text, text,
  u32,
}
use ssv_oracle.Merkle.Crypto.{Crypto}
use ssv_oracle.Storage.Clusters.{
  ContractEvent, ClusterRow, Tables, insert_event, upsert_cluster, insert_validator,
  delete_validator, update_last_synced_block,
}
use ssv_oracle.Execution.Group.{Log, BlockLogs}
use ssv_oracle.Syncer.Events.{
  Cluster, Event, validator_added, validator_removed, event_owner, event_operators, event_cluster,
  compute_cluster_id_from_event,
}
use ssv_oracle.Syncer.Parser.{Abi, Parsed, parsed, unknown_event, malformed, parse_log}

-- The row of upsertClusterFromEvent and of handleValidatorAdded.
unfoldable pub row_of : ℕ → Event → ClusterRow
unfolding event_owner event_operators event_cluster
row_of id e = record {
  cluster_id = id;
  owner_address = event_owner e;
  operator_ids = event_operators e;
  validator_count = (event_cluster e).validator_count;
  network_fee_index = (event_cluster e).network_fee_index;
  index = (event_cluster e).index;
  is_active = (event_cluster e).active;
  balance = (event_cluster e).balance;
}

-- applyEvent and its handlers.
unfoldable pub apply_event : ℕ → Event → Tables → Option Tables
unfolding row_of upsert_cluster insert_validator delete_validator
apply_event id e t =
    let row = row_of id e in
    elim e [
      | validator_added o ops key shares c ↦ insert_validator id key (upsert_cluster row t)
      | validator_removed o ops key c ↦ some (upsert_cluster row (delete_validator id key t))
      | _ ↦ some (upsert_cluster row t)
    ]

-- The contractEvent of processLog and of storeRawEvent.
abbrev pub stored_event : BlockLogs → Log → Text → Option ℕ → Option Text → ContractEvent
stored_event bl log name id message = record {
  event_type = name;
  block_number = bl.block_number;
  block_hash = log.block_hash;
  block_time = bl.block_time;
  transaction_hash = log.tx_hash;
  transaction_index = u32 log.tx_index;
  log_index = u32 log.index;
  event_cluster = id;
  error = message;
}

-- What processLog does with a parsed log: the tables and whether the event is known.
unfoldable pub process_parsed : Crypto → BlockLogs → Log → Parsed → Tables → Option (Tables × Bool)
unfolding insert_event apply_event compute_cluster_id_from_event
process_parsed c bl log (parsed name e) t =
    let id = compute_cluster_id_from_event c e in
    elim (apply_event id e (insert_event (stored_event bl log name (some id) none) t)) [
      | none ↦ none
      | some after ↦ some (after, true)
    ]
process_parsed c bl log (unknown_event message) t =
    some (insert_event (stored_event bl log (text "Unknown") none (some message)) t, false)
process_parsed c bl log malformed t = none

-- processLog
unfoldable pub process_log : Crypto → Abi → BlockLogs → Log → Tables → Option (Tables × Bool)
unfolding process_parsed parse_log
process_log c abi bl log t = process_parsed c bl log (parse_log c abi log) t

-- The loops of processBatch, on the transaction's tables and the number of known events.
unfoldable pub process_logs : Crypto → Abi → BlockLogs → List Log → Tables → ℕ → Option (Tables × ℕ)
unfolding process_log
process_logs c abi bl [] t n = some (t, n)
process_logs c abi bl (log ∷ rest) t n = elim (process_log c abi bl log t) [
  | none ↦ none
  | some (after, known) ↦ process_logs c abi bl rest after (if known then n + 1 else n)
]

unfoldable pub process_blocks : Crypto → Abi → List BlockLogs → Tables → ℕ → Option (Tables × ℕ)
unfolding process_logs
process_blocks c abi [] t n = some (t, n)
process_blocks c abi (bl ∷ rest) t n = elim (process_logs c abi bl bl.logs t n) [
  | none ↦ none
  | some (after, known) ↦ process_blocks c abi rest after known
]

-- processBatch: the tables that are committed, and the number of known events or none for an error.
unfoldable pub process_batch : Crypto → Abi → ℕ → List BlockLogs → Tables → Tables × Option ℕ
unfolding process_blocks update_last_synced_block
process_batch c abi batch_end [] t = (update_last_synced_block batch_end t, some 0)
process_batch c abi batch_end (bl ∷ rest) t = elim (process_blocks c abi (bl ∷ rest) t 0) [
  | none ↦ (t, none)
  | some (after, known) ↦ (update_last_synced_block batch_end after, some known)
]

-- What the fetcher sends over the channel.
pub data BatchResult : Type 0 where
  fetched : ℕ → List BlockLogs → BatchResult
  fetch_error : BatchResult

-- The loop of SyncToBlock over the channel: the tables, and whether it ended without an error.
unfoldable pub sync_batches : Crypto → Abi → List BatchResult → Tables → Tables × Bool
unfolding process_batch
sync_batches c abi [] t = (t, true)
sync_batches c abi (fetch_error ∷ rest) t = (t, false)
sync_batches c abi (fetched batch_end logs ∷ rest) t =
    let (after, result) = process_batch c abi batch_end logs t in
    elim result [ none ↦ (after, false) | some known ↦ sync_batches c abi rest after ]

-- SyncToBlock, on the batches that the fetcher sends and whether the context is done at the end.
unfoldable pub sync_to_block : Crypto → Abi → ℕ → List BatchResult → Bool → Tables → Tables × Bool
unfolding sync_batches
sync_to_block c abi target batches context_done t =
    if leb target t.last_synced
    then (t, true)
    else let (after, ok) = sync_batches c abi batches t in
      (after, if ok then not context_done else false)
