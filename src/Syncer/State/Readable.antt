-- ===== src/Syncer/State/Readable.antt =====
-- For processBatch: the logs that it can read.
use ssv_oracle.Prelude.{
  ℕ, ◌+◌, ◌≡◌, refl, Bool, true, none, some, List, [], ◌∷◌, if◌then◌else◌, lookup, insert,
  lookup-insert, All, Bool-cases, inl, inr, arith,
}
use ssv_oracle.Merkle.Crypto.{Crypto}
use ssv_oracle.Storage.Clusters.{
  ClusterRow, Validator, Bytes, Tables, pubkey_length, has_validator, insert_event, upsert_cluster,
  add_validator, insert_validator,
}
use ssv_oracle.Execution.Group.{Log, BlockLogs}
use ssv_oracle.Syncer.Events.{
  Event, validator_added, validator_removed, cluster_liquidated, cluster_reactivated,
  cluster_withdrawn, cluster_deposited, cluster_migrated, cluster_balance_updated,
  compute_cluster_id_from_event,
}
use ssv_oracle.Syncer.Parser.{Abi, Parsed, parsed, unknown_event, malformed, parse_log}
use ssv_oracle.Syncer.State.{
  row_of, stored_event, apply_event, process_parsed, process_log, process_logs, process_blocks,
  process_batch,
}

-- The key of a new validator has its length.
abbrev pub HasKey : Event → Type 0
HasKey (validator_added o ops key s c) = key.size ≡ pubkey_length
HasKey _ = Unit

-- A log that the syncer can read: of a handled event with its data, or of an unknown signature.
abbrev pub IsReadable : Parsed → Type 0
IsReadable (parsed name e) = HasKey e
IsReadable (unknown_event message) = Unit
IsReadable malformed = ⊥

abbrev pub AreReadable : Crypto → Abi → List BlockLogs → Type 0
AreReadable c abi =
    All (λ (bl : BlockLogs). All (λ (log : Log). IsReadable (parse_log c abi log)) bl.logs)

abbrev with_validator : Validator → Tables → Tables
with_validator v t = record t { validators = v ∷ t.validators }

-- The cluster of a new validator is stored just before it, so that the foreign key holds.
insert_validator-upsert :
    (id : ℕ) (key : Bytes) (row : ClusterRow) (t : Tables)
    → key.size ≡ pubkey_length
    → row.cluster_id ≡ id
    → (u : Tables) × (insert_validator id key (upsert_cluster row t) ≡ some u)
unfolding insert_validator add_validator upsert_cluster
insert_validator-upsert id key row t h e =
    let found : lookup id (insert row.cluster_id row t.clusters) ≡ some row =
      ground (arith, lookup-insert row.cluster_id id row t.clusters, e) in
    elim (Bool-cases (has_validator id key t.validators)) [
      | inl y ↦ (upsert_cluster row t, ground (arith, h, y))
      | inr n ↦ (
        with_validator (record { validator_cluster = id; validator_pubkey = key })
            (upsert_cluster row t),
        ground (arith, h, n, found),
      )
    ]

apply_event-some :
    (id : ℕ) (e : Event) (t : Tables) → HasKey e → (u : Tables) × (apply_event id e t ≡ some u)
unfolding apply_event row_of
apply_event-some id (validator_added o ops key s c) t h =
    insert_validator-upsert id key (row_of id (validator_added o ops key s c)) t h refl
apply_event-some id (validator_removed o ops key c) t h = (_, refl)
apply_event-some id (cluster_liquidated o ops c) t h = (_, refl)
apply_event-some id (cluster_reactivated o ops c) t h = (_, refl)
apply_event-some id (cluster_withdrawn o ops v c) t h = (_, refl)
apply_event-some id (cluster_deposited o ops v c) t h = (_, refl)
apply_event-some id (cluster_migrated o ops a b d c) t h = (_, refl)
apply_event-some id (cluster_balance_updated o ops n b c) t h = (_, refl)

process_parsed-some :
    (c : Crypto) (bl : BlockLogs) (log : Log) (p : Parsed) (t : Tables)
    → IsReadable p
    → (r : Tables × Bool) × (process_parsed c bl log p t ≡ some r)
unfolding process_parsed
process_parsed-some c bl log (parsed name e) t h =
    let id = compute_cluster_id_from_event c e in
    let row = stored_event bl log name (some id) none in
    let (u, f) = apply_event-some id e (insert_event row t) h in
    ((u, true), rw (f, process_parsed) refl)
process_parsed-some c bl log (unknown_event message) t h = (_, refl)
process_parsed-some c bl log malformed t h = absurd h

module _ (c : Crypto) (abi : Abi) where
  process_logs-some :
      (bl : BlockLogs) (logs : List Log) (t : Tables) (n : ℕ)
      → All (λ (log : Log). IsReadable (parse_log c abi log)) logs
      → (r : Tables × ℕ) × (process_logs c abi bl logs t n ≡ some r)
  unfolding process_logs process_log
  process_logs-some bl [] t n h = (_, refl)
  process_logs-some bl (log ∷ rest) t n h =
      let ((u, k), e) = process_parsed-some c bl log (parse_log c abi log) t h.0 in
      let (r, f) = process_logs-some bl rest u (if k then n + 1 else n) h.1 in
      (r, rw (e, process_logs) f)

  process_blocks-some :
      (blocks : List BlockLogs) (t : Tables) (n : ℕ)
      → AreReadable c abi blocks
      → (r : Tables × ℕ) × (process_blocks c abi blocks t n ≡ some r)
  unfolding process_blocks
  process_blocks-some [] t n h = (_, refl)
  process_blocks-some (bl ∷ rest) t n h =
      let ((u, k), e) = process_logs-some bl bl.logs t n h.0 in
      let (r, f) = process_blocks-some rest u k h.1 in (r, rw (e, process_blocks) f)

  pub process_batch-some :
      (batch_end : ℕ) (blocks : List BlockLogs) (t : Tables)
      → AreReadable c abi blocks
      → (k : ℕ) × ((process_batch c abi batch_end blocks t).1 ≡ some k)
  unfolding process_batch
  process_batch-some batch_end [] t h = (0, refl)
  process_batch-some batch_end (bl ∷ rest) t h =
      let ((u, k), e) = process_blocks-some (bl ∷ rest) t 0 h in (k, rw (e, process_batch) refl)
