-- ===== src/Syncer/State/Invariant.antt =====
-- What the syncer keeps true of the tables.
use ssv_oracle.Prelude.{
  ℕ, ◌≡◌, ◌⊎◌, sym, ◌∙◌, subst, Bool, false, none, some, List, [], ◌∷◌, ◌==◌, ==→≡, if◌then◌else◌,
  lookup, insert, lookup-insert, insert-HasDistinctKeys, HasDistinctKeys, All, All-map,
  Option-cases, Bool-cases, inl, inr, arith, text, ◌+◌, leb,
}
use ssv_oracle.Merkle.Crypto.{Crypto}
use ssv_oracle.Storage.Clusters.{
  ContractEvent, ClusterRow, Validator, Bytes, Tables, has_event, insert_event, upsert_cluster,
  add_validator, insert_validator, has_validator, without_validator, delete_validator,
  update_last_synced_block, pubkey_length,
}
use ssv_oracle.Storage.Clusters.{is_pair}
use ssv_oracle.Execution.Group.{Log, BlockLogs}
use ssv_oracle.Syncer.Events.{
  Event, validator_added, validator_removed, cluster_liquidated, cluster_reactivated,
  cluster_withdrawn, cluster_deposited, cluster_migrated, cluster_balance_updated,
  compute_cluster_id_from_event,
}
use ssv_oracle.Syncer.Parser.{Abi, Parsed, parsed, unknown_event, malformed, parse_log}
use ssv_oracle.Syncer.State.{
  row_of, apply_event, process_parsed, process_log, process_logs, process_blocks, process_batch,
  sync_batches, sync_to_block, BatchResult, fetched, fetch_error, stored_event,
}

-- A validator has a key of 48 bytes and belongs to a cluster of the table.
abbrev pub IsPlaced : List (ℕ × ClusterRow) → Validator → Type 0
IsPlaced m v =
    (v.validator_pubkey.size ≡ pubkey_length)
    × ((row : ClusterRow) × (lookup v.validator_cluster m ≡ some row))

-- No two events have the same block and log index.
abbrev pub HasDistinctEvents : List ContractEvent → Type 0
HasDistinctEvents [] = Unit
HasDistinctEvents (e ∷ rest) =
    (has_event e.block_number e.log_index rest ≡ false) × HasDistinctEvents rest

-- The tables are consistent.
pub record IsConsistent (t : Tables) : Type 0 where
  pub distinct_events : HasDistinctEvents t.events
  pub distinct_clusters : HasDistinctKeys t.clusters
  pub own_keys : (id : ℕ) {row : ClusterRow} → lookup id t.clusters ≡ some row → row.cluster_id ≡ id
  pub placed : All (IsPlaced t.clusters) t.validators

IsPlaced-insert :
    (id : ℕ) (row : ClusterRow) (m : List (ℕ × ClusterRow)) (v : Validator)
    → IsPlaced m v
    → IsPlaced (insert id row m) v
IsPlaced-insert id row m v h = elim (Bool-cases (id == v.validator_cluster)) [
  | inl e ↦ (h.0, (row, lookup-insert id v.validator_cluster row m ∙ rw e))
  | inr e ↦ (h.0, (h.1.0, lookup-insert id v.validator_cluster row m ∙ rw e h.1.1))
]

upsert_cluster-own_keys :
    (row : ClusterRow) (t : Tables)
    → IsConsistent t
    → (id : ℕ) {r : ClusterRow} → lookup id (insert row.cluster_id row t.clusters) ≡ some r
    → r.cluster_id ≡ id
upsert_cluster-own_keys row t h id {r} e = elim (Bool-cases (row.cluster_id == id)) [
  | inl y ↦ ground (arith, lookup-insert row.cluster_id id row t.clusters, y, e)
  | inr n ↦ h.own_keys id (sym (lookup-insert row.cluster_id id row t.clusters ∙ rw n) ∙ e)
]

upsert_cluster-IsConsistent :
    (row : ClusterRow) (t : Tables) → IsConsistent t → IsConsistent (upsert_cluster row t)
unfolding upsert_cluster
upsert_cluster-IsConsistent row t h = record {
  distinct_events = h.distinct_events;
  distinct_clusters = insert-HasDistinctKeys row.cluster_id row t.clusters h.distinct_clusters;
  own_keys = upsert_cluster-own_keys row t h;
  placed =
      All-map (IsPlaced t.clusters) (IsPlaced (insert row.cluster_id row t.clusters))
        (IsPlaced-insert row.cluster_id row t.clusters) t.validators h.placed;
}

insert_event-IsConsistent :
    (e : ContractEvent) (t : Tables) → IsConsistent t → IsConsistent (insert_event e t)
unfolding insert_event
insert_event-IsConsistent e t h =
    elim (Bool-cases (has_event e.block_number e.log_index t.events)) [
      | inl y ↦ rw y h
      | inr n ↦ rw n (record {
        distinct_events = (n, h.distinct_events);
        distinct_clusters = h.distinct_clusters;
        own_keys = h.own_keys;
        placed = h.placed;
      })
    ]

All-without_validator :
    (P : Validator → Type 0) (id : ℕ) (key : Bytes) (vs : List Validator)
    → All P vs
    → All P (without_validator id key vs)
unfolding without_validator
All-without_validator P id key [] h = tt
All-without_validator P id key (v ∷ vs) h = elim (Bool-cases (is_pair id key v)) [
  | inl e ↦ rw e (All-without_validator P id key vs h.1)
  | inr e ↦ rw e (h.0, All-without_validator P id key vs h.1)
]

delete_validator-IsConsistent :
    (id : ℕ) (key : Bytes) (t : Tables) → IsConsistent t → IsConsistent (delete_validator id key t)
unfolding delete_validator
delete_validator-IsConsistent id key t h = record {
  distinct_events = h.distinct_events;
  distinct_clusters = h.distinct_clusters;
  own_keys = h.own_keys;
  placed = All-without_validator (IsPlaced t.clusters) id key t.validators h.placed;
}

abbrev with_validator : Validator → Tables → Tables
with_validator v t = record t { validators = v ∷ t.validators }

-- insertValidator leaves the tables or adds one placed validator.
insert_validator_cases :
    (id : ℕ) (key : Bytes) (t u : Tables)
    → insert_validator id key t ≡ some u
    → (u ≡ t)
      ⊎ (IsPlaced t.clusters (record { validator_cluster = id; validator_pubkey = key })
          × (u ≡ with_validator (record { validator_cluster = id; validator_pubkey = key }) t))
unfolding insert_validator add_validator
insert_validator_cases id key t u e = elim (Bool-cases (key.size == pubkey_length)) [
  | inr n ↦ absurd (ground arith)
  | inl y ↦ elim (Bool-cases (has_validator id key t.validators)) [
    | inl a ↦ inl (ground arith)
    | inr b ↦ elim (Option-cases (lookup id t.clusters)) [
      | inl n ↦ absurd (ground arith)
      | inr (row, f) ↦ inr ((==→≡ key.size pubkey_length y, (row, f)), ground arith)
    ]
  ]
]

insert_validator-IsConsistent :
    (id : ℕ) (key : Bytes) (t : Tables) {u : Tables}
    → insert_validator id key t ≡ some u
    → IsConsistent t
    → IsConsistent u
insert_validator-IsConsistent id key t {u} e h = elim (insert_validator_cases id key t u e) [
  | inl same ↦ subst IsConsistent (sym same) h
  | inr (p, q) ↦ subst IsConsistent (sym q) (record {
    distinct_events = h.distinct_events;
    distinct_clusters = h.distinct_clusters;
    own_keys = h.own_keys;
    placed = (p, h.placed);
  })
]

written :
    (id : ℕ) (e : Event) (t : Tables) {u : Tables}
    → some (upsert_cluster (row_of id e) t) ≡ some u
    → IsConsistent t
    → IsConsistent u
written id e t {u} h w =
    let same : upsert_cluster (row_of id e) t ≡ u = cc in
    subst IsConsistent same (upsert_cluster-IsConsistent (row_of id e) t w)

apply_event-IsConsistent :
    (id : ℕ) (e : Event) (t : Tables) {u : Tables}
    → apply_event id e t ≡ some u
    → IsConsistent t
    → IsConsistent u
unfolding apply_event
apply_event-IsConsistent id (validator_added o ops key s c) t h w =
    insert_validator-IsConsistent id key
      (upsert_cluster (row_of id (validator_added o ops key s c)) t) h
      (upsert_cluster-IsConsistent (row_of id (validator_added o ops key s c)) t w)
apply_event-IsConsistent id (validator_removed o ops key c) t {u} h w =
    let after =
      upsert_cluster (row_of id (validator_removed o ops key c)) (delete_validator id key t) in
    let same : after ≡ u = cc in
    subst IsConsistent same (
      upsert_cluster-IsConsistent (row_of id (validator_removed o ops key c))
        (delete_validator id key t) (delete_validator-IsConsistent id key t w))
apply_event-IsConsistent id (cluster_liquidated o ops c) t {u} h w =
    written id (cluster_liquidated o ops c) t h w
apply_event-IsConsistent id (cluster_reactivated o ops c) t {u} h w =
    written id (cluster_reactivated o ops c) t h w
apply_event-IsConsistent id (cluster_withdrawn o ops v c) t {u} h w =
    written id (cluster_withdrawn o ops v c) t h w
apply_event-IsConsistent id (cluster_deposited o ops v c) t {u} h w =
    written id (cluster_deposited o ops v c) t h w
apply_event-IsConsistent id (cluster_migrated o ops a b d c) t {u} h w =
    written id (cluster_migrated o ops a b d c) t h w
apply_event-IsConsistent id (cluster_balance_updated o ops n b c) t {u} h w =
    written id (cluster_balance_updated o ops n b c) t h w

process_parsed-IsConsistent :
    (c : Crypto) (bl : BlockLogs) (log : Log) (p : Parsed) (t : Tables) {u : Tables} {b : Bool}
    → process_parsed c bl log p t ≡ some (u, b)
    → IsConsistent t
    → IsConsistent u
unfolding process_parsed
process_parsed-IsConsistent c bl log (parsed name e) t {u} {b} h w =
    let id = compute_cluster_id_from_event c e in
    let row = stored_event bl log name (some id) none in
    elim (Option-cases (apply_event id e (insert_event row t))) [
      | inl n ↦ absurd (ground arith)
      | inr (after, f) ↦
          let same : after ≡ u = ground arith in
          subst IsConsistent same (
            apply_event-IsConsistent id e (insert_event row t) f
              (insert_event-IsConsistent row t w))
    ]
process_parsed-IsConsistent c bl log (unknown_event message) t {u} {b} h w =
    let row = stored_event bl log (text "Unknown") none (some message) in
    let same : insert_event row t ≡ u = ground arith in
    subst IsConsistent same (insert_event-IsConsistent row t w)
process_parsed-IsConsistent c bl log malformed t {u} {b} h w = absurd (ground arith)

module _ (c : Crypto) (abi : Abi) where
  process_logs-IsConsistent :
      (bl : BlockLogs) (logs : List Log) (t : Tables) (n : ℕ) {u : Tables} {k : ℕ}
      → process_logs c abi bl logs t n ≡ some (u, k)
      → IsConsistent t
      → IsConsistent u
  unfolding process_logs process_log
  process_logs-IsConsistent bl [] t n {u} {k} h w =
      let same : t ≡ u = ground arith in subst IsConsistent same w
  process_logs-IsConsistent bl (log ∷ rest) t n {u} {k} h w =
      elim (Option-cases (process_parsed c bl log (parse_log c abi log) t)) [
        | inl a ↦ absurd (ground arith)
        | inr ((after, known), f) ↦
            process_logs-IsConsistent bl rest after (if known then n + 1 else n)
              (sym (rw (f, process_logs)) ∙ h)
              (process_parsed-IsConsistent c bl log (parse_log c abi log) t f w)
      ]

  process_blocks-IsConsistent :
      (blocks : List BlockLogs) (t : Tables) (n : ℕ) {u : Tables} {k : ℕ}
      → process_blocks c abi blocks t n ≡ some (u, k)
      → IsConsistent t
      → IsConsistent u
  unfolding process_blocks
  process_blocks-IsConsistent [] t n {u} {k} h w =
      let same : t ≡ u = ground arith in subst IsConsistent same w
  process_blocks-IsConsistent (bl ∷ rest) t n {u} {k} h w =
      elim (Option-cases (process_logs c abi bl bl.logs t n)) [
        | inl a ↦ absurd (ground arith)
        | inr ((after, m), f) ↦
            process_blocks-IsConsistent rest after m (sym (rw (f, process_blocks)) ∙ h)
              (process_logs-IsConsistent bl bl.logs t n f w)
      ]

  update_last_synced_block-IsConsistent :
      (block : ℕ) (t : Tables) → IsConsistent t → IsConsistent (update_last_synced_block block t)
  unfolding update_last_synced_block
  update_last_synced_block-IsConsistent block t h = record {
    distinct_events = h.distinct_events;
    distinct_clusters = h.distinct_clusters;
    own_keys = h.own_keys;
    placed = h.placed;
  }

  process_batch-IsConsistent :
      (batch_end : ℕ) (blocks : List BlockLogs) (t : Tables)
      → IsConsistent t
      → IsConsistent (process_batch c abi batch_end blocks t).0
  unfolding process_batch
  process_batch-IsConsistent batch_end [] t w = update_last_synced_block-IsConsistent batch_end t w
  process_batch-IsConsistent batch_end (bl ∷ rest) t w =
      elim (Option-cases (process_blocks c abi (bl ∷ rest) t 0)) [
        | inl n ↦ rw (n, process_batch) w
        | inr ((after, known), f) ↦
            rw (f, process_batch)
              (update_last_synced_block-IsConsistent batch_end after
                (process_blocks-IsConsistent (bl ∷ rest) t 0 f w))
      ]

  sync_batches-IsConsistent :
      (batches : List BatchResult) (t : Tables)
      → IsConsistent t
      → IsConsistent (sync_batches c abi batches t).0
  unfolding sync_batches
  sync_batches-IsConsistent [] t w = w
  sync_batches-IsConsistent (fetch_error ∷ rest) t w = w
  sync_batches-IsConsistent (fetched batch_end logs ∷ rest) t w =
      elim (Option-cases (process_batch c abi batch_end logs t).1) [
        | inl n ↦ rw (n, sync_batches) (process_batch-IsConsistent batch_end logs t w)
        | inr (known, f) ↦
            rw (f, sync_batches)
              (sync_batches-IsConsistent rest (process_batch c abi batch_end logs t).0
                (process_batch-IsConsistent batch_end logs t w))
      ]

  -- SyncToBlock keeps the tables consistent, however it ends: whatever the fetcher sends, the events
  -- have distinct keys, the clusters distinct identifiers that are those of their rows, and every
  -- validator a key of 48 bytes and a cluster of the table.
  pub sync_to_block-IsConsistent :
      (target : ℕ) (batches : List BatchResult) (context_done : Bool) (t : Tables)
      → IsConsistent t
      → IsConsistent (sync_to_block c abi target batches context_done t).0
  unfolding sync_to_block
  sync_to_block-IsConsistent target batches done t w =
      elim (Bool-cases (leb target t.last_synced)) [
        | inl y ↦ rw y w
        | inr n ↦ rw n (sync_batches-IsConsistent batches t w)
      ]
