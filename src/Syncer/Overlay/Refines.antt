-- ===== src/Syncer/Overlay/Refines.antt =====
-- For BuildHeadStateSnapshot: the snapshot against processBatch of the same logs.
use ssv_oracle.Prelude.{
  ℕ, ◌≡◌, ◌<◌, refl, ap, sym, ◌∙◌, subst, Bool, true, false, Option, none, some, List, [], ◌∷◌, ◌+◌,
  ◌==◌, ==→≡, leb, if◌then◌else◌, lookup, insert, lookup-insert, Option-cases, inl, inr, arith,
  text,
}
use ssv_oracle.Merkle.Crypto.{Crypto}
use ssv_oracle.Storage.Clusters.{
  ContractEvent, ClusterRow, Bytes, Tables, insert_event, upsert_cluster, add_validator,
  insert_validator, delete_validator, update_last_synced_block, get_cluster,
  get_cluster_rows_by_ids, get_finalized_clusters,
}
use ssv_oracle.Execution.Group.{Log, BlockLogs}
use ssv_oracle.Syncer.Events.{
  Event, validator_added, validator_removed, cluster_liquidated, cluster_reactivated,
  cluster_withdrawn, cluster_deposited, cluster_migrated, cluster_balance_updated,
  compute_cluster_id_from_event,
}
use ssv_oracle.Syncer.Parser.{Abi, Parsed, parsed, unknown_event, malformed, parse_log}
use ssv_oracle.Syncer.State.{
  row_of, apply_event, process_parsed, process_log, process_logs, process_blocks, process_batch,
  stored_event,
}
use ssv_oracle.Syncer.State.Invariant.{IsConsistent}
use ssv_oracle.Syncer.Overlay.Rows.{or_else, lookup-overlay_rows}
use ssv_oracle.Syncer.Overlay.{
  Snapshot, is_requested, overlay_rows, apply_cluster_event_to_overlay, overlay_parsed,
  overlay_logs, overlay_blocks, build_head_state_snapshot,
}

-- The snapshot has the requested clusters of a table and no others.
abbrev pub Agrees : List ℕ → Snapshot → List (ℕ × ClusterRow) → Type 0
Agrees ids m clusters =
    (id : ℕ) → lookup id m ≡ (if is_requested id ids then lookup id clusters else none)

insert_event-clusters : (e : ContractEvent) (t : Tables) → (insert_event e t).clusters ≡ t.clusters
unfolding insert_event
insert_event-clusters e t = ground arith

insert_validator-clusters :
    (id : ℕ) (key : Bytes) (t : Tables) {u : Tables}
    → insert_validator id key t ≡ some u
    → u.clusters ≡ t.clusters
unfolding insert_validator add_validator
insert_validator-clusters id key t {u} e = ground arith

apply_event-clusters :
    (id : ℕ) (e : Event) (t : Tables) {u : Tables}
    → apply_event id e t ≡ some u
    → u.clusters ≡ insert id (row_of id e) t.clusters
unfolding apply_event row_of upsert_cluster delete_validator
apply_event-clusters id (validator_added o ops key s c) t h =
    insert_validator-clusters id key (upsert_cluster (row_of id (validator_added o ops key s c)) t)
      h
apply_event-clusters id (validator_removed o ops key c) t h = ground arith
apply_event-clusters id (cluster_liquidated o ops c) t h = ground arith
apply_event-clusters id (cluster_reactivated o ops c) t h = ground arith
apply_event-clusters id (cluster_withdrawn o ops v c) t h = ground arith
apply_event-clusters id (cluster_deposited o ops v c) t h = ground arith
apply_event-clusters id (cluster_migrated o ops a b d c) t h = ground arith
apply_event-clusters id (cluster_balance_updated o ops n b c) t h = ground arith

same_requested :
    (i j : ℕ) (ids : List ℕ) → (i == j) ≡ true → is_requested i ids ≡ is_requested j ids
same_requested i j ids e = ap (λ k. is_requested k ids) (==→≡ i j e)

overlay-Agrees :
    (c : Crypto) (ids : List ℕ) (e : Event) (m : Snapshot) (clusters : List (ℕ × ClusterRow))
    → Agrees ids m clusters
    → Agrees ids (apply_cluster_event_to_overlay c ids e m) (
        insert
          (compute_cluster_id_from_event c e)
          (row_of (compute_cluster_id_from_event c e) e)
          clusters)
unfolding apply_cluster_event_to_overlay
overlay-Agrees c ids e m clusters h j =
    let i = compute_cluster_id_from_event c e in
    let here = lookup-insert i j (row_of i e) m in
    let there = lookup-insert i j (row_of i e) clusters in
    let same = same_requested i j ids in ground (arith, h j, here, there, same)

abbrev Extends : List ℕ → Option Snapshot → Tables → Type 0
Extends ids o t = (m : Snapshot) × (o ≡ some m) × Agrees ids m t.clusters

parsed_step :
    (c : Crypto) (ids : List ℕ) (bl : BlockLogs) (log : Log) (p : Parsed) (m : Snapshot)
    (t : Tables) {u : Tables} {b : Bool}
    → process_parsed c bl log p t ≡ some (u, b)
    → Agrees ids m t.clusters
    → Extends ids (overlay_parsed c ids p m) u
unfolding process_parsed overlay_parsed
parsed_step c ids bl log (parsed name e) m t {u} {b} h w =
    let id = compute_cluster_id_from_event c e in
    let row = stored_event bl log name (some id) none in
    elim (Option-cases (apply_event id e (insert_event row t))) [
      | inl n ↦ absurd (ground arith)
      | inr (after, f) ↦
          let same : after ≡ u = ground arith in
          let table : insert id (row_of id e) t.clusters ≡ u.clusters =
            ap (insert id (row_of id e)) (sym (insert_event-clusters row t))
            ∙ sym (apply_event-clusters id e (insert_event row t) f)
            ∙ ap (λ x. x.clusters) same in
          (
            apply_cluster_event_to_overlay c ids e m,
            refl,
            subst (Agrees ids (apply_cluster_event_to_overlay c ids e m)) table
                (overlay-Agrees c ids e m t.clusters w),
          )
    ]
parsed_step c ids bl log (unknown_event message) m t {u} {b} h w =
    let row = stored_event bl log (text "Unknown") none (some message) in
    let same : insert_event row t ≡ u = ground arith in
    (
      m,
      refl,
      subst (Agrees ids m) (sym (insert_event-clusters row t) ∙ ap (λ x. x.clusters) same) w,
    )
parsed_step c ids bl log malformed m t {u} {b} h w = absurd (ground arith)

module _ (c : Crypto) (abi : Abi) (ids : List ℕ) where
  logs_step :
      (bl : BlockLogs) (logs : List Log) (m : Snapshot) (t : Tables) (n : ℕ) {u : Tables} {k : ℕ}
      → process_logs c abi bl logs t n ≡ some (u, k)
      → Agrees ids m t.clusters
      → Extends ids (overlay_logs c abi ids logs m) u
  unfolding process_logs process_log overlay_logs
  logs_step bl [] m t n {u} {k} h w =
      let same : t ≡ u = ground arith in
      (m, refl, subst (Agrees ids m) (ap (λ x. x.clusters) same) w)
  logs_step bl (log ∷ rest) m t n {u} {k} h w =
      elim (Option-cases (process_parsed c bl log (parse_log c abi log) t)) [
        | inl a ↦ absurd (ground arith)
        | inr ((after, known), f) ↦
            let (m₁, e₁, w₁) = parsed_step c ids bl log (parse_log c abi log) m t f w in
            let (m₂, e₂, w₂) =
              logs_step bl rest m₁ after (if known then n + 1 else n)
                (sym (rw (f, process_logs)) ∙ h) w₁ in
            (m₂, rw (e₁, overlay_logs) e₂, w₂)
      ]

  blocks_step :
      (blocks : List BlockLogs) (m : Snapshot) (t : Tables) (n : ℕ) {u : Tables} {k : ℕ}
      → process_blocks c abi blocks t n ≡ some (u, k)
      → Agrees ids m t.clusters
      → Extends ids (overlay_blocks c abi ids blocks m) u
  unfolding process_blocks overlay_blocks
  blocks_step [] m t n {u} {k} h w =
      let same : t ≡ u = ground arith in
      (m, refl, subst (Agrees ids m) (ap (λ x. x.clusters) same) w)
  blocks_step (bl ∷ rest) m t n {u} {k} h w =
      elim (Option-cases (process_logs c abi bl bl.logs t n)) [
        | inl a ↦ absurd (ground arith)
        | inr ((after, known), f) ↦
            let (m₁, e₁, w₁) = logs_step bl bl.logs m t n f w in
            let (m₂, e₂, w₂) =
              blocks_step rest m₁ after known (sym (rw (f, process_blocks)) ∙ h) w₁ in
            (m₂, rw (e₁, overlay_blocks) e₂, w₂)
      ]

finalized-Agrees :
    (ids : List ℕ) (t : Tables)
    → IsConsistent t
    → Agrees ids (overlay_rows (get_cluster_rows_by_ids ids t) []) t.clusters
unfolding lookup or_else
finalized-Agrees ids t w j = let rows = lookup-overlay_rows ids t [] j w in ground (arith, rows)

-- The snapshot of the head state refines syncing: where the tables are consistent and behind the
-- head, and processBatch of the same logs succeeds, BuildHeadStateSnapshot succeeds too, and for a
-- requested cluster has the row that the batch would store, for any other cluster none.
pub build_head_state_snapshot-process_batch :
    (c : Crypto) (abi : Abi) (ids : List ℕ) (head : ℕ) (blocks : List BlockLogs) (t : Tables)
    {k : ℕ}
    → IsConsistent t
    → t.last_synced < head
    → (process_batch c abi head blocks t).1 ≡ some k
    → (m : Snapshot) × (build_head_state_snapshot c abi ids (some head) (some blocks) t ≡ some m)
      × ((id : ℕ)
          → lookup id m ≡ (
              if is_requested id ids
              then get_cluster id (process_batch c abi head blocks t).0
              else none))
unfolding process_batch build_head_state_snapshot get_finalized_clusters get_cluster
    update_last_synced_block
build_head_state_snapshot-process_batch c abi ids head [] t {k} w l h =
    let ahead : leb head t.last_synced ≡ false = ground arith in
    (overlay_rows (get_cluster_rows_by_ids ids t) [], rw ahead, finalized-Agrees ids t w)
build_head_state_snapshot-process_batch c abi ids head (bl ∷ rest) t {k} w l h =
    let ahead : leb head t.last_synced ≡ false = ground arith in
    elim (Option-cases (process_blocks c abi (bl ∷ rest) t 0)) [
      | inl n ↦ absurd (ground arith)
      | inr ((after, known), f) ↦
          let start = finalized-Agrees ids t w in
          let (m, e, a) =
            blocks_step c abi ids (bl ∷ rest) (overlay_rows (get_cluster_rows_by_ids ids t) []) t 0
              f start in
          let same : (process_batch c abi head (bl ∷ rest) t).0.clusters ≡ after.clusters =
            rw (f, process_batch) in
          (
            m,
            rw ahead e,
            λ id.
                subst (λ x. lookup id m ≡ (if is_requested id ids then lookup id x else none))
                  (sym same) (a id),
          )
    ]
