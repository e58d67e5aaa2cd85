-- ===== src/Syncer/Overlay.antt =====
-- eth/syncer/headstate.go: the clusters as of the head block, on top of the finalized tables.
pub mod Rows
pub mod Refines
use ssv_oracle.Prelude.{
  ℕ, Bool, true, false, Option, none, some, List, [], ◌∷◌, leb, ◌==◌, if◌then◌else◌, insert,
}
use ssv_oracle.Merkle.Crypto.{Crypto}
use ssv_oracle.Storage.Clusters.{ClusterRow, Tables, get_finalized_clusters}
use ssv_oracle.Execution.Group.{Log, BlockLogs}
use ssv_oracle.Syncer.Events.{Event, compute_cluster_id_from_event}
use ssv_oracle.Syncer.Parser.{Abi, Parsed, parsed, unknown_event, malformed, parse_log}
use ssv_oracle.Syncer.State.{row_of}

abbrev pub Snapshot : Type 0
Snapshot = List (ℕ × ClusterRow)

-- Membership in the map `requested`.
unfoldable pub is_requested : ℕ → List ℕ → Bool
is_requested id [] = false
is_requested id (i ∷ ids) = if i == id then true else is_requested id ids

-- The loop that fills the overlay with the finalized rows.
unfoldable pub overlay_rows : List ClusterRow → Snapshot → Snapshot
overlay_rows [] m = m
overlay_rows (row ∷ rows) m = overlay_rows rows (insert row.cluster_id row m)

-- applyClusterEventToOverlay
unfoldable pub apply_cluster_event_to_overlay : Crypto → List ℕ → Event → Snapshot → Snapshot
unfolding compute_cluster_id_from_event row_of is_requested
apply_cluster_event_to_overlay c ids e m =
    let id = compute_cluster_id_from_event c e in
    if is_requested id ids then insert id (row_of id e) m else m

-- One log of the callback: unknown events are skipped, other parse errors end the fetch.
unfoldable pub overlay_parsed : Crypto → List ℕ → Parsed → Snapshot → Option Snapshot
unfolding apply_cluster_event_to_overlay
overlay_parsed c ids (parsed name e) m = some (apply_cluster_event_to_overlay c ids e m)
overlay_parsed c ids (unknown_event message) m = some m
overlay_parsed c ids malformed m = none

unfoldable pub overlay_logs : Crypto → Abi → List ℕ → List Log → Snapshot → Option Snapshot
unfolding overlay_parsed parse_log
overlay_logs c abi ids [] m = some m
overlay_logs c abi ids (log ∷ rest) m = elim (overlay_parsed c ids (parse_log c abi log) m) [
  | none ↦ none
  | some after ↦ overlay_logs c abi ids rest after
]

unfoldable pub overlay_blocks : Crypto → Abi → List ℕ → List BlockLogs → Snapshot → Option Snapshot
unfolding overlay_logs
overlay_blocks c abi ids [] m = some m
overlay_blocks c abi ids (bl ∷ rest) m = elim (overlay_logs c abi ids bl.logs m) [
  | none ↦ none
  | some after ↦ overlay_blocks c abi ids rest after
]

-- BuildHeadStateSnapshot, on the head block and the logs behind the last synced block, or none where
-- the node fails to give them.
unfoldable pub build_head_state_snapshot :
    Crypto → Abi → List ℕ → Option ℕ → Option (List BlockLogs) → Tables → Option Snapshot
unfolding overlay_rows overlay_blocks get_finalized_clusters
build_head_state_snapshot c abi ids none logs t = none
build_head_state_snapshot c abi ids (some head) logs t =
    let (finalized, last_synced) = get_finalized_clusters ids t in
    let overlay = overlay_rows finalized [] in
    if leb head last_synced
    then some overlay
    else elim logs [ none ↦ none | some blocks ↦ overlay_blocks c abi ids blocks overlay ]
