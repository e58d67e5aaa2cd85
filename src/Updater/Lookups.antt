-- ===== src/Updater/Lookups.antt =====
-- updater/updater.go: storageLookup and overlayLookup, the lookups of the two passes. A database that
-- answers is modelled, so that no lookup is an error.
use ssv_oracle.Prelude.{ℕ, ◌<◌, ◌≡◌, refl, ap, ◌∙◌, true, Option, some, List, lookup}
use ssv_oracle.Merkle.Crypto.{Crypto}
use ssv_oracle.Storage.Clusters.{ClusterRow, Tables, get_cluster}
use ssv_oracle.Execution.Group.{BlockLogs}
use ssv_oracle.Syncer.Parser.{Abi}
use ssv_oracle.Syncer.State.{process_batch}
use ssv_oracle.Syncer.State.Invariant.{IsConsistent}
use ssv_oracle.Syncer.Overlay.{Snapshot, is_requested, build_head_state_snapshot}
use ssv_oracle.Syncer.Overlay.Refines.{build_head_state_snapshot-process_batch}

-- The row, or none for a cluster that is missing; the outer Option would be none for an error.
unfoldable pub storage_lookup : Tables → ℕ → Option (Option ClusterRow)
unfolding get_cluster
storage_lookup t id = some (get_cluster id t)

unfoldable pub overlay_lookup : Snapshot → ℕ → Option (Option ClusterRow)
overlay_lookup m id = some (lookup id m)

-- For the clusters that it was built for, the lookup of the second pass answers like that of the
-- first one over tables that are synced to the head.
pub overlay_lookup-storage_lookup :
    (c : Crypto) (abi : Abi) (ids : List ℕ) (head : ℕ) (blocks : List BlockLogs) (t : Tables)
    {k : ℕ}
    → IsConsistent t
    → t.last_synced < head
    → (process_batch c abi head blocks t).1 ≡ some k
    → (m : Snapshot) × (build_head_state_snapshot c abi ids (some head) (some blocks) t ≡ some m)
      × ((id : ℕ)
          → is_requested id ids ≡ true
          → overlay_lookup m id ≡ storage_lookup (process_batch c abi head blocks t).0 id)
unfolding overlay_lookup storage_lookup
overlay_lookup-storage_lookup c abi ids head blocks t w l h =
    let (m, e, rows) = build_head_state_snapshot-process_batch c abi ids head blocks t w l h in
    (m, e, λ id r. ap some (rows id ∙ rw r refl))
