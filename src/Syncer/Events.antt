-- ===== src/Syncer/Events.antt =====
-- eth/syncer/types.go: the events and the identifier of a cluster.
pub mod Identity
use ssv_oracle.Prelude.{ℕ, Bool, List, [], ◌∷◌, ◌++◌, sort_nat}
use ssv_oracle.Merkle.Crypto.{Crypto, be_bytes}
use ssv_oracle.Storage.Clusters.{Bytes}

-- The struct `cluster`.
pub record Cluster : Type 0 where
  pub validator_count : ℕ
  pub network_fee_index : ℕ
  pub index : ℕ
  pub active : Bool
  pub balance : ℕ

-- The eight event structs; the arguments are their fields in order.
pub data Event : Type 0 where
  validator_added : ℕ → List ℕ → Bytes → Bytes → Cluster → Event
  validator_removed : ℕ → List ℕ → Bytes → Cluster → Event
  cluster_liquidated : ℕ → List ℕ → Cluster → Event
  cluster_reactivated : ℕ → List ℕ → Cluster → Event
  cluster_withdrawn : ℕ → List ℕ → ℕ → Cluster → Event
  cluster_deposited : ℕ → List ℕ → ℕ → Cluster → Event
  cluster_migrated : ℕ → List ℕ → ℕ → ℕ → ℕ → Cluster → Event
  cluster_balance_updated : ℕ → List ℕ → ℕ → ℕ → Cluster → Event

-- clusterKey: the owner and the operators.
unfoldable pub event_owner : Event → ℕ
event_owner (validator_added o ops k s c) = o
event_owner (validator_removed o ops k c) = o
event_owner (cluster_liquidated o ops c) = o
event_owner (cluster_reactivated o ops c) = o
event_owner (cluster_withdrawn o ops v c) = o
event_owner (cluster_deposited o ops v c) = o
event_owner (cluster_migrated o ops e s b c) = o
event_owner (cluster_balance_updated o ops n b c) = o

unfoldable pub event_operators : Event → List ℕ
event_operators (validator_added o ops k s c) = ops
event_operators (validator_removed o ops k c) = ops
event_operators (cluster_liquidated o ops c) = ops
event_operators (cluster_reactivated o ops c) = ops
event_operators (cluster_withdrawn o ops v c) = ops
event_operators (cluster_deposited o ops v c) = ops
event_operators (cluster_migrated o ops e s b c) = ops
event_operators (cluster_balance_updated o ops n b c) = ops

unfoldable pub event_cluster : Event → Cluster
event_cluster (validator_added o ops k s c) = c
event_cluster (validator_removed o ops k c) = c
event_cluster (cluster_liquidated o ops c) = c
event_cluster (cluster_reactivated o ops c) = c
event_cluster (cluster_withdrawn o ops v c) = c
event_cluster (cluster_deposited o ops v c) = c
event_cluster (cluster_migrated o ops e s b c) = c
event_cluster (cluster_balance_updated o ops n b c) = c

-- The 32-byte words of the operator identifiers.
unfoldable pub id_words : List ℕ → List ℕ
unfolding be_bytes
id_words [] = []
id_words (id ∷ ids) = be_bytes 32 id ++ id_words ids

-- computeClusterID: keccak256 of the owner and the ascending operator identifiers.
unfoldable pub compute_cluster_id : Crypto → ℕ → List ℕ → ℕ
unfolding be_bytes id_words
compute_cluster_id c owner ids = c.keccak256 (be_bytes 20 owner ++ id_words (sort_nat ids))

-- computeClusterIDFromEvent; every event is a clusterEvent.
unfoldable pub compute_cluster_id_from_event : Crypto → Event → ℕ
unfolding compute_cluster_id event_owner event_operators
compute_cluster_id_from_event c e = compute_cluster_id c (event_owner e) (event_operators e)
