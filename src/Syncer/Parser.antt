-- ===== src/Syncer/Parser.antt =====
-- eth/syncer/parser.go and topics.go. The ABI decoder of go-ethereum is a parameter: one function for
-- each event, which returns the non-indexed arguments or fails.
use ssv_oracle.Prelude.{
  ℕ, ◌%◌, ◌^◌, Option, none, some, List, [], ◌∷◌, ◌++◌, ◌==◌, if◌then◌else◌, u64, Text, text,
}
use ssv_oracle.Merkle.Crypto.{Crypto, be_bytes}
use ssv_oracle.Storage.Clusters.{Bytes}
use ssv_oracle.Execution.Group.{Log}
use ssv_oracle.Tx.Errors.{hex}
use ssv_oracle.Syncer.Events.{
  Cluster, Event, validator_added, validator_removed, cluster_liquidated, cluster_reactivated,
  cluster_withdrawn, cluster_deposited, cluster_migrated, cluster_balance_updated,
}

-- UnpackIntoInterface, for each event.
pub record Abi : Type 0 where
  pub unpack_validator_added : List ℕ → Option (List ℕ × Bytes × Bytes × Cluster)
  pub unpack_validator_removed : List ℕ → Option (List ℕ × Bytes × Cluster)
  pub unpack_cluster_liquidated : List ℕ → Option (List ℕ × Cluster)
  pub unpack_cluster_reactivated : List ℕ → Option (List ℕ × Cluster)
  pub unpack_cluster_withdrawn : List ℕ → Option (List ℕ × ℕ × Cluster)
  pub unpack_cluster_deposited : List ℕ → Option (List ℕ × ℕ × Cluster)
  pub unpack_cluster_migrated : List ℕ → Option (List ℕ × ℕ × ℕ × ℕ × Cluster)
  pub unpack_cluster_balance_updated : List ℕ → Option (List ℕ × ℕ × Cluster)

pub data EventKind : Type 0 where
  added removed liquidated reactivated withdrawn deposited migrated balance_updated : EventKind

abbrev cluster_type : Text
cluster_type = text "(uint32,uint64,uint64,bool,uint256))"

unfoldable pub signature_of : EventKind → Text
signature_of added = text "ValidatorAdded(address,uint64[],bytes,bytes," ++ cluster_type
signature_of removed = text "ValidatorRemoved(address,uint64[],bytes," ++ cluster_type
signature_of liquidated = text "ClusterLiquidated(address,uint64[]," ++ cluster_type
signature_of reactivated = text "ClusterReactivated(address,uint64[]," ++ cluster_type
signature_of withdrawn = text "ClusterWithdrawn(address,uint64[],uint256," ++ cluster_type
signature_of deposited = text "ClusterDeposited(address,uint64[],uint256," ++ cluster_type
signature_of migrated =
    text "ClusterMigratedToETH(address,uint64[],uint256,uint256,uint32," ++ cluster_type
signature_of balance_updated =
    text "ClusterBalanceUpdated(address,uint64[],uint64,uint32," ++ cluster_type

abbrev pub event_name : EventKind → Text
event_name added = text "ValidatorAdded"
event_name removed = text "ValidatorRemoved"
event_name liquidated = text "ClusterLiquidated"
event_name reactivated = text "ClusterReactivated"
event_name withdrawn = text "ClusterWithdrawn"
event_name deposited = text "ClusterDeposited"
event_name migrated = text "ClusterMigratedToETH"
event_name balance_updated = text "ClusterBalanceUpdated"

abbrev pub all_kinds : List EventKind
all_kinds =
    added ∷ removed ∷ liquidated ∷ reactivated ∷ withdrawn ∷ deposited ∷ migrated ∷ balance_updated
    ∷ []

-- The switch of parseLog on the first topic: the first kind with that signature.
unfoldable pub find_kind : Crypto → ℕ → List EventKind → Option EventKind
unfolding signature_of
find_kind c topic [] = none
find_kind c topic (k ∷ ks) =
    if topic == c.keccak256 (signature_of k) then some k else find_kind c topic ks

-- common.BytesToAddress
abbrev to_address : ℕ → ℕ
to_address topic = topic % 256 ^ 20

-- The parser of each event, on the topics behind the first: an owner, for ClusterBalanceUpdated a
-- block number as well, and the unpacked data.
unfoldable pub parse_event : Abi → EventKind → List ℕ → List ℕ → Option Event
parse_event abi kind [] payload = none
parse_event abi added (o ∷ more) payload = elim (abi.unpack_validator_added payload) [
  | none ↦ none
  | some (ops, k, s, c) ↦ some (validator_added (to_address o) ops k s c)
]
parse_event abi removed (o ∷ more) payload = elim (abi.unpack_validator_removed payload) [
  | none ↦ none
  | some (ops, k, c) ↦ some (validator_removed (to_address o) ops k c)
]
parse_event abi liquidated (o ∷ more) payload = elim (abi.unpack_cluster_liquidated payload) [
  | none ↦ none
  | some (ops, c) ↦ some (cluster_liquidated (to_address o) ops c)
]
parse_event abi reactivated (o ∷ more) payload = elim (abi.unpack_cluster_reactivated payload) [
  | none ↦ none
  | some (ops, c) ↦ some (cluster_reactivated (to_address o) ops c)
]
parse_event abi withdrawn (o ∷ more) payload = elim (abi.unpack_cluster_withdrawn payload) [
  | none ↦ none
  | some (ops, v, c) ↦ some (cluster_withdrawn (to_address o) ops v c)
]
parse_event abi deposited (o ∷ more) payload = elim (abi.unpack_cluster_deposited payload) [
  | none ↦ none
  | some (ops, v, c) ↦ some (cluster_deposited (to_address o) ops v c)
]
parse_event abi migrated (o ∷ more) payload = elim (abi.unpack_cluster_migrated payload) [
  | none ↦ none
  | some (ops, e, s, b, c) ↦ some (cluster_migrated (to_address o) ops e s b c)
]
parse_event abi balance_updated (o ∷ []) payload = none
parse_event abi balance_updated (o ∷ n ∷ more) payload =
    elim (abi.unpack_cluster_balance_updated payload) [
      | none ↦ none
      | some (ops, b, c) ↦ some (cluster_balance_updated (to_address o) ops (u64 n) b c)
    ]

-- What parseLog returns: an event with its name, errUnknownEvent with its message, or another error.
pub data Parsed : Type 0 where
  parsed : Text → Event → Parsed
  unknown_event : Text → Parsed
  malformed : Parsed

abbrev unknown_message : ℕ → Text
unknown_message topic = text "unknown event signature: 0x" ++ hex (be_bytes 32 topic)

abbrev parsed_or_malformed : EventKind → Option Event → Parsed
parsed_or_malformed k none = malformed
parsed_or_malformed k (some e) = parsed (event_name k) e

unfoldable pub parse_topics : Crypto → Abi → List ℕ → List ℕ → Parsed
unfolding find_kind parse_event
parse_topics c abi [] payload = malformed
parse_topics c abi (topic ∷ more) payload = elim (find_kind c topic all_kinds) [
  | none ↦ unknown_event (unknown_message topic)
  | some k ↦ parsed_or_malformed k (parse_event abi k more payload)
]

-- parseLog
unfoldable pub parse_log : Crypto → Abi → Log → Parsed
unfolding parse_topics
parse_log c abi log = parse_topics c abi log.topics log.payload
