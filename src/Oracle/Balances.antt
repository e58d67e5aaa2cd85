-- ===== src/Oracle/Balances.antt =====
-- oracle/oracle.go: deduplicatePubkeys, aggregateByCluster and buildTree.
pub mod Seen
pub mod Totals
use ssv_oracle.Prelude.{
  ℕ, ◌+◌, ◌/◌, ◌%◌, Bool, true, false, Option, none, some, List, [], ◌∷◌, map, ltb, ◌==◌,
  if◌then◌else◌, lookup, insert, u64, u32,
}
use ssv_oracle.Merkle.Crypto.{Crypto}
use ssv_oracle.Merkle.Tree.{Tree, new_tree}
use ssv_oracle.Storage.Commits.{ClusterBalance}
use ssv_oracle.Storage.Clusters.{Bytes, Validator}

abbrev pub gwei_per_eth : ℕ
gwei_per_eth = 1000000000

abbrev pub balance_floor : ℕ
balance_floor = 32000000000

-- The map `seen`: the keys are 48 bytes long, which InsertValidator checks.
unfoldable pub is_seen : ℕ → List ℕ → Bool
is_seen k [] = false
is_seen k (j ∷ seen) = if j == k then true else is_seen k seen

-- deduplicatePubkeys, behind the keys seen so far.
unfoldable pub deduplicate_from : List ℕ → List Validator → List Bytes
unfolding is_seen
deduplicate_from seen [] = []
deduplicate_from seen (v ∷ rest) =
    let k = v.validator_pubkey.value in
    let skipped = deduplicate_from seen rest in
    let added = deduplicate_from (k ∷ seen) rest in
    if is_seen k seen then skipped else v.validator_pubkey ∷ added

unfoldable pub deduplicate_pubkeys : List Validator → List Bytes
unfolding deduplicate_from
deduplicate_pubkeys = deduplicate_from []

-- A map's value where the key is missing: zero.
abbrev pub or_zero : Option ℕ → ℕ
or_zero none = 0
or_zero (some n) = n

-- The balance that counts for a validator, in Gwei.
unfoldable pub counted : List (ℕ × ℕ) → Validator → ℕ
counted balances v =
    let balance = or_zero (lookup v.validator_pubkey.value balances) in
    if ltb balance balance_floor then balance_floor else balance

-- The loop of aggregateByCluster over the validators; Gwei is a uint64.
unfoldable pub totals_from : List (ℕ × ℕ) → List Validator → List (ℕ × ℕ) → List (ℕ × ℕ)
unfolding counted
totals_from balances [] totals = totals
totals_from balances (v ∷ rest) totals =
    let id = v.validator_cluster in
    totals_from balances rest
      (insert id (u64 (or_zero (lookup id totals) + counted balances v)) totals)

abbrev pub balance_entry : ℕ × ℕ → ClusterBalance
balance_entry (id, gwei) = record { cluster_id = id; effective_balance = u32 (gwei / gwei_per_eth) }

-- aggregateByCluster; the order of the result, in Go any order of the map, is that of the list.
unfoldable pub aggregate_by_cluster : List Validator → List (ℕ × ℕ) → List ClusterBalance
unfolding totals_from
aggregate_by_cluster validators balances = map balance_entry (totals_from balances validators [])

unfoldable pub not_on_beacon : List Validator → List (ℕ × ℕ) → ℕ
not_on_beacon [] balances = 0
not_on_beacon (v ∷ rest) balances =
    let n = not_on_beacon rest balances in
    elim (lookup v.validator_pubkey.value balances) [ none ↦ n + 1 | some b ↦ n ]

-- The loop of buildTree, and buildTree. The updater has a copy of this function.
unfoldable pub cluster_map : List ClusterBalance → List (ℕ × ℕ) → List (ℕ × ℕ)
cluster_map [] m = m
cluster_map (b ∷ rest) m = cluster_map rest (insert b.cluster_id b.effective_balance m)

unfoldable pub build_tree : Crypto → List ClusterBalance → Tree
unfolding cluster_map new_tree
build_tree c balances = new_tree c (cluster_map balances [])
