-- ===== src/Oracle/Balances/Totals.antt =====
-- The effective balance of each cluster, and the tree over them.
use ssv_oracle.Prelude.{
  ℕ, ◌+◌, ◌*◌, ◌/◌, ◌≡◌, refl, ap, sym, ◌∙◌, Option, none, some, List, [], ◌∷◌, map, ◌==◌, ==→≡,
  leb, if◌then◌else◌, lookup, insert, lookup-insert, HasDistinctKeys, insert-HasDistinctKeys, u64,
  u32, Bool-cases, inl, inr, arith, tests,
}
use ssv_oracle.Merkle.Crypto.{Crypto, hash_leaf}
use ssv_oracle.Merkle.Tree.{get_proof, ok}
use ssv_oracle.Merkle.Layers.{process_proof}
use ssv_oracle.Merkle.Proofs.{new_tree-get_proof}
use ssv_oracle.Storage.Commits.{ClusterBalance}
use ssv_oracle.Storage.Clusters.{Validator}
use ssv_oracle.Oracle.Balances.{
  gwei_per_eth, or_zero, counted, totals_from, balance_entry, aggregate_by_cluster, cluster_map,
  build_tree,
}

-- What a validator counts for in Gwei: its balance, at least 32 ETH; 32 ETH where the beacon node has
-- none for it.
unfoldable pub floored : Option ℕ → ℕ
floored none = 32 * gwei_per_eth
floored (some gwei) = if leb (32 * gwei_per_eth) gwei then gwei else 32 * gwei_per_eth

-- The sum over a cluster's validators, or none for a cluster without any.
unfoldable pub sum_of : List (ℕ × ℕ) → ℕ → List Validator → Option ℕ
unfolding floored
sum_of balances id [] = none
sum_of balances id (v ∷ rest) =
    let others = sum_of balances id rest in
    if v.validator_cluster == id
    then some (floored (lookup v.validator_pubkey.value balances) + or_zero others)
    else others

-- The same sum of what the code counts.
unfoldable sum_counted : List (ℕ × ℕ) → ℕ → List Validator → Option ℕ
sum_counted balances id [] = none
sum_counted balances id (v ∷ rest) =
    let others = sum_counted balances id rest in
    if v.validator_cluster == id then some (counted balances v + or_zero others) else others

counted-floored :
    (balances : List (ℕ × ℕ)) (v : Validator)
    → counted balances v ≡ floored (lookup v.validator_pubkey.value balances)
unfolding counted floored
counted-floored balances v = grind (arith, tests)

sum_counted-sum_of :
    (balances : List (ℕ × ℕ)) (id : ℕ) (vs : List Validator)
    → sum_counted balances id vs ≡ sum_of balances id vs
unfolding sum_counted sum_of
sum_counted-sum_of balances id [] = refl
sum_counted-sum_of balances id (v ∷ rest) =
    rw (counted-floored balances v, sum_counted-sum_of balances id rest) refl

abbrev pub in_eth : Option ℕ → Option ℕ
in_eth none = none
in_eth (some gwei) = some (u32 (u64 gwei / gwei_per_eth))

unfoldable with_total : Option ℕ → Option ℕ → Option ℕ
with_total old none = old
with_total old (some n) = some (u64 (or_zero old + n))

u64_add : (a b c : ℕ) → u64 (u64 (a + b) + c) ≡ u64 (a + (b + c))
u64_add a b c = omega arith

with_total-step :
    (old : Option ℕ) (b : ℕ) (o : Option ℕ)
    → with_total (some (u64 (or_zero old + b))) o ≡ with_total old (some (b + or_zero o))
unfolding with_total
with_total-step old b none = ap some (omega arith)
with_total-step old b (some n) = ap some (u64_add (or_zero old) b n)

lookup-totals_from :
    (balances : List (ℕ × ℕ)) (vs : List Validator) (m : List (ℕ × ℕ)) (id : ℕ)
    → lookup id (totals_from balances vs m) ≡ with_total (lookup id m) (sum_counted balances id vs)
unfolding totals_from sum_counted with_total
lookup-totals_from balances [] m id = refl
lookup-totals_from balances (v ∷ rest) m id =
    let k = v.validator_cluster in
    let n = u64 (or_zero (lookup k m) + counted balances v) in
    let rest_eq = lookup-totals_from balances rest (insert k n m) id in
    let put = lookup-insert k id n m in
    elim (Bool-cases (k == id)) [
      | inl y ↦
          let e = ==→≡ k id y in
          let old : or_zero (lookup k m) ≡ or_zero (lookup id m) =
            ap (λ x. or_zero (lookup x m)) e in
          let step =
            with_total-step (lookup id m) (counted balances v) (sum_counted balances id rest) in
          let new : lookup id (insert k n m)
              ≡ some (u64 (or_zero (lookup id m) + counted balances v)) =
            put ∙ rw (y, old) in
          rest_eq ∙ ap (λ o. with_total o (sum_counted balances id rest)) new ∙ step ∙ rw y
      | inr y ↦
          let new : lookup id (insert k n m) ≡ lookup id m = put ∙ rw y in
          rest_eq ∙ ap (λ o. with_total o (sum_counted balances id rest)) new ∙ rw y
    ]

totals_from-HasDistinctKeys :
    (balances : List (ℕ × ℕ)) (vs : List Validator) (m : List (ℕ × ℕ))
    → HasDistinctKeys m
    → HasDistinctKeys (totals_from balances vs m)
unfolding totals_from
totals_from-HasDistinctKeys balances [] m h = h
totals_from-HasDistinctKeys balances (v ∷ rest) m h =
    totals_from-HasDistinctKeys balances rest _ (insert-HasDistinctKeys v.validator_cluster _ m h)

pub cluster_map-HasDistinctKeys :
    (bs : List ClusterBalance) (m : List (ℕ × ℕ))
    → HasDistinctKeys m
    → HasDistinctKeys (cluster_map bs m)
unfolding cluster_map
cluster_map-HasDistinctKeys [] m h = h
cluster_map-HasDistinctKeys (b ∷ rest) m h =
    cluster_map-HasDistinctKeys rest _ (insert-HasDistinctKeys b.cluster_id b.effective_balance m h)

-- The map of buildTree has the entries of the aggregated totals.
in_eth_of : Option ℕ → Option ℕ → Option ℕ
in_eth_of old none = old
in_eth_of old (some gwei) = some (u32 (gwei / gwei_per_eth))

lookup_nil : (id : ℕ) → lookup {V = ℕ} id [] ≡ none
unfolding lookup
lookup_nil id = refl

lookup_cons :
    (id k n : ℕ) (ts : List (ℕ × ℕ))
    → lookup id ((k, n) ∷ ts) ≡ (if k == id then some n else lookup id ts)
unfolding lookup
lookup_cons id k n ts = refl

lookup-cluster_map :
    (ts : List (ℕ × ℕ)) (m : List (ℕ × ℕ)) (id : ℕ)
    → HasDistinctKeys ts
    → lookup id (cluster_map (map balance_entry ts) m) ≡ in_eth_of (lookup id m) (lookup id ts)
unfolding cluster_map in_eth_of
lookup-cluster_map [] m id h = sym (ap (in_eth_of (lookup id m)) (lookup_nil id))
lookup-cluster_map ((k, gwei) ∷ ts) m id h =
    let b = u32 (gwei / gwei_per_eth) in
    let later = lookup-cluster_map ts (insert k b m) id h.1 in
    let put = lookup-insert k id b m in
    elim (Bool-cases (k == id)) [
      | inl y ↦
          let none_later : lookup id ts ≡ none = ap (λ x. lookup x ts) (sym (==→≡ k id y)) ∙ h.0 in
          let here : lookup id (insert k b m) ≡ some b = put ∙ rw y in
          let whole : lookup id ((k, gwei) ∷ ts) ≡ some gwei = lookup_cons id k gwei ts ∙ rw y in
          later
          ∙ ap (in_eth_of (lookup id (insert k b m))) none_later
          ∙ here
          ∙ sym (ap (in_eth_of (lookup id m)) whole)
      | inr y ↦
          let here : lookup id (insert k b m) ≡ lookup id m = put ∙ rw y in
          let whole : lookup id ((k, gwei) ∷ ts) ≡ lookup id ts = lookup_cons id k gwei ts ∙ rw y in
          later
          ∙ ap (λ o. in_eth_of o (lookup id ts)) here
          ∙ sym (ap (in_eth_of (lookup id m)) whole)
    ]

-- The leaf of a cluster in the tree that the oracle commits: the sum over its validators of their
-- balances, each counted as 32 ETH where it is lower or the beacon node has none, as a uint64 of Gwei,
-- in whole ETH as a uint32. GetProof succeeds
-- for it, and the proof hashes that leaf up to the committed root.
pub build_tree-aggregate_by_cluster :
    (c : Crypto) (vs : List Validator) (balances : List (ℕ × ℕ)) (id : ℕ) {sum : ℕ}
    → sum_of balances id vs ≡ some sum
    → (p : List ℕ) × (get_proof (build_tree c (aggregate_by_cluster vs balances)) id ≡ ok p)
      × (process_proof c (hash_leaf c id (u32 (u64 sum / gwei_per_eth))) p
          ≡ (build_tree c (aggregate_by_cluster vs balances)).root)
unfolding build_tree aggregate_by_cluster in_eth_of with_total
build_tree-aggregate_by_cluster c vs balances id {sum} h =
    let totals = totals_from balances vs [] in
    let zero_sum : 0 + sum ≡ sum = omega arith in
    new_tree-get_proof c (cluster_map (map balance_entry totals) []) id
      (u32 (u64 sum / gwei_per_eth)) (cluster_map-HasDistinctKeys (map balance_entry totals) [] tt)
      (lookup-cluster_map totals [] id (totals_from-HasDistinctKeys balances vs [] tt)
        ∙ ap (λ o. in_eth_of o (lookup id totals)) (lookup_nil id)
        ∙ ap (in_eth_of none) (
            lookup-totals_from balances vs [] id
            ∙ ap (λ o. with_total o (sum_counted balances id vs)) (lookup_nil id)
            ∙ ap (with_total none) (sum_counted-sum_of balances id vs ∙ h))
        ∙ ap (λ n. some (u32 (u64 n / gwei_per_eth))) zero_sum)
