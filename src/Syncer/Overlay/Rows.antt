-- ===== src/Syncer/Overlay/Rows.antt =====
-- For the finalized rows of a snapshot: getClusterRowsByIDs in batches.
use ssv_oracle.Prelude.{
  ℕ, ◌≡◌, refl, ap, ◌∙◌, Bool, true, Option, none, some, List, [], ◌∷◌, ◌++◌, ◌==◌, ==→≡, ◌||◌,
  if◌then◌else◌, lookup, insert, lookup-insert, HasDistinctKeys, length, flat, batches_from,
  flat-batches_from, Bool-cases, inl, inr, arith,
}
use ssv_oracle.Storage.Clusters.{
  ClusterRow, Tables, is_one_of, query_cluster_rows_batch, cluster_batch_size, query_batches,
  get_cluster_rows_by_ids,
}
use ssv_oracle.Syncer.State.Invariant.{IsConsistent}
use ssv_oracle.Syncer.Overlay.{Snapshot, is_requested, overlay_rows}

unfoldable pub or_else : {A : Type 0} → Option A → Option A → Option A
or_else none b = b
or_else (some a) b = some a

-- Each row of a table has its key as its identifier.
abbrev HasOwnKeys : List (ℕ × ClusterRow) → Type 0
HasOwnKeys [] = Unit
HasOwnKeys ((k, row) ∷ rest) = (row.cluster_id ≡ k) × HasOwnKeys rest

own_keys-HasOwnKeys :
    (m : List (ℕ × ClusterRow))
    → HasDistinctKeys m
    → ((id : ℕ) (row : ClusterRow) → lookup id m ≡ some row → row.cluster_id ≡ id)
    → HasOwnKeys m
unfolding lookup
own_keys-HasOwnKeys [] d h = tt
own_keys-HasOwnKeys ((k, row) ∷ rest) d h = (
  h k row (ground arith),
  own_keys-HasOwnKeys rest d.1 (λ id r e. h id r (ground (arith, d.0, e))),
)

same_one_of : (i j : ℕ) (ids : List ℕ) → (i == j) ≡ true → is_one_of i ids ≡ is_one_of j ids
same_one_of i j ids e = ap (λ k. is_one_of k ids) (==→≡ i j e)

lookup-one_batch :
    (ids : List ℕ) (rows : List (ℕ × ClusterRow)) (m : Snapshot) (j : ℕ)
    → HasDistinctKeys rows
    → HasOwnKeys rows
    → lookup j (overlay_rows (query_cluster_rows_batch ids rows) m)
      ≡ (if is_one_of j ids then or_else (lookup j rows) (lookup j m) else lookup j m)
unfolding overlay_rows query_cluster_rows_batch lookup or_else
lookup-one_batch ids [] m j d o = ground arith
lookup-one_batch ids ((k, row) ∷ rest) m j d o = elim (Bool-cases (is_one_of k ids)) [
  | inl y ↦
      let later = lookup-one_batch ids rest (insert row.cluster_id row m) j d.1 o.1 in
      let put = lookup-insert row.cluster_id j row m in
      let same = same_one_of k j ids in
      let free : (k == j) ≡ true → lookup k rest ≡ lookup j rest =
        λ e. ap (λ i. lookup i rest) (==→≡ k j e) in
      rw y (later ∙ ground (arith, put, o.0, d.0, same, free, y))
  | inr n ↦
      let later = lookup-one_batch ids rest m j d.1 o.1 in
      let same = same_one_of k j ids in rw n (later ∙ ground (arith, same, n))
]

overlay_rows-append :
    (xs ys : List ClusterRow) (m : Snapshot)
    → overlay_rows (xs ++ ys) m ≡ overlay_rows ys (overlay_rows xs m)
unfolding overlay_rows
overlay_rows-append [] ys m = refl
overlay_rows-append (x ∷ xs) ys m = overlay_rows-append xs ys (insert x.cluster_id x m)

is_one_of-append :
    (j : ℕ) (xs ys : List ℕ) → is_one_of j (xs ++ ys) ≡ (is_one_of j xs || is_one_of j ys)
unfolding is_one_of
is_one_of-append j [] ys = refl
is_one_of-append j (x ∷ xs) ys = ground (arith, is_one_of-append j xs ys)

lookup-query_batches :
    (bs : List (List ℕ)) (rows : List (ℕ × ClusterRow)) (m : Snapshot) (j : ℕ)
    → HasDistinctKeys rows
    → HasOwnKeys rows
    → lookup j (overlay_rows (query_batches bs rows) m)
      ≡ (if is_one_of j (flat bs) then or_else (lookup j rows) (lookup j m) else lookup j m)
unfolding query_batches overlay_rows is_one_of or_else
lookup-query_batches [] rows m j d o = refl
lookup-query_batches (ids ∷ rest) rows m j d o =
    let first = query_cluster_rows_batch ids rows in
    ap (lookup j) (overlay_rows-append first (query_batches rest rows) m)
    ∙ lookup-query_batches rest rows (overlay_rows first m) j d o
    ∙ ground (arith, lookup-one_batch ids rows m j d o, is_one_of-append j ids (flat rest))

is_one_of-is_requested : (j : ℕ) (ids : List ℕ) → is_one_of j ids ≡ is_requested j ids
unfolding is_one_of is_requested
is_one_of-is_requested j [] = refl
is_one_of-is_requested j (i ∷ ids) = ground (arith, is_one_of-is_requested j ids)

-- The finalized rows in front of what a map has already.
pub lookup-overlay_rows :
    (ids : List ℕ) (t : Tables) (m : Snapshot) (j : ℕ)
    → IsConsistent t
    → lookup j (overlay_rows (get_cluster_rows_by_ids ids t) m)
      ≡ (if is_requested j ids then or_else (lookup j t.clusters) (lookup j m) else lookup j m)
unfolding get_cluster_rows_by_ids
lookup-overlay_rows ids t m j w =
    let bs = batches_from cluster_batch_size (length ids) 0 ids in
    let whole : flat bs ≡ ids =
      flat-batches_from cluster_batch_size (length ids) 0 ids (omega arith) (omega arith) in
    let own = own_keys-HasOwnKeys t.clusters w.distinct_clusters (λ id row e. w.own_keys id e) in
    lookup-query_batches bs t.clusters m j w.distinct_clusters own
    ∙ ap (λ (b : Bool). if b then or_else (lookup j t.clusters) (lookup j m) else lookup j m)
        (ap (is_one_of j) whole ∙ is_one_of-is_requested j ids)
