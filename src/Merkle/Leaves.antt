-- ===== src/Merkle/Leaves.antt =====
-- Which leaf of a tree belongs to a cluster.
use ssv_oracle.Prelude.{
  ℕ, suc, ◌≡◌, refl, ap, ◌∙◌, inl, inr, Bool-cases, Option, none, some, List, [], ◌∷◌, ◌==◌,
  if◌then◌else◌, get_elem?, lookup, HasDistinctKeys, insert_sorted, sort, arith,
}
use ssv_oracle.Merkle.Crypto.{Crypto}
use ssv_oracle.Merkle.Tree.{Leaf, leaf_hash, make_leaf, make_leaves, find_leaf}

-- The first leaf of a cluster.
unfoldable pub leaf_of : ℕ → List Leaf → Option Leaf
leaf_of id [] = none
leaf_of id (leaf ∷ rest) = if leaf.cluster_id == id then some leaf else leaf_of id rest

-- findLeaf returns the position of that leaf.
pub find_leaf-leaf_of :
    (id : ℕ) (l : List Leaf) {x : Leaf}
    → leaf_of id l ≡ some x
    → (i : ℕ) × (find_leaf id l ≡ some i) × (get_elem? l i ≡ some x)
unfolding find_leaf leaf_of
find_leaf-leaf_of id [] h = absurd (ground arith)
find_leaf-leaf_of id (y ∷ l) h = elim (Bool-cases (y.cluster_id == id)) [
  | inl e ↦ (0, rw e, rw e at h)
  | inr e ↦ let (i, p, q) = find_leaf-leaf_of id l (rw e at h) in (suc i, rw (e, p) refl, q)
]

pub find_leaf-none : (id : ℕ) (l : List Leaf) → leaf_of id l ≡ none → find_leaf id l ≡ none
unfolding find_leaf leaf_of
find_leaf-none id [] h = refl
find_leaf-none id (y ∷ l) h = elim (Bool-cases (y.cluster_id == id)) [
  | inl e ↦ absurd (ground arith)
  | inr e ↦ rw (e, find_leaf-none id l (rw e at h)) refl
]

module _ (c : Crypto) where
  leaf_of-insert_sorted :
      (id : ℕ) (x : Leaf) (l : List Leaf)
      → leaf_of x.cluster_id l ≡ none
      → leaf_of id (insert_sorted (leaf_hash c) x l)
        ≡ (if x.cluster_id == id then some x else leaf_of id l)
  unfolding leaf_of insert_sorted
  leaf_of-insert_sorted id x [] h = refl
  leaf_of-insert_sorted id x (y ∷ l) h = ground (arith, leaf_of-insert_sorted id x l)

  unfoldable pub leaf_for : ℕ → Option ℕ → Option Leaf
  leaf_for id none = none
  leaf_for id (some balance) = some (make_leaf c (id, balance))

  -- The leaf of a cluster in the sorted leaves carries the balance that the map has for it.
  pub leaf_of-sort :
      (id : ℕ) (m : List (ℕ × ℕ))
      → HasDistinctKeys m
      → leaf_of id (sort (leaf_hash c) (make_leaves c m)) ≡ leaf_for id (lookup id m)
  unfolding leaf_of leaf_for lookup make_leaves sort
  leaf_of-sort id [] h = refl
  leaf_of-sort id ((k, v) ∷ m) h =
      leaf_of-insert_sorted id (make_leaf c (k, v)) (sort (leaf_hash c) (make_leaves c m))
        (leaf_of-sort k m h.1 ∙ ap (leaf_for k) h.0)
      ∙ ground (arith, leaf_of-sort id m h.1)
