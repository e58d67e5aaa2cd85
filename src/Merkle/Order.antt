-- ===== src/Merkle/Order.antt =====
-- For NewTree: the order in which Go ranges over the map of clusters.
use mathlib.Core.List.{Perm}
use mathlib.Core.List.Perm
use ssv_oracle.Prelude.{
  ℕ, ◌≡◌, refl, sym, ap, ◌∙◌, List, [], ◌∷◌, map, length, length-map, sort, sort_nat_perm, map-sort,
}
use ssv_oracle.Merkle.Crypto.{Crypto}
use ssv_oracle.Merkle.Tree.{
  Leaf, leaf_hash, make_leaves, build_from, build_layers, last_root, finish_tree, new_tree,
}

module _ (c : Crypto) where
  -- The layers and the root, from the hashes of the leaves.
  layers_of : List ℕ → List (List ℕ)
  layers_of [] = []
  layers_of (h ∷ []) = []
  layers_of (h ∷ k ∷ hs) = build_from c (length (h ∷ k ∷ hs)) (h ∷ k ∷ hs)

  root_of : List ℕ → ℕ
  root_of [] = c.keccak256 []
  root_of (h ∷ []) = h
  root_of (h ∷ k ∷ hs) = last_root c (build_from c (length (h ∷ k ∷ hs)) (h ∷ k ∷ hs)) 0

  finish_tree-layers : (l : List Leaf) → (finish_tree c l).layers ≡ layers_of (map (leaf_hash c) l)
  unfolding build_layers layers_of
  finish_tree-layers [] = refl
  finish_tree-layers (x ∷ []) = refl
  finish_tree-layers (x ∷ y ∷ l) = rw (length-map (leaf_hash c) l) refl

  finish_tree-root : (l : List Leaf) → (finish_tree c l).root ≡ root_of (map (leaf_hash c) l)
  unfolding build_layers root_of
  finish_tree-root [] = refl
  finish_tree-root (x ∷ []) = refl
  finish_tree-root (x ∷ y ∷ l) = rw (length-map (leaf_hash c) l) refl

  sorted_hashes_eq :
      {m n : List (ℕ × ℕ)}
      → Perm m n
      → map (leaf_hash c) (sort (leaf_hash c) (make_leaves c m))
        ≡ map (leaf_hash c) (sort (leaf_hash c) (make_leaves c n))
  unfolding make_leaves
  sorted_hashes_eq {m} {n} p =
      map-sort (leaf_hash c) (make_leaves c m)
      ∙ sort_nat_perm (Perm.map _ (Perm.map _ p))
      ∙ sym (map-sort (leaf_hash c) (make_leaves c n))

  -- Two listings of one map in different orders give trees with the same root and the same layers.
  pub new_tree_perm :
      {m n : List (ℕ × ℕ)}
      → Perm m n
      → ((new_tree c m).root ≡ (new_tree c n).root)
        × ((new_tree c m).layers ≡ (new_tree c n).layers)
  unfolding new_tree
  new_tree_perm {m} {n} p =
      let same = sorted_hashes_eq p in
      let l = sort (leaf_hash c) (make_leaves c m) in
      let k = sort (leaf_hash c) (make_leaves c n) in
      (
        finish_tree-root l ∙ ap root_of same ∙ sym (finish_tree-root k),
        finish_tree-layers l ∙ ap layers_of same ∙ sym (finish_tree-layers k),
      )
