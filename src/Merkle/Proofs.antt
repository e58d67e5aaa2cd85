-- ===== src/Merkle/Proofs.antt =====
-- NewTree and GetProof together: the proofs that a tree hands out.
use ssv_oracle.Prelude.{
  ℕ, ◌≡◌, refl, sym, ap, ◌∙◌, none, some, List, [], ◌∷◌, map, length, length-map, get_elem?-map,
  lookup, HasDistinctKeys, sort, arith,
}
use ssv_oracle.Merkle.Crypto.{Crypto, hash_leaf}
use ssv_oracle.Merkle.Tree.{
  Leaf, Tree, ok, err, cluster_not_found, leaf_hash, make_leaf, make_leaves, build_layers,
  finish_tree, new_tree, find_leaf, proof_from, get_proof,
}
use ssv_oracle.Merkle.Layers.{process_proof, proof_from-build_from}
use ssv_oracle.Merkle.Leaves.{leaf_of, find_leaf-leaf_of, find_leaf-none, leaf_for, leaf_of-sort}

get_proof_found :
    (t : Tree) (id i : ℕ) {p : List ℕ}
    → find_leaf id t.leaves ≡ some i
    → proof_from t.layers i ≡ some p
    → get_proof t id ≡ ok p
unfolding get_proof
get_proof_found t id i h k = ground arith

get_proof_missing :
    (t : Tree) (id : ℕ) → find_leaf id t.leaves ≡ none → get_proof t id ≡ err cluster_not_found
unfolding get_proof
get_proof_missing t id h = ground arith

module _ (c : Crypto) where
  finish_tree-get_proof :
      (leaves : List Leaf) (id : ℕ) (x : Leaf)
      → leaf_of id leaves ≡ some x
      → (p : List ℕ) × (get_proof (finish_tree c leaves) id ≡ ok p)
        × (process_proof c x.hash p ≡ (finish_tree c leaves).root)
  unfolding get_proof leaf_of process_proof build_layers
  finish_tree-get_proof [] id x h = absurd (ground arith)
  finish_tree-get_proof (l ∷ []) id x h = ([], ground arith, ground arith)
  finish_tree-get_proof (l ∷ m ∷ rest) id x h =
      let leaves : List Leaf = l ∷ m ∷ rest in
      let (i, p, q) = find_leaf-leaf_of id leaves h in
      let (proof, r, t) =
        proof_from-build_from c (length leaves) (map (leaf_hash c) leaves) i x.hash
          (omega (arith, length-map (leaf_hash c) leaves))
          (get_elem?-map (leaf_hash c) leaves i q) in
      (proof, get_proof_found (finish_tree c leaves) id i p r, sym t)

  pub leaves-finish_tree : (leaves : List Leaf) → (finish_tree c leaves).leaves ≡ leaves
  leaves-finish_tree [] = refl
  leaves-finish_tree (l ∷ []) = refl
  leaves-finish_tree (l ∷ m ∷ rest) = refl

  -- For each cluster of the map, GetProof succeeds, and hashing its proof onto the leaf of that
  -- cluster and balance gives the tree's root. No two entries of the map have one key.
  pub new_tree-get_proof :
      (m : List (ℕ × ℕ)) (id balance : ℕ)
      → HasDistinctKeys m
      → lookup id m ≡ some balance
      → (p : List ℕ) × (get_proof (new_tree c m) id ≡ ok p)
        × (process_proof c (hash_leaf c id balance) p ≡ (new_tree c m).root)
  unfolding new_tree leaf_for
  new_tree-get_proof m id balance d h =
      finish_tree-get_proof (sort (leaf_hash c) (make_leaves c m)) id (make_leaf c (id, balance))
        (leaf_of-sort c id m d ∙ ap (leaf_for c id) h)

  -- For a cluster that the map does not hold GetProof returns the error "not found".
  pub new_tree-get_proof_missing :
      (m : List (ℕ × ℕ)) (id : ℕ)
      → HasDistinctKeys m
      → lookup id m ≡ none
      → get_proof (new_tree c m) id ≡ err cluster_not_found
  unfolding new_tree leaf_for
  new_tree-get_proof_missing m id d h =
      let leaves : List Leaf = sort (leaf_hash c) (make_leaves c m) in
      get_proof_missing (finish_tree c leaves) id (
        ap (find_leaf id) (leaves-finish_tree leaves)
        ∙ find_leaf-none id leaves (leaf_of-sort c id m d ∙ ap (leaf_for c id) h))
