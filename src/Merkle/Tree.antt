-- ===== src/Merkle/Tree.antt =====
-- merkle/tree.go.
use ssv_oracle.Prelude.{
  ℕ, zero, suc, ◌+◌, ◌-◌, ◌/◌, ◌%◌, Option, none, some, List, [], ◌∷◌, ◌++◌, map, ltb, ◌==◌,
  if◌then◌else◌, length, get_elem?, sort,
}
use ssv_oracle.Merkle.Crypto.{Crypto, be_bytes, hash_leaf}

pub record Leaf : Type 0 where
  pub cluster_id : ℕ
  pub effective_balance : ℕ  -- uint32
  pub hash : ℕ

pub record Tree : Type 0 where
  pub root : ℕ
  pub leaves : List Leaf
  pub layers : List (List ℕ)

pub data Error : Type 0 where
  cluster_not_found : Error
  -- an index out of range panics
  index_panic : Error

pub data Result (A : Type 0) : Type 0 where
  ok : A → Result A
  err : Error → Result A

-- hashPair: the smaller operand first.
unfoldable pub hash_pair : Crypto → ℕ → ℕ → ℕ
hash_pair c a b =
    if ltb b a
    then c.keccak256 (be_bytes 32 b ++ be_bytes 32 a)
    else c.keccak256 (be_bytes 32 a ++ be_bytes 32 b)

module _ (c : Crypto) where
  -- hashLevel: one round of the loop takes two hashes; a last one without a partner is paired
  -- with itself.
  unfoldable pub hash_level : List ℕ → List ℕ
  hash_level [] = []
  hash_level (left ∷ []) = hash_pair c left left ∷ []
  hash_level (left ∷ right ∷ rest) = hash_pair c left right ∷ hash_level rest

  -- The loop of buildLayers, `for len(hashes) > 1`; the fuel is the number of hashes.
  unfoldable pub build_from : ℕ → List ℕ → List (List ℕ)
  build_from zero hashes = hashes ∷ []
  build_from (suc fuel) hashes =
      let rest = build_from fuel (hash_level hashes) in
      if ltb 1 (length hashes) then hashes ∷ rest else hashes ∷ []

  abbrev pub leaf_hash : Leaf → ℕ
  leaf_hash leaf = leaf.hash

  unfoldable pub build_layers : List Leaf → List (List ℕ)
  build_layers leaves = build_from (length leaves) (map leaf_hash leaves)

  abbrev pub make_leaf : ℕ × ℕ → Leaf
  make_leaf (id, balance) = record {
    cluster_id = id;
    effective_balance = balance;
    hash = hash_leaf c id balance;
  }

  -- makeLeaves: the list is the order in which Go happens to range over the map.
  unfoldable pub make_leaves : List (ℕ × ℕ) → List Leaf
  make_leaves = map make_leaf

  -- layers[len(layers)-1][0]
  abbrev pub head_or : List ℕ → ℕ → ℕ
  head_or [] d = d
  head_or (x ∷ xs) d = x

  unfoldable pub last_root : List (List ℕ) → ℕ → ℕ
  last_root [] d = d
  last_root (l ∷ []) d = head_or l d
  last_root (l ∷ m ∷ ls) d = last_root (m ∷ ls) d

  abbrev pub finish_tree : List Leaf → Tree
  finish_tree [] = record { root = c.keccak256 []; leaves = []; layers = [] }
  finish_tree (leaf ∷ []) = record { root = leaf.hash; leaves = leaf ∷ []; layers = [] }
  finish_tree (l₁ ∷ l₂ ∷ rest) =
      let leaves : List Leaf = l₁ ∷ l₂ ∷ rest in
      let layers : List (List ℕ) = build_layers leaves in
      record { root = last_root layers 0; leaves = leaves; layers = layers }

  -- NewTree
  unfoldable pub new_tree : List (ℕ × ℕ) → Tree
  unfolding build_layers
  new_tree clusters = finish_tree (sort leaf_hash (make_leaves clusters))

-- InnerLayers: all layers but the leaves'.
unfoldable pub inner_layers : Tree → List (List ℕ)
inner_layers t = elim t.layers [ [] ↦ [] | l ∷ ls ↦ ls ]

-- findLeaf; `none` is the source's -1.
unfoldable pub find_leaf : ℕ → List Leaf → Option ℕ
find_leaf id [] = none
find_leaf id (leaf ∷ rest) =
    if leaf.cluster_id == id
    then some 0
    else elim (find_leaf id rest) [ none ↦ none | some i ↦ some (suc i) ]

unfoldable pub sibling : List ℕ → ℕ → Option ℕ
sibling hashes idx =
    if idx % 2 == 0
    then (if ltb (idx + 1) (length hashes)
        then get_elem? hashes (idx + 1)
        else get_elem? hashes idx)
    else get_elem? hashes (idx - 1)

-- The loop of GetProof over all layers but the last; `none` is an index panic.
unfoldable pub proof_from : List (List ℕ) → ℕ → Option (List ℕ)
unfolding sibling
proof_from [] idx = some []
proof_from (l ∷ []) idx = some []
proof_from (l ∷ m ∷ ls) idx = elim (sibling l idx) [
  | none ↦ none
  | some s ↦ elim (proof_from (m ∷ ls) (idx / 2)) [ none ↦ none | some p ↦ some (s ∷ p) ]
]

abbrev or_panic : Option (List ℕ) → Result (List ℕ)
or_panic none = err index_panic
or_panic (some p) = ok p

-- GetProof
unfoldable pub get_proof : Tree → ℕ → Result (List ℕ)
unfolding find_leaf proof_from
get_proof t id = elim (find_leaf id t.leaves) [
  | none ↦ err cluster_not_found
  | some idx ↦ or_panic (proof_from t.layers idx)
]
