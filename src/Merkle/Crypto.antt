-- ===== src/Merkle/Crypto.antt =====
-- What merkle/ takes from go-ethereum, and merkle/encoding.go.
use ssv_oracle.Prelude.{ℕ, zero, suc, ◌/◌, ◌%◌, ◌^◌, List, [], ◌∷◌}

-- crypto.Keccak256 on a byte slice, and leafABI.Pack of (bytes32, uint32).
pub record Crypto : Type 0 where
  pub keccak256 : List ℕ → ℕ
  pub pack_leaf : ℕ → ℕ → List ℕ

-- The `w` bytes of a fixed-width value, most significant first: `x[:]` of an array.
unfoldable pub be_bytes : ℕ → ℕ → List ℕ
be_bytes zero v = []
be_bytes (suc w) v = (v / 256 ^ w % 256) ∷ be_bytes w v

-- HashLeaf: keccak256(keccak256(abi.encode(clusterID, effectiveBalance))).
unfoldable pub hash_leaf : Crypto → ℕ → ℕ → ℕ
unfolding be_bytes
hash_leaf c cluster_id effective_balance =
    c.keccak256 (be_bytes 32 (c.keccak256 (c.pack_leaf cluster_id effective_balance)))
