-- ===== src/Api/Proof.antt =====
-- handleGetProof of api/handlers.go; buildTree of api/api.go is a copy of the oracle's.
pub mod Served
use ssv_oracle.Prelude.{
  ℕ, Bool, true, false, Option, none, some, List, [], ◌∷◌, map, ◌==◌, if◌then◌else◌, Text, text,
}
use ssv_oracle.Merkle.Crypto.{Crypto}
use ssv_oracle.Merkle.Tree.{
  Leaf, Tree, Result, Error, ok, err, cluster_not_found, index_panic, get_proof,
}
use ssv_oracle.Storage.Commits.{OracleCommit}
use ssv_oracle.Oracle.Balances.{build_tree}
use ssv_oracle.Api.{
  Request, ApiStorage, Response, success, failure, Resolved, resolved, unresolved, internal_error,
  resolve_commit, resolve_failure,
}
use ssv_oracle.Api.Hex.{to_hex32, parse_cluster_id}

-- ProofResponse
pub record ProofResponse : Type 0 where
  pub proof_cluster : Text
  pub effective_balance : ℕ  -- uint32
  pub proof : List Text
  pub proof_root : Text
  pub proof_block : ℕ

-- The loop over the leaves for the cluster's balance.
unfoldable pub leaf_balance : ℕ → List Leaf → ℕ
leaf_balance id [] = 0
leaf_balance id (leaf ∷ rest) =
    if leaf.cluster_id == id then leaf.effective_balance else leaf_balance id rest

-- rootMatches
abbrev pub root_matches : ℕ → ℕ → Bool
root_matches computed stored = computed == stored

abbrev pub proof_response : ℕ → ℕ → List ℕ → OracleCommit → ProofResponse
proof_response id balance hashes commit = record {
  proof_cluster = to_hex32 id;
  effective_balance = balance;
  proof = map to_hex32 hashes;
  proof_root = to_hex32 commit.merkle_root;
  proof_block = commit.reference_block;
}

-- A panic is caught by recoveryMiddleware.
abbrev pub with_proof : ℕ → Tree → OracleCommit → Result (List ℕ) → Response ProofResponse
with_proof id tree commit (err index_panic) = failure 500 internal_error
with_proof id tree commit (err cluster_not_found) = failure 404 (text "cluster not found")
with_proof id tree commit (ok hashes) =
    success (proof_response id (leaf_balance id tree.leaves) hashes commit)

abbrev pub with_commit : Crypto → ℕ → Resolved → Response ProofResponse
with_commit c id (unresolved e) = resolve_failure e
with_commit c id (resolved commit prev next) =
    let tree = build_tree c commit.cluster_balances in
    if root_matches tree.root commit.merkle_root
    then with_proof id tree commit (get_proof tree id)
    else failure 500 internal_error

-- handleGetProof
unfoldable pub handle_get_proof : Crypto → ApiStorage → Request → Response ProofResponse
unfolding resolve_commit resolve_failure parse_cluster_id build_tree leaf_balance get_proof
handle_get_proof c s r = elim (parse_cluster_id r.cluster_text) [
  | none ↦ failure 400 (text "invalid clusterId format")
  | some id ↦ with_commit c id (resolve_commit s r.epoch)
]
