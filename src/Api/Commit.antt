-- ===== src/Api/Commit.antt =====
-- handleGetCommit of api/handlers.go.
pub mod Reported
use ssv_oracle.Prelude.{
  ℕ, ◌+◌, Bool, true, false, Option, none, some, List, [], ◌∷◌, map, ◌==◌, if◌then◌else◌, Text,
  text, text_eq, to_lower, u64, lookup,
}
use ssv_oracle.Merkle.Crypto.{Crypto, be_bytes}
use ssv_oracle.Merkle.Tree.{Leaf, Tree, inner_layers}
use ssv_oracle.Storage.Commits.{
  CommitStatus, pending, confirmed, failed, ClusterBalance, OracleCommit,
}
use ssv_oracle.Storage.Clusters.{ClusterInfo}
use ssv_oracle.Oracle.Balances.{build_tree}
use ssv_oracle.Api.{
  Request, ApiStorage, Response, success, failure, Resolved, resolved, unresolved, internal_error,
  resolve_commit, resolve_failure,
}
use ssv_oracle.Api.Hex.{to_hex, to_hex32, to_hex_or_empty}
use ssv_oracle.Api.Proof.{root_matches}
use ssv_oracle.Api.Diff.{CommitDiff, compute_diff}

-- Cluster
pub record ClusterJson : Type 0 where
  pub cluster_text : Text
  pub cluster_effective : ℕ
  pub hash_text : Text
  pub owner_text : Text
  pub operators : List ℕ

-- CommitResponse; an empty list or a zero is a field that is left out.
pub record CommitResponse : Type 0 where
  pub epoch_number : ℕ
  pub status_text : Text
  pub reference : ℕ
  pub root_text : Text
  pub tx_text : Text
  pub cluster_list : List ClusterJson
  pub layer_texts : List (List Text)
  pub total_effective_balance : ℕ
  pub balance_diff : Option CommitDiff
  pub previous : Option ℕ
  pub next : Option ℕ

-- string(commit.Status)
unfoldable pub status_name : CommitStatus → Text
status_name pending = text "pending"
status_name confirmed = text "confirmed"
status_name failed = text "failed"

-- strings.ToLower(_) == "true"
unfoldable pub is_full : Request → Bool
unfolding to_lower text_eq
is_full r = text_eq (to_lower r.full) (text "true")

-- The owner and the operators of a cluster, where the storage has them.
abbrev pub with_info : ClusterJson → Option ClusterInfo → ClusterJson
with_info j none = j
with_info j (some i) = record j {
  owner_text = to_hex (be_bytes 20 i.info_owner);
  operators = i.info_operators;
}

abbrev pub bare_cluster : Leaf → ClusterJson
bare_cluster leaf = record {
  cluster_text = to_hex32 leaf.cluster_id;
  cluster_effective = leaf.effective_balance;
  hash_text = to_hex32 leaf.hash;
  owner_text = [];
  operators = [];
}

abbrev pub cluster_json : Option (List (ℕ × ClusterInfo)) → Leaf → ClusterJson
cluster_json none leaf = bare_cluster leaf
cluster_json (some infos) leaf = with_info (bare_cluster leaf) (lookup leaf.cluster_id infos)

-- The loop that adds up the balances in a uint64.
unfoldable pub total_from : ℕ → List ClusterBalance → ℕ
total_from total [] = total
total_from total (b ∷ rest) = total_from (u64 (total + b.effective_balance)) rest

-- The diff to the previous commit; an error or a commit that is missing leaves it out.
abbrev pub diff_to :
    ℕ
    → List ClusterBalance
    → Option (Option (OracleCommit × Option ℕ × Option ℕ))
    → Option CommitDiff
diff_to p cur none = none
diff_to p cur (some none) = none
diff_to p cur (some (some (old, before, after))) = compute_diff p old.cluster_balances cur

unfoldable pub previous_diff : ApiStorage → List ClusterBalance → Option ℕ → Option CommitDiff
unfolding compute_diff
previous_diff s cur none = none
previous_diff s cur (some p) = diff_to p cur (s.commit_by_epoch p)

unfoldable pub brief_response : OracleCommit → Option ℕ → Option ℕ → CommitResponse
unfolding status_name to_hex32 to_hex_or_empty
brief_response commit prev next = record {
  epoch_number = commit.target_epoch;
  status_text = status_name commit.status;
  reference = commit.reference_block;
  root_text = to_hex32 commit.merkle_root;
  tx_text = to_hex_or_empty commit.tx_hash;
  cluster_list = [];
  layer_texts = [];
  total_effective_balance = 0;
  balance_diff = none;
  previous = prev;
  next = next;
}

unfoldable pub full_response :
    ApiStorage → Tree → OracleCommit → Option ℕ → CommitResponse → CommitResponse
unfolding to_hex to_hex32 be_bytes inner_layers total_from previous_diff
full_response s tree commit prev resp = record resp {
  cluster_list = map (cluster_json s.all_cluster_info) tree.leaves;
  layer_texts = map (map to_hex32) (inner_layers tree);
  total_effective_balance = total_from 0 commit.cluster_balances;
  balance_diff = previous_diff s commit.cluster_balances prev;
}

abbrev pub commit_response : Crypto → ApiStorage → Bool → Resolved → Response CommitResponse
commit_response c s full (unresolved e) = resolve_failure e
commit_response c s false (resolved commit prev next) = success (brief_response commit prev next)
commit_response c s true (resolved commit prev next) =
    let tree = build_tree c commit.cluster_balances in
    if root_matches tree.root commit.merkle_root
    then success (full_response s tree commit prev (brief_response commit prev next))
    else failure 500 internal_error

-- handleGetCommit
unfoldable pub handle_get_commit : Crypto → ApiStorage → Request → Response CommitResponse
unfolding is_full resolve_commit resolve_failure build_tree brief_response full_response
handle_get_commit c s r = commit_response c s (is_full r) (resolve_commit s r.epoch)
