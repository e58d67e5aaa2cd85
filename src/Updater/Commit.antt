-- ===== src/Updater/Commit.antt =====
-- updater/updater.go: processCommit and handleEvent. The second pass asks the same questions of the
-- head state, so it has answers of its own.
pub mod Proven
use ssv_oracle.Prelude.{
  ℕ, ◌+◌, Bool, true, false, Option, none, some, List, [], ◌∷◌, leb, ◌==◌, if◌then◌else◌, length,
}
use ssv_oracle.Merkle.Crypto.{Crypto}
use ssv_oracle.Merkle.Tree.{Leaf, Tree}
use ssv_oracle.Storage.Commits.{ClusterBalance, OracleCommit}
use ssv_oracle.Oracle.Balances.{build_tree}
use ssv_oracle.Updater.{
  Answer, Processed, updated, unchanged, error, revert, process_cluster, Pass, empty_pass,
  add_submission, count_updated, count_skipped, count_failed, process_all_clusters,
}

abbrev pub tally_again : Processed → Pass → Pass
tally_again updated p = count_updated p
tally_again unchanged p = count_skipped p
tally_again error p = count_failed p
tally_again (revert reason) p = count_failed p

-- The second pass, over the stale leaves.
unfoldable pub retry_stale : ℕ → Tree → List Leaf → List Answer → Pass → Pass
unfolding process_cluster
retry_stale block t [] answers p = p
retry_stale block t (leaf ∷ rest) [] p = p
retry_stale block t (leaf ∷ rest) (a ∷ answers) p =
    let (r, s) = process_cluster block leaf t a in
    let later = retry_stale block t rest answers (tally_again r (add_submission s p)) in
    if a.context_done then p else later

-- What follows the first pass: with no stale leaf nothing; where the snapshot of the head state
-- fails, which is none, all stale leaves have failed.
unfoldable pub second_pass : ℕ → Tree → List Leaf → Option (List Answer) → Pass → Pass
unfolding retry_stale
second_pass block t [] again p = p
second_pass block t (leaf ∷ rest) none p = record p {
  failed_count = p.failed_count + length (leaf ∷ rest);
}
second_pass block t (leaf ∷ rest) (some answers) p = retry_stale block t (leaf ∷ rest) answers p

unfoldable pub both_passes : ℕ → Tree → List Answer → Option (List Answer) → Pass
unfolding process_all_clusters second_pass
both_passes block t answers again =
    let first = process_all_clusters block t answers in second_pass block t first.stale again first

abbrev pub is_empty : List ClusterBalance → Bool
is_empty [] = true
is_empty (b ∷ bs) = false

-- processCommit; `none` is the error of a root that differs.
unfoldable pub process_commit :
    Crypto → OracleCommit → List Answer → Option (List Answer) → Option Pass
unfolding both_passes build_tree
process_commit c commit answers again =
    let t = build_tree c commit.cluster_balances in
    if is_empty commit.cluster_balances
    then some empty_pass
    else if t.root == commit.merkle_root
    then some (both_passes commit.reference_block t answers again)
    else none

-- What handleEvent does with an event: it leaves it, or processes the commit and then remembers the
-- block or, on an error, not.
pub data Handled : Type 0 where
  skipped : Handled
  processed : Pass → Handled
  root_mismatch : Handled

abbrev handled_of : Option Pass → Handled
handled_of none = root_mismatch
handled_of (some p) = processed p

unfoldable pub with_commit :
    Crypto → ℕ → Option OracleCommit → List Answer → Option (List Answer) → Handled
unfolding process_commit
with_commit c root none answers again = skipped
with_commit c root (some commit) answers again =
    if commit.merkle_root == root
    then handled_of (process_commit c commit answers again)
    else skipped

-- handleEvent, on the last processed block, the event's block and root, and the commit that the
-- lookup or its one repetition finds.
unfoldable pub handle_event :
    Crypto → ℕ → ℕ → ℕ → Option OracleCommit → List Answer → Option (List Answer) → Handled × ℕ
unfolding with_commit
handle_event c last block root commit answers again =
    let h = with_commit c root commit answers again in
    if leb block last
    then (skipped, last)
    else (h, elim h [ skipped ↦ last | processed p ↦ block | root_mismatch ↦ last ])
