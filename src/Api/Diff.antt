-- ===== src/Api/Diff.antt =====
-- computeDiff of api/handlers.go. The source keys its maps by the hex text of a cluster ID, of which
-- the number is the model.
pub mod Patched
use ssv_oracle.Prelude.{
  ℕ, Bool, true, false, Option, none, some, List, [], ◌∷◌, ◌==◌, if◌then◌else◌, lookup,
}
use ssv_oracle.Storage.Commits.{ClusterBalance}
use ssv_oracle.Oracle.Balances.{cluster_map}

-- ClusterDiff
pub record ClusterDiff : Type 0 where
  pub diff_cluster : ℕ
  pub old_balance : ℕ
  pub new_balance : ℕ

-- ClusterBalanceEntry
pub record BalanceEntry : Type 0 where
  pub entry_cluster : ℕ
  pub entry_balance : ℕ

-- CommitDiff
pub record CommitDiff : Type 0 where
  pub previous_epoch : ℕ
  pub changed : List ClusterDiff
  pub added : List BalanceEntry
  pub removed : List BalanceEntry

abbrev pub entry_of : ClusterBalance → BalanceEntry
entry_of b = record { entry_cluster = b.cluster_id; entry_balance = b.effective_balance }

-- The loop over the current balances, on the list of changed clusters.
abbrev pub changed_entry : ClusterBalance → Option ℕ → List ClusterDiff → List ClusterDiff
changed_entry b none rest = rest
changed_entry b (some old) rest =
    if old == b.effective_balance
    then rest
    else record {
      diff_cluster = b.cluster_id;
      old_balance = old;
      new_balance = b.effective_balance;
    }
      ∷ rest

unfoldable pub changed_of : List (ℕ × ℕ) → List ClusterBalance → List ClusterDiff
unfolding lookup
changed_of old [] = []
changed_of old (b ∷ cur) = changed_entry b (lookup b.cluster_id old) (changed_of old cur)

-- The same loop, on the list of added clusters.
abbrev pub added_entry : ClusterBalance → Option ℕ → List BalanceEntry → List BalanceEntry
added_entry b none rest = entry_of b ∷ rest
added_entry b (some old) rest = rest

unfoldable pub added_of : List (ℕ × ℕ) → List ClusterBalance → List BalanceEntry
unfolding lookup
added_of old [] = []
added_of old (b ∷ cur) = added_entry b (lookup b.cluster_id old) (added_of old cur)

-- The keys of curMap.
unfoldable pub has_cluster : ℕ → List ClusterBalance → Bool
has_cluster id [] = false
has_cluster id (b ∷ rest) = if b.cluster_id == id then true else has_cluster id rest

-- The loop over the previous balances.
unfoldable pub removed_of : List ClusterBalance → List ClusterBalance → List BalanceEntry
unfolding has_cluster
removed_of cur [] = []
removed_of cur (b ∷ old) =
    let rest = removed_of cur old in
    if has_cluster b.cluster_id cur then rest else entry_of b ∷ rest

abbrev pub unless_empty : CommitDiff → Option CommitDiff
unless_empty d = elim d.changed [
  | x ∷ xs ↦ some d
  | [] ↦ elim d.added [ x ∷ xs ↦ some d | [] ↦ elim d.removed [ x ∷ xs ↦ some d | [] ↦ none ] ]
]

-- computeDiff; `none` is a nil diff.
unfoldable pub compute_diff : ℕ → List ClusterBalance → List ClusterBalance → Option CommitDiff
unfolding cluster_map changed_of added_of removed_of
compute_diff prev old cur =
    let old_map = cluster_map old [] in
    unless_empty (record {
      previous_epoch = prev;
      changed = changed_of old_map cur;
      added = added_of old_map cur;
      removed = removed_of cur old;
    })
