-- ===== src/Updater.antt =====
-- updater/updater.go: one pass over the leaves of a committed tree. What the storage, the contract
-- and the context do at a leaf is one `Answer`.
pub mod Passes
pub mod Commit
pub mod Run
pub mod Lookups
mod Tests
use ssv_oracle.Prelude.{
  ℕ, ◌+◌, Bool, true, false, Option, none, some, List, [], ◌∷◌, ◌++◌, ◌==◌, if◌then◌else◌, Text,
  text, text_eq,
}
use ssv_oracle.Merkle.Tree.{Leaf, Tree, Result, ok, err, get_proof}
use ssv_oracle.Storage.Clusters.{ClusterRow}

-- What UpdateClusterBalance reports: a receipt, a RevertError with its reason, or another error.
pub data UpdateResult : Type 0 where
  confirmed : UpdateResult
  reverted : Text → UpdateResult
  failed : UpdateResult

-- What GetClusterEffectiveBalance returns; its simulation may revert too.
pub data BalanceResult : Type 0 where
  balance_of : ℕ → BalanceResult
  read_reverted : Text → BalanceResult
  read_failed : BalanceResult

pub record Answer : Type 0 where
  pub context_done : Bool
  -- the lookup, on the cluster ID: none for an error, some none for a cluster that is missing
  pub lookup : ℕ → Option (Option ClusterRow)
  pub current_balance : BalanceResult
  pub update : UpdateResult

-- The arguments of a call of UpdateClusterBalance; owner, operators and cluster are those of the row.
pub record Submission : Type 0 where
  pub block_num : ℕ
  pub cluster : ClusterRow
  pub effective_balance : ℕ
  pub proof : List ℕ

-- What processCluster returns: whether the balance was updated, or a RevertError or another error of
-- its calls; and what it submitted.
pub data Processed : Type 0 where
  updated unchanged error : Processed
  revert : Text → Processed

abbrev pub processed_of : UpdateResult → Processed
processed_of confirmed = updated
processed_of (reverted reason) = revert reason
processed_of failed = error

-- The part of processCluster behind GetProof.
unfoldable pub submit :
    ℕ → Leaf → ClusterRow → List ℕ → BalanceResult → UpdateResult → Processed × Option Submission
submit block leaf row proof read_failed u = (error, none)
submit block leaf row proof (read_reverted reason) u = (revert reason, none)
submit block leaf row proof (balance_of current) u =
    if current == leaf.effective_balance then (unchanged, none) else (
      processed_of u,
      some (record {
        block_num = block;
        cluster = row;
        effective_balance = leaf.effective_balance;
        proof = proof;
      }),
    )

unfoldable pub with_row :
    ℕ → Leaf → Tree → Option (Option ClusterRow) → Answer → Processed × Option Submission
unfolding submit get_proof
with_row block leaf t none a = (error, none)
with_row block leaf t (some none) a = (unchanged, none)
with_row block leaf t (some (some row)) a = elim (get_proof t leaf.cluster_id) [
  | err e ↦ (error, none)
  | ok proof ↦ submit block leaf row proof a.current_balance a.update
]

-- processCluster
unfoldable pub process_cluster : ℕ → Leaf → Tree → Answer → Processed × Option Submission
unfolding with_row
process_cluster block leaf t a = with_row block leaf t (a.lookup leaf.cluster_id) a

-- processStats, the leaves to retry, and what was submitted.
pub record Pass : Type 0 where
  pub updated_count : ℕ
  pub skipped_count : ℕ
  pub failed_count : ℕ
  pub stale : List Leaf
  pub submissions : List Submission

abbrev pub empty_pass : Pass
empty_pass = record {
  updated_count = 0;
  skipped_count = 0;
  failed_count = 0;
  stale = [];
  submissions = [];
}

abbrev pub add_submission : Option Submission → Pass → Pass
add_submission none p = p
add_submission (some s) p = record p { submissions = p.submissions ++ (s ∷ []) }

abbrev pub count_updated : Pass → Pass
count_updated p = record p { updated_count = p.updated_count + 1 }

abbrev pub count_skipped : Pass → Pass
count_skipped p = record p { skipped_count = p.skipped_count + 1 }

abbrev pub count_failed : Pass → Pass
count_failed p = record p { failed_count = p.failed_count + 1 }

abbrev pub add_stale : Leaf → Pass → Pass
add_stale leaf p = record p { stale = p.stale ++ (leaf ∷ []) }

-- The switch on the revert reason.
pub data ReasonClass : Type 0 where
  stale_cluster root_gone other_reason : ReasonClass

unfoldable pub reason_class : Text → ReasonClass
reason_class reason =
    if text_eq reason (text "IncorrectClusterState")
    then stale_cluster
    else if text_eq reason (text "ClusterIsLiquidated")
    then stale_cluster
    else if text_eq reason (text "MustUseLatestRoot")
    then root_gone
    else if text_eq reason (text "RootNotFound")
    then root_gone
    else other_reason

-- `return stats, nil`
abbrev pub give_up : Pass → Pass
give_up p = record p { skipped_count = p.skipped_count + 1; stale = [] }

abbrev pub tally_reason : ReasonClass → Leaf → Pass → Pass × Bool
tally_reason stale_cluster leaf p = (add_stale leaf p, false)
tally_reason root_gone leaf p = (give_up p, true)
tally_reason other_reason leaf p = (count_skipped p, false)

-- The rest of the loop's body: the pass with the leaf counted, and whether the function returns.
unfoldable pub tally : Processed → Leaf → Pass → Pass × Bool
unfolding reason_class
tally updated leaf p = (count_updated p, false)
tally unchanged leaf p = (count_skipped p, false)
tally error leaf p = (count_failed p, false)
tally (revert reason) leaf p = tally_reason (reason_class reason) leaf p

-- The loop of processAllClusters. The list of answers is at least as long as that of the leaves; the
-- pass ends where it is not.
unfoldable pub process_from : ℕ → Tree → List Leaf → List Answer → Pass → Pass
unfolding process_cluster tally
process_from block t [] answers p = p
process_from block t (leaf ∷ rest) [] p = p
process_from block t (leaf ∷ rest) (a ∷ answers) p =
    let (r, s) = process_cluster block leaf t a in
    let (q, returns) = tally r leaf (add_submission s p) in
    let later = process_from block t rest answers q in
    if a.context_done then p else if returns then q else later

-- processAllClusters
unfoldable pub process_all_clusters : ℕ → Tree → List Answer → Pass
unfolding process_from
process_all_clusters block t answers = process_from block t t.leaves answers empty_pass
