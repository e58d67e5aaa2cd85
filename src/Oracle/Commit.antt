-- ===== src/Oracle/Commit.antt =====
-- oracle/oracle.go: commit, fetchBalances and handleCommitError, over the database. What the node, the
-- beacon node and the contract answer during one commit is the record `Answers`.
pub mod Fetched
pub mod Recorded
pub mod Roots
pub mod Confirmed
use ssv_oracle.Prelude.{
  ℕ, Bool, true, false, not, Option, none, some, List, [], ◌∷◌, ◌==◌, if◌then◌else◌,
}
use ssv_oracle.Merkle.Crypto.{Crypto}
use ssv_oracle.Storage.{Db}
use ssv_oracle.Storage.Clusters.{Bytes, Validator, get_active_validators}
use ssv_oracle.Storage.Commits.{
  CommitStatus, confirmed, failed, ClusterBalance, OracleCommit, insert_pending_commit,
  update_commit_status,
}
use ssv_oracle.Syncer.Parser.{Abi}
use ssv_oracle.Syncer.State.{BatchResult, sync_to_block}
use ssv_oracle.Oracle.Balances.{deduplicate_pubkeys, aggregate_by_cluster, build_tree}

-- What CommitRoot returns: a receipt's transaction hash; a RevertError, with a receipt where the
-- transaction was mined; or another error.
pub data CommitReply : Type 0 where
  mined : ℕ → CommitReply
  reverted : Option ℕ → CommitReply
  not_sent : Option ℕ → CommitReply

pub record Answers : Type 0 where
  pub batches : List BatchResult
  pub context_done : Bool
  -- VerifyFinalizedBlockRoot
  pub root_verified : Bool
  -- GetValidatorBalances
  pub balances : List Bytes → Option (List (ℕ × ℕ))
  -- GetCommittedRoot: none for an error, zero for no root
  pub committed_root : Option ℕ
  -- CommitRoot, on the root
  pub reply : ℕ → CommitReply

-- How commit ends; `failed_with` and the four before it are errors.
pub data Outcome : Type 0 where
  sync_failed not_verified no_balances not_stored : Outcome
  failed_with : Option ℕ → Outcome
  already_committed conflict : Outcome
  commit_reverted : Option ℕ → Outcome
  success : ℕ → Outcome

-- fetchBalances; without validators the beacon node is not asked.
unfoldable pub fetch_balances : Answers → List Validator → Option (List ClusterBalance)
unfolding deduplicate_pubkeys aggregate_by_cluster
fetch_balances a [] = some []
fetch_balances a (v ∷ vs) = elim (a.balances (deduplicate_pubkeys (v ∷ vs))) [
  | none ↦ none
  | some balances ↦ some (aggregate_by_cluster (v ∷ vs) balances)
]

-- handleCommitError behind the change of the status.
abbrev pub outcome_of : CommitReply → Outcome
outcome_of (mined hash) = success hash
outcome_of (reverted hash) = commit_reverted hash
outcome_of (not_sent hash) = failed_with hash

-- From CommitRoot on.
unfoldable pub send_root : ℕ → CommitReply → List OracleCommit → List OracleCommit
unfolding update_commit_status
send_root target (mined hash) table = update_commit_status target confirmed (some hash) table
send_root target (reverted hash) table = update_commit_status target failed hash table
send_root target (not_sent hash) table = update_commit_status target failed hash table

-- From GetCommittedRoot on. The root of a tree is 32 bytes of a hash, and the zero root means none.
unfoldable pub after_check :
    ℕ → ℕ → Option ℕ → CommitReply → List OracleCommit → List OracleCommit × Outcome
unfolding send_root
after_check target root none reply table = (send_root target reply table, outcome_of reply)
after_check target root (some on_chain) reply table =
    if on_chain == 0
    then (send_root target reply table, outcome_of reply)
    else if on_chain == root
    then (update_commit_status target confirmed none table, already_committed)
    else (update_commit_status target failed none table, conflict)

-- From InsertPendingCommit on.
unfoldable pub store_and_send :
    Crypto → Answers → ℕ → ℕ → List ClusterBalance → List OracleCommit → List OracleCommit × Outcome
unfolding after_check build_tree
store_and_send c a block target balances table =
    let root = (build_tree c balances).root in
    elim (insert_pending_commit target root block balances table) [
      | none ↦ (table, not_stored)
      | some stored ↦ after_check target root a.committed_root (a.reply root) stored
    ]

unfoldable pub with_balances :
    Crypto
    → Answers
    → ℕ
    → ℕ
    → Option (List ClusterBalance)
    → List OracleCommit
    → List OracleCommit × Outcome
unfolding store_and_send
with_balances c a block target none table = (table, no_balances)
with_balances c a block target (some balances) table =
    store_and_send c a block target balances table

-- commit, on the checkpoint's block and the target epoch.
unfoldable pub commit : Crypto → Abi → Answers → ℕ → ℕ → Db → Db × Outcome
unfolding with_balances fetch_balances
commit c abi a block target db =
    let (tables, synced) = sync_to_block c abi block a.batches a.context_done db.tables in
    let (table, outcome) =
      with_balances c a block target (fetch_balances a (get_active_validators tables)) db.commits in
    if not synced
    then (record db { tables = tables }, sync_failed)
    else if not a.root_verified
    then (record db { tables = tables }, not_verified)
    else (record db { tables = tables; commits = table }, outcome)
