-- ===== src/Oracle/Commit/Recorded.antt =====
-- How the table records the end of a commit.
use ssv_oracle.Prelude.{
  ℕ, ◌⊎◌, ◌≡◌, ◌≢◌, refl, true, false, Option, none, some, List, ◌∷◌, Option-cases, inl, inr, arith,
}
use ssv_oracle.Merkle.Crypto.{Crypto}
use ssv_oracle.Storage.{Db}
use ssv_oracle.Storage.Clusters.{get_active_validators}
use ssv_oracle.Storage.Commits.{
  CommitStatus, confirmed, failed, ClusterBalance, OracleCommit, commit_of, get_commit_by_block,
  insert_pending_commit, with_status,
}
use ssv_oracle.Storage.Commits.History.{pending_row}
use ssv_oracle.Syncer.Parser.{Abi}
use ssv_oracle.Syncer.State.{sync_to_block}
use ssv_oracle.Oracle.Balances.{build_tree}
use ssv_oracle.Oracle.Commit.{
  Answers, mined, reverted, not_sent, Outcome, sync_failed, not_verified, no_balances, not_stored,
  failed_with, already_committed, conflict, commit_reverted, success, fetch_balances,
}

-- GetCommittedRoot fails, or the contract has no root for the block.
abbrev pub IsUnset : Option ℕ → Type 0
IsUnset on_chain = (on_chain ≡ none) ⊎ (on_chain ≡ some 0)

-- The contract has a root, which is the given one.
abbrev pub HasSame : Option ℕ → ℕ → Type 0
HasSame on_chain root = (on_chain ≡ some root) × (root ≢ 0)

-- The contract has a root, and another one.
abbrev pub HasOther : Option ℕ → ℕ → Type 0
HasOther on_chain root = (r : ℕ) × (on_chain ≡ some r) × (r ≢ 0) × (r ≢ root)

-- The root of the block is verified, and the row of the target has a status and a transaction, the
-- block of the commit, the balances that were fetched, and the root of the tree over them, of which
-- `R` holds.
abbrev pub HasRow :
    Crypto
    → Answers
    → Option (List ClusterBalance)
    → ℕ
    → ℕ
    → CommitStatus
    → Option ℕ
    → (ℕ → Type 0)
    → List OracleCommit
    → Type 0
HasRow c a fetched target block status hash R t =
    (r : OracleCommit) × (commit_of target t ≡ some r)
    × (r.status ≡ status)
    × (r.tx_hash ≡ hash)
    × (r.reference_block ≡ block)
    × (a.root_verified ≡ true)
    × (fetched ≡ some r.cluster_balances)
    × (r.merkle_root ≡ (build_tree c r.cluster_balances).root)
    × R r.merkle_root

-- What each end of a commit means for the table, by the root that the contract has for the block and
-- by what CommitRoot answers: a row is confirmed where the contract has its root already, or has none
-- and the call succeeds; it is failed where the contract has another root, or has none and the call
-- does not succeed; and where the commit ends before that the table is as it was.
abbrev pub Records :
    Crypto
    → Answers
    → Option (List ClusterBalance)
    → ℕ
    → ℕ
    → List OracleCommit
    → List OracleCommit
    → Outcome
    → Type 0
Records c a fetched target block old t sync_failed = t ≡ old
Records c a fetched target block old t not_verified = (a.root_verified ≡ false) × (t ≡ old)
Records c a fetched target block old t no_balances = (fetched ≡ none) × (t ≡ old)
Records c a fetched target block old t not_stored = t ≡ old
Records c a fetched target block old t (failed_with hash) =
    HasRow c a fetched target block failed hash
      (λ root. IsUnset a.committed_root × (a.reply root ≡ not_sent hash)) t
Records c a fetched target block old t already_committed =
    HasRow c a fetched target block confirmed none (HasSame a.committed_root) t
Records c a fetched target block old t conflict =
    HasRow c a fetched target block failed none (HasOther a.committed_root) t
Records c a fetched target block old t (commit_reverted hash) =
    HasRow c a fetched target block failed hash
      (λ root. IsUnset a.committed_root × (a.reply root ≡ reverted hash)) t
Records c a fetched target block old t (success hash) =
    HasRow c a fetched target block confirmed (some hash)
      (λ root. IsUnset a.committed_root × (a.reply root ≡ mined hash)) t

pub insert-free :
    (epoch root block : ℕ) (bs : List ClusterBalance) (t : List OracleCommit)
    → commit_of epoch t ≡ none
    → (insert_pending_commit epoch root block bs t ≡ none)
      ⊎ (insert_pending_commit epoch root block bs t ≡ some (pending_row epoch root block bs ∷ t))
unfolding insert_pending_commit
insert-free epoch root block bs t free = elim (Option-cases (get_commit_by_block block t)) [
  | inl n ↦ inr (ground (arith, free, n))
  | inr (r, e) ↦ inl (ground (arith, free, e))
]

pub with_status-tx_hash :
    (status : CommitStatus) (hash : Option ℕ) (row : OracleCommit)
    → row.tx_hash ≡ none
    → (with_status status hash row).tx_hash ≡ hash
with_status-tx_hash status none row h = h
with_status-tx_hash status (some x) row h = refl

module _ (c : Crypto) (a : Answers) (target block : ℕ) (old : List OracleCommit)
    (bs : List ClusterBalance) (verified : a.root_verified ≡ true) where
  abbrev root : ℕ
  root = (build_tree c bs).root

  abbrev stored : List OracleCommit
  stored = pending_row target root block bs ∷ old

  abbrev Recorded : List OracleCommit → Outcome → Type 0
  Recorded t o = Records c a (some bs) target block old t o

module _ (c : Crypto) (a : Answers) (block target : ℕ) where
  -- The balances that a commit fetches: those of the validators in the tables that its sync leaves.
  unfoldable pub fetched_in : Abi → Db → Option (List ClusterBalance)
  fetched_in abi db =
      fetch_balances a
        (get_active_validators (sync_to_block c abi block a.batches a.context_done db.tables).0)
