-- ===== src/Oracle/Commit/Confirmed.antt =====
-- For a commit that reports a transaction: its row and the answer to CommitRoot.
use ssv_oracle.Prelude.{
  ℕ, ◌≡◌, refl, ap, ◌∙◌, not, Option, none, some, List, ◌∷◌, ◌==◌, by_branch, Bool-cases, inl, inr,
  arith,
}
use ssv_oracle.Merkle.Crypto.{Crypto}
use ssv_oracle.Storage.{Db}
use ssv_oracle.Storage.Clusters.{get_active_validators}
use ssv_oracle.Storage.Commits
use ssv_oracle.Storage.Commits.{
  CommitStatus, ClusterBalance, OracleCommit, commit_of, insert_pending_commit, with_status,
  update_commit_status,
}
use ssv_oracle.Storage.Commits.History.{pending_row, commit_of-update}
use ssv_oracle.Syncer.Parser.{Abi}
use ssv_oracle.Syncer.State.{sync_to_block}
use ssv_oracle.Oracle.Balances.{build_tree}
use ssv_oracle.Oracle.Commit.{
  Answers, CommitReply, mined, not_sent, success, fetch_balances, send_root, outcome_of,
  after_check, store_and_send, with_balances, commit,
}
use ssv_oracle.Oracle
use ssv_oracle.Oracle.Commit.Recorded.{insert-free}

send_root-success :
    (target hash : ℕ) (reply : CommitReply) (t : List OracleCommit)
    → outcome_of reply ≡ success hash
    → (reply ≡ mined hash)
      × (send_root target reply t ≡ update_commit_status target Commits.confirmed (some hash) t)
unfolding send_root
send_root-success target hash (mined h) t e =
    let same : h ≡ hash = ground arith in
    (ap mined same, ap (λ x. update_commit_status target Commits.confirmed (some x) t) same)
send_root-success target hash (CommitReply.reverted h) t e = absurd (cc)
send_root-success target hash (not_sent h) t e = absurd (cc)

after_check-success :
    (target root hash : ℕ) (on_chain : Option ℕ) (reply : CommitReply) (t : List OracleCommit)
    → (after_check target root on_chain reply t).1 ≡ success hash
    → (reply ≡ mined hash)
      × ((after_check target root on_chain reply t).0
          ≡ update_commit_status target Commits.confirmed (some hash) t)
unfolding after_check
after_check-success target root hash none reply t e = send_root-success target hash reply t e
after_check-success target root hash (some r) reply t e = elim (Bool-cases (r == 0)) [
  | inl y ↦ rw y (send_root-success target hash reply t (rw y at e))
  | inr n ↦ elim (Bool-cases (r == root)) [
    | inl y ↦ absurd (ground (arith, n, y, e))
    | inr m ↦ absurd (ground (arith, n, m, e))
  ]
]

-- The row of a target after a commit, with what it says of the transaction.
pub record IsConfirmed (c : Crypto) (target block hash : ℕ) (t : List OracleCommit)
    (Published : ℕ → Type 0) : Type 0 where
  pub row : OracleCommit
  pub found : commit_of target t ≡ some row
  pub status : row.status ≡ Commits.confirmed
  pub tx_hash : row.tx_hash ≡ some hash
  pub reference_block : row.reference_block ≡ block
  pub merkle_root : row.merkle_root ≡ (build_tree c row.cluster_balances).root
  pub published : Published row.merkle_root

module _ (c : Crypto) (a : Answers) (block target hash : ℕ) where
  abbrev pub Confirms : List OracleCommit → Type 0
  Confirms t = IsConfirmed c target block hash t (λ root. a.reply root ≡ mined hash)

  store_and_send-Confirms :
      (bs : List ClusterBalance) (t : List OracleCommit)
      → commit_of target t ≡ none
      → (store_and_send c a block target bs t).1 ≡ success hash
      → Confirms (store_and_send c a block target bs t).0
  unfolding store_and_send commit_of
  store_and_send-Confirms bs t free e =
      let root = (build_tree c bs).root in
      let row = pending_row target root block bs in
      elim (insert-free target root block bs t free) [
        | inl refused ↦ absurd (ground (arith, refused, e))
        | inr added ↦
            let (r, same) =
              after_check-success target root hash a.committed_root (a.reply root) (row ∷ t)
                (rw (added, store_and_send) at e) in
            rw (added, store_and_send)
              (record {
                row = with_status Commits.confirmed (some hash) row;
                found =
                    ap (commit_of target) same
                    ∙ ground (
                      arith,
                      commit_of-update target target Commits.confirmed (some hash) (row ∷ t),
                    );
                status = refl;
                tx_hash = refl;
                reference_block = refl;
                merkle_root = refl;
                published = r;
              })
      ]

  with_balances-Confirms :
      (o : Option (List ClusterBalance)) (t : List OracleCommit)
      → commit_of target t ≡ none
      → (with_balances c a block target o t).1 ≡ success hash
      → Confirms (with_balances c a block target o t).0
  unfolding with_balances
  with_balances-Confirms none t free e = absurd (cc)
  with_balances-Confirms (some bs) t free e = store_and_send-Confirms bs t free e

  pub commit-Confirms :
      (abi : Abi) (db : Db)
      → commit_of target db.commits ≡ none
      → (commit c abi a block target db).1 ≡ success hash
      → Confirms (commit c abi a block target db).0.commits
  unfolding commit
  commit-Confirms abi db free =
      let synced = sync_to_block c abi block a.batches a.context_done db.tables in
      by_branch (λ (r : Db × Oracle.Commit.Outcome). r.1 ≡ success hash → Confirms r.0.commits)
        (not synced.1) (not a.root_verified) _ _ _ (λ e. absurd (cc)) (λ e. absurd (cc))
        (with_balances-Confirms (fetch_balances a (get_active_validators synced.0)) db.commits free)
