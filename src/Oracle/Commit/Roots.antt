-- ===== src/Oracle/Commit/Roots.antt =====
-- What a commit keeps true of the database, and what the updater finds there.
use ssv_oracle.Prelude.{
  ℕ, ◌≡◌, refl, ap, ◌∙◌, subst, true, not, Option, none, some, List, [], ◌∷◌, ◌==◌, ==_refl, ◌&&◌,
  All, Bool-cases, by_branch, Option-cases, inl, inr, arith,
}
use ssv_oracle.Merkle.Crypto.{Crypto}
use ssv_oracle.Storage.{Db}
use ssv_oracle.Storage.Clusters.{get_active_validators}
use ssv_oracle.Storage.Commits.{
  CommitStatus, confirmed, failed, ClusterBalance, OracleCommit, get_commit_by_block,
  insert_pending_commit, is_pending, update_commit_status,
}
use ssv_oracle.Storage.Commits.History.{
  IsWellFormed, insert-cases, update-IsWellFormed, insert-IsWellFormed, pending_row,
}
use ssv_oracle.Syncer.Parser.{Abi}
use ssv_oracle.Syncer.State.{sync_to_block}
use ssv_oracle.Syncer.State.Invariant.{IsConsistent, sync_to_block-IsConsistent}
use ssv_oracle.Oracle.Balances.{build_tree}
use ssv_oracle.Updater.{Answer, Pass, empty_pass}
use ssv_oracle.Updater.Commit.{is_empty, both_passes, process_commit}
use ssv_oracle.Oracle.Commit.{
  Answers, CommitReply, mined, reverted, not_sent, Outcome, fetch_balances, send_root, after_check,
  store_and_send, with_balances, commit,
}

-- The root of a row is that of its balances.
abbrev pub HasOwnRoot : Crypto → OracleCommit → Type 0
HasOwnRoot c row = row.merkle_root ≡ (build_tree c row.cluster_balances).root

-- What the oracle keeps true of the database.
pub record IsSound (c : Crypto) (db : Db) : Type 0 where
  pub consistent : IsConsistent db.tables
  pub well_formed : IsWellFormed db.commits
  pub own_roots : All (HasOwnRoot c) db.commits

-- A list of rows that is well formed and whose rows have their own roots.
abbrev HasRoots : Crypto → List OracleCommit → Type 0
HasRoots c t = IsWellFormed t × All (HasOwnRoot c) t

update-HasOwnRoot :
    (c : Crypto) (e : ℕ) (st : CommitStatus) (h : Option ℕ) (t : List OracleCommit)
    → All (HasOwnRoot c) t
    → All (HasOwnRoot c) (update_commit_status e st h t)
unfolding update_commit_status
update-HasOwnRoot c e st h [] w = tt
update-HasOwnRoot c e st h (r ∷ t) w =
    elim (Bool-cases (r.target_epoch == e && is_pending r.status)) [
      | inl y ↦ rw y (w.0, update-HasOwnRoot c e st h t w.1)
      | inr n ↦ rw n (w.0, update-HasOwnRoot c e st h t w.1)
    ]

update-HasRoots :
    (c : Crypto) (e : ℕ) (st : CommitStatus) (h : Option ℕ) (t : List OracleCommit)
    → HasRoots c t
    → HasRoots c (update_commit_status e st h t)
update-HasRoots c e st h t w = (update-IsWellFormed e st h t w.0, update-HasOwnRoot c e st h t w.1)

send_root-HasRoots :
    (c : Crypto) (target : ℕ) (reply : CommitReply) (t : List OracleCommit)
    → HasRoots c t
    → HasRoots c (send_root target reply t)
unfolding send_root
send_root-HasRoots c target (mined h) t w = update-HasRoots c target confirmed (some h) t w
send_root-HasRoots c target (reverted h) t w = update-HasRoots c target failed h t w
send_root-HasRoots c target (not_sent h) t w = update-HasRoots c target failed h t w

after_check-HasRoots :
    (c : Crypto) (target root : ℕ) (on_chain : Option ℕ) (reply : CommitReply)
    (t : List OracleCommit)
    → HasRoots c t
    → HasRoots c (after_check target root on_chain reply t).0
unfolding after_check
after_check-HasRoots c target root none reply t w = send_root-HasRoots c target reply t w
after_check-HasRoots c target root (some r) reply t w = elim (Bool-cases (r == 0)) [
  | inl y ↦ rw y (send_root-HasRoots c target reply t w)
  | inr n ↦ elim (Bool-cases (r == root)) [
    | inl y ↦ rw (n, y) (update-HasRoots c target confirmed none t w)
    | inr z ↦ rw (n, z) (update-HasRoots c target failed none t w)
  ]
]

module _ (c : Crypto) (a : Answers) (block target : ℕ) where
  store_and_send-HasRoots :
      (bs : List ClusterBalance) (t : List OracleCommit)
      → HasRoots c t
      → HasRoots c (store_and_send c a block target bs t).0
  unfolding store_and_send
  store_and_send-HasRoots bs t w =
      let root = (build_tree c bs).root in
      elim (Option-cases (insert_pending_commit target root block bs t)) [
        | inl n ↦ rw (n, store_and_send) w
        | inr (u, e) ↦
            rw (e, store_and_send)
              (after_check-HasRoots c target root a.committed_root (a.reply root) u
                (insert-IsWellFormed target root block bs t w.0 e, stored bs t u w.1 e))
      ]
    where
      stored :
          (bs : List ClusterBalance) (t u : List OracleCommit)
          → All (HasOwnRoot c) t
          → insert_pending_commit target (build_tree c bs).root block bs t ≡ some u
          → All (HasOwnRoot c) u
      stored bs t u w e = elim (insert-cases target (build_tree c bs).root block bs t) [
        | inl (inl same) ↦ let s : t ≡ u = ground arith in subst (All (HasOwnRoot c)) s w
        | inl (inr refused) ↦ absurd (ground arith)
        | inr (free, new, added) ↦
            let s : pending_row target (build_tree c bs).root block bs ∷ t ≡ u = ground arith in
            subst (All (HasOwnRoot c)) s (refl, w)
      ]

  with_balances-HasRoots :
      (o : Option (List ClusterBalance)) (t : List OracleCommit)
      → HasRoots c t
      → HasRoots c (with_balances c a block target o t).0
  unfolding with_balances
  with_balances-HasRoots none t w = w
  with_balances-HasRoots (some bs) t w = store_and_send-HasRoots bs t w

  -- A commit, however it ends, leaves the database sound: consistent tables, distinct epochs and
  -- reference blocks, and in each row the root of the row's own balances.
  pub commit-IsSound :
      (abi : Abi) (db : Db) → IsSound c db → IsSound c (commit c abi a block target db).0
  unfolding commit
  commit-IsSound abi db w =
      let synced = sync_to_block c abi block a.batches a.context_done db.tables in
      let consistent =
        sync_to_block-IsConsistent c abi block a.batches a.context_done db.tables w.consistent in
      let (formed, roots) =
        with_balances-HasRoots (fetch_balances a (get_active_validators synced.0)) db.commits
          (w.well_formed, w.own_roots) in
      let before : IsSound c (record db { tables = synced.0 }) = record {
        consistent = consistent;
        well_formed = w.well_formed;
        own_roots = w.own_roots;
      } in
      by_branch (λ (r : Db × Outcome). IsSound c r.0) (not synced.1) (not a.root_verified) _ _ _
        before before (record { consistent = consistent; well_formed = formed; own_roots = roots })

-- One call of commit: its answers, block and target.
pub record Job : Type 0 where
  pub answers : Answers
  pub block : ℕ
  pub target : ℕ

unfoldable pub commit_all : Crypto → Abi → List Job → Db → Db
unfolding commit
commit_all c abi [] db = db
commit_all c abi (j ∷ js) db = commit_all c abi js (commit c abi j.answers j.block j.target db).0

commit_all-IsSound :
    (c : Crypto) (abi : Abi) (js : List Job) (db : Db)
    → IsSound c db
    → IsSound c (commit_all c abi js db)
unfolding commit_all
commit_all-IsSound c abi [] db w = w
commit_all-IsSound c abi (j ∷ js) db w =
    commit_all-IsSound c abi js (commit c abi j.answers j.block j.target db).0
      (commit-IsSound c j.answers j.block j.target abi db w)

get_commit_by_block-All :
    (P : OracleCommit → Type 0) (b : ℕ) (t : List OracleCommit) {row : OracleCommit}
    → All P t
    → get_commit_by_block b t ≡ some row
    → P row
unfolding get_commit_by_block
get_commit_by_block-All P b [] {row} w e = absurd (ground arith)
get_commit_by_block-All P b (r ∷ t) {row} w e = elim (Bool-cases (r.reference_block == b)) [
  | inl y ↦ let s : r ≡ row = ground (arith, y, e) in subst P s w.0
  | inr n ↦ get_commit_by_block-All P b t w.1 (ground (arith, n, e))
]

process_commit-HasOwnRoot :
    (c : Crypto) (row : OracleCommit) (answers : List Answer) (again : Option (List Answer))
    → HasOwnRoot c row
    → (p : Pass) × (process_commit c row answers again ≡ some p)
unfolding process_commit
process_commit-HasOwnRoot c row answers again h =
    let same : ((build_tree c row.cluster_balances).root == row.merkle_root) ≡ true =
      ap (λ r. (build_tree c row.cluster_balances).root == r) h
      ∙ ==_refl (build_tree c row.cluster_balances).root in
    elim (Bool-cases (is_empty row.cluster_balances)) [
      | inl y ↦ (empty_pass, rw y refl)
      | inr n ↦ (
        both_passes row.reference_block (build_tree c row.cluster_balances) answers again,
        rw (n, same) refl,
      )
    ]

-- The oracle and the updater agree: whatever commits run on a sound database, and however they end,
-- for a row that the updater then finds by its block processCommit builds the stored root again and
-- does not fail.
pub commit_all-process_commit :
    (c : Crypto) (abi : Abi) (js : List Job) (db : Db) (block : ℕ) (answers : List Answer)
    (again : Option (List Answer)) {row : OracleCommit}
    → IsSound c db
    → get_commit_by_block block (commit_all c abi js db).commits ≡ some row
    → (p : Pass) × (process_commit c row answers again ≡ some p)
commit_all-process_commit c abi js db block answers again {row} w e =
    process_commit-HasOwnRoot c row answers again (
      get_commit_by_block-All (HasOwnRoot c) block (commit_all c abi js db).commits
        (commit_all-IsSound c abi js db w).own_roots e)
