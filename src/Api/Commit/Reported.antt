-- ===== src/Api/Commit/Reported.antt =====
-- What the API reports of a commit of a database that the oracle has kept.
use ssv_oracle.Prelude.{
  ℕ, ◌+◌, ◌*◌, ◌<◌, ◌≤◌, ◌≡◌, refl, ap, sym, ◌∙◌, true, Option, some, List, [], ◌∷◌, length, ◌==◌,
  ==_refl, u64, lookup, All, arith,
}
use ssv_oracle.Merkle.Crypto.{Crypto}
use ssv_oracle.Storage.{Db}
use ssv_oracle.Storage.Commits.{
  ClusterBalance, OracleCommit, commit_of, prev_epoch, next_epoch, get_commit_by_epoch,
}
use ssv_oracle.Oracle.Balances.{cluster_map, build_tree}
use ssv_oracle.Oracle.Commit.Roots.{HasOwnRoot, IsSound}
use ssv_oracle.Api.{Request, ApiStorage, storage_of, success, resolved, resolve_commit}
use ssv_oracle.Api.Proof.Served.{All-resolve_commit}
use ssv_oracle.Api.Diff.{compute_diff}
use ssv_oracle.Api.Diff.Patched.{patched, balance_in, HasDistinctClusters, patched-compute_diff}
use ssv_oracle.Api.Commit.{
  CommitResponse, is_full, total_from, diff_to, previous_diff, brief_response, full_response,
  handle_get_commit,
}

abbrev pub balances_sum : List ClusterBalance → ℕ
balances_sum [] = 0
balances_sum (b ∷ rest) = b.effective_balance + balances_sum rest

abbrev pub IsUint32Balance : ClusterBalance → Type 0
IsUint32Balance b = b.effective_balance < 4294967296

balances_sum_bound :
    (bs : List ClusterBalance) → All IsUint32Balance bs → balances_sum bs ≤ 4294967295 * length bs
balances_sum_bound [] h = omega arith
balances_sum_bound (b ∷ bs) h = omega (arith, h.0, balances_sum_bound bs h.1)

total_from_exact :
    (n : ℕ) (bs : List ClusterBalance)
    → n + balances_sum bs < 18446744073709551616
    → total_from n bs ≡ n + balances_sum bs
unfolding total_from
total_from_exact n [] h = omega arith
total_from_exact n (b ∷ bs) h =
    let exact : u64 (n + b.effective_balance) ≡ n + b.effective_balance = omega (arith, h) in
    rw exact (total_from_exact (n + b.effective_balance) bs (omega (arith, h)) ∙ omega arith)

-- A diff, applied to the balances of one commit, gives those of another for every cluster.
abbrev pub Reports : Option ℕ → CommitResponse → OracleCommit → OracleCommit → Type 0
Reports prev resp old row =
    (resp.previous ≡ prev)
    × (resp.total_effective_balance ≡ balances_sum row.cluster_balances)
    × ((id : ℕ)
        → patched resp.balance_diff id (lookup id (cluster_map old.cluster_balances []))
          ≡ balance_in id row.cluster_balances)

previous_diff-commit_of :
    (db : Db) (cur : List ClusterBalance) (p : ℕ) (old : OracleCommit)
    → commit_of p db.commits ≡ some old
    → previous_diff (storage_of db) cur (some p) ≡ compute_diff p old.cluster_balances cur
unfolding previous_diff storage_of get_commit_by_epoch
previous_diff-commit_of db cur p old o =
    let found : get_commit_by_epoch p db.commits
        ≡ some (old, prev_epoch p db.commits, next_epoch p db.commits) =
      rw (get_commit_by_epoch, o) refl in
    ap (λ x. diff_to p cur (some x)) found

module _ (c : Crypto) where
  handle_get_commit_full :
      (s : ApiStorage) (r : Request) (row : OracleCommit) (prev next : Option ℕ)
      → is_full r ≡ true
      → resolve_commit s r.epoch ≡ resolved row prev next
      → HasOwnRoot c row
      → handle_get_commit c s r
        ≡ success (
            full_response s
              (build_tree c row.cluster_balances)
              row
              prev
              (brief_response row prev next))
  unfolding handle_get_commit
  handle_get_commit_full s r row prev next f k own =
      let tree = build_tree c row.cluster_balances in
      let same : (tree.root == row.merkle_root) ≡ true =
        ap (λ x. x == row.merkle_root) (sym own) ∙ ==_refl row.merkle_root in
      rw (f, k, same) refl

  -- From a database that the oracle has kept, handleGetCommit answers a full request for a commit
  -- with a previous one with the status 200: it names the previous epoch, the total is the exact sum of
  -- the balances, without a wrap of its uint64, and the diff, applied to the balances of the previous
  -- commit, gives the commit's balance of every cluster. The balances are uint32, fewer than 2^32,
  -- and of distinct clusters.
  pub handle_get_commit-Reports :
      (db : Db) (r : Request) (row old : OracleCommit) (p : ℕ) (next : Option ℕ)
      → IsSound c db
      → is_full r ≡ true
      → resolve_commit (storage_of db) r.epoch ≡ resolved row (some p) next
      → commit_of p db.commits ≡ some old
      → HasDistinctClusters row.cluster_balances
      → All IsUint32Balance row.cluster_balances
      → length row.cluster_balances < 4294967296
      → (resp : CommitResponse) × (handle_get_commit c (storage_of db) r ≡ success resp)
        × Reports (some p) resp old row
  unfolding brief_response full_response
  handle_get_commit-Reports db r row old p next w f k o d u n =
      let tree = build_tree c row.cluster_balances in
      let own = All-resolve_commit (HasOwnRoot c) db r.epoch w.own_roots k in
      (
        full_response (storage_of db) tree row (some p) (brief_response row (some p) next),
        handle_get_commit_full (storage_of db) r row (some p) next f k own,
        (
          refl,
          total_from_exact 0 row.cluster_balances
                (omega (arith, balances_sum_bound row.cluster_balances u, n))
              ∙ omega arith,
          λ id.
              rw (previous_diff-commit_of db row.cluster_balances p old o)
                (patched-compute_diff p old.cluster_balances row.cluster_balances id d),
        ),
      )
