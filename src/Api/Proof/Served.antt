-- ===== src/Api/Proof/Served.antt =====
-- What the API answers from a database that the oracle has kept.
use ssv_oracle.Prelude.{
  ℕ, ◌≡◌, refl, ap, sym, ◌∙◌, true, Option, none, some, List, [], ◌∷◌, ltb, ◌==◌, ==_refl, Text,
  text, lookup, HasDistinctKeys, sort, All, Bool-cases, Option-cases, inl, inr, arith, subst,
}
use ssv_oracle.Merkle.Crypto.{Crypto, hash_leaf}
use ssv_oracle.Merkle.Tree.{Leaf, leaf_hash, make_leaves, new_tree, get_proof}
use ssv_oracle.Merkle.Layers.{process_proof}
use ssv_oracle.Merkle.Leaves.{leaf_of, leaf_for, leaf_of-sort}
use ssv_oracle.Merkle.Proofs.{new_tree-get_proof, new_tree-get_proof_missing, leaves-finish_tree}
use ssv_oracle.Storage.{Db}
use ssv_oracle.Storage.Commits.{
  OracleCommit, commit_of, is_confirmed, newer, get_latest_commit, get_commit_by_epoch,
}
use ssv_oracle.Oracle.Balances.{cluster_map, build_tree}
use ssv_oracle.Oracle.Balances.Totals.{cluster_map-HasDistinctKeys}
use ssv_oracle.Oracle.Commit.Roots.{HasOwnRoot, IsSound}
use ssv_oracle.Api.{
  Request, storage_of, Response, success, failure, resolved, with_neighbours, by_epoch_of,
  parse_uint, resolve_commit,
}
use ssv_oracle.Api.Hex.{parse_cluster_id}
use ssv_oracle.Api.Proof.{ProofResponse, leaf_balance, proof_response, with_proof, handle_get_proof}

some_injective : {A : Type 0} {a b : A} → some a ≡ some b → a ≡ b
some_injective e = cc

by_epoch-commit_of :
    (e : ℕ) (t : List OracleCommit) {row : OracleCommit} {prev next : Option ℕ}
    → by_epoch_of (some (get_commit_by_epoch e t)) ≡ resolved row prev next
    → commit_of e t ≡ some row
unfolding get_commit_by_epoch
by_epoch-commit_of e t k = elim (Option-cases (commit_of e t)) [
  | inl n ↦ absurd (cc (rw (by_epoch_of, get_commit_by_epoch, n) at k))
  | inr (a, i) ↦ i ∙ ap some (same (rw (by_epoch_of, get_commit_by_epoch, i) at k))
]
  where
    same : {a b : OracleCommit} {p q n m : Option ℕ} → resolved a p n ≡ resolved b q m → a ≡ b
    same e = cc

with_neighbours-commit :
    (a b : OracleCommit) (o : Option (Option (OracleCommit × Option ℕ × Option ℕ)))
    {prev next : Option ℕ}
    → with_neighbours a o ≡ resolved b prev next
    → a ≡ b
with_neighbours-commit a b none e = cc
with_neighbours-commit a b (some none) e = cc
with_neighbours-commit a b (some (some (d, p, n))) e = cc

module _ {κ} (P : OracleCommit → Type κ) where
  newer-Holds :
      (a : OracleCommit) (o : Option OracleCommit)
      → P a
      → ((b : OracleCommit) → o ≡ some b → P b)
      → P (newer a o)
  newer-Holds a none h k = h
  newer-Holds a (some b) h k = elim (Bool-cases (ltb a.target_epoch b.target_epoch)) [
    | inl y ↦ rw y (k b refl)
    | inr z ↦ rw z h
  ]

  All-commit_of :
      (e : ℕ) (t : List OracleCommit) {row : OracleCommit}
      → All P t
      → commit_of e t ≡ some row
      → P row
  unfolding commit_of
  All-commit_of e [] h k = absurd (ground arith)
  All-commit_of e (r ∷ t) h k = elim (Bool-cases (r.target_epoch == e)) [
    | inl y ↦ subst P (some_injective (rw y at k)) h.0
    | inr z ↦ All-commit_of e t h.1 (rw z at k)
  ]

  All-get_latest_commit :
      (t : List OracleCommit) {row : OracleCommit}
      → All P t
      → get_latest_commit t ≡ some row
      → P row
  unfolding get_latest_commit
  All-get_latest_commit [] h k = absurd (ground arith)
  All-get_latest_commit (r ∷ t) h k = elim (Bool-cases (is_confirmed r.status)) [
    | inl y ↦
        subst P (some_injective (rw y at k))
          (newer-Holds r (get_latest_commit t) h.0 (λ b e. All-get_latest_commit t h.1 e))
    | inr z ↦ All-get_latest_commit t h.1 (rw z at k)
  ]

  -- The commit of a response is a row of the table.
  pub All-resolve_commit :
      (db : Db) (epoch : Text) {row : OracleCommit} {prev next : Option ℕ}
      → All P db.commits
      → resolve_commit (storage_of db) epoch ≡ resolved row prev next
      → P row
  unfolding resolve_commit storage_of get_commit_by_epoch
  All-resolve_commit db [] h k = elim (Option-cases (get_latest_commit db.commits)) [
    | inl n ↦ absurd (cc (rw (resolve_commit, n) at k))
    | inr (a, e) ↦
        subst P
          (with_neighbours-commit a _ (some (get_commit_by_epoch a.target_epoch db.commits))
            (rw (resolve_commit, e) at k))
          (All-get_latest_commit db.commits h e)
  ]
  All-resolve_commit db (ch ∷ epoch) h k = elim (Option-cases (parse_uint (ch ∷ epoch))) [
    | inl n ↦ absurd (cc (rw (resolve_commit, n) at k))
    | inr (e, q) ↦
        All-commit_of e db.commits h (by_epoch-commit_of e db.commits (rw (resolve_commit, q) at k))
  ]

leaf_balance-leaf_of :
    (id : ℕ) (l : List Leaf) {x : Leaf}
    → leaf_of id l ≡ some x
    → leaf_balance id l ≡ x.effective_balance
unfolding leaf_balance leaf_of
leaf_balance-leaf_of id [] h = absurd (ground arith)
leaf_balance-leaf_of id (y ∷ l) {x} h = ground (arith, leaf_balance-leaf_of id l {x = x})

-- The answer for a cluster of a commit: not found where the commit does not have it; and else its
-- balance in the commit, with a proof that leads from its leaf to the commit's root.
abbrev pub Serves : Crypto → ℕ → OracleCommit → Option ℕ → Response ProofResponse → Type 0
Serves c id row none r = r ≡ failure 404 (text "cluster not found")
Serves c id row (some b) r =
    (p : List ℕ) × (r ≡ success (proof_response id b p row))
    × (process_proof c (hash_leaf c id b) p ≡ row.merkle_root)

module _ (c : Crypto) where
  leaf_balance-build_tree :
      (m : List (ℕ × ℕ)) (id b : ℕ)
      → HasDistinctKeys m
      → lookup id m ≡ some b
      → leaf_balance id (new_tree c m).leaves ≡ b
  unfolding new_tree leaf_for
  leaf_balance-build_tree m id b d h =
      let leaves = sort (leaf_hash c) (make_leaves c m) in
      ap (leaf_balance id) (leaves-finish_tree c leaves)
      ∙ leaf_balance-leaf_of id leaves (leaf_of-sort c id m d ∙ ap (leaf_for c id) h)

  get_proof-Serves :
      (row : OracleCommit) (id : ℕ) (o : Option ℕ)
      → HasOwnRoot c row
      → lookup id (cluster_map row.cluster_balances []) ≡ o
      → Serves c id row o (
          with_proof id
            (build_tree c row.cluster_balances)
            row
            (get_proof (build_tree c row.cluster_balances) id))
  unfolding build_tree
  get_proof-Serves row id none w h =
      let m = cluster_map row.cluster_balances [] in
      let d = cluster_map-HasDistinctKeys row.cluster_balances [] tt in
      rw (new_tree-get_proof_missing c m id d h) refl
  get_proof-Serves row id (some b) w h =
      let m = cluster_map row.cluster_balances [] in
      let d = cluster_map-HasDistinctKeys row.cluster_balances [] tt in
      let (p, e, q) = new_tree-get_proof c m id b d h in
      (p, rw (e, leaf_balance-build_tree m id b d h) refl, q ∙ sym w)

  -- From a database that the oracle has kept, handleGetProof answers a request whose cluster ID and
  -- epoch parameter are in order and whose commit exists with the status 200, where the commit has
  -- the cluster: with the balance that the commit has for it, and a proof that leads from the leaf
  -- of the cluster and that balance to the commit's root. Where the commit does not have the
  -- cluster, it answers with the status 404.
  pub handle_get_proof-Serves :
      (db : Db) (r : Request) (id : ℕ) (row : OracleCommit) (prev next : Option ℕ)
      → IsSound c db
      → parse_cluster_id r.cluster_text ≡ some id
      → resolve_commit (storage_of db) r.epoch ≡ resolved row prev next
      → Serves c id row
          (lookup id (cluster_map row.cluster_balances []))
          (handle_get_proof c (storage_of db) r)
  unfolding handle_get_proof
  handle_get_proof-Serves db r id row prev next w h k =
      let own = All-resolve_commit (HasOwnRoot c) db r.epoch w.own_roots k in
      let same : ((build_tree c row.cluster_balances).root == row.merkle_root) ≡ true =
        ap (λ x. x == row.merkle_root) (sym own) ∙ ==_refl row.merkle_root in
      let tree = build_tree c row.cluster_balances in
      let answer : handle_get_proof c (storage_of db) r
          ≡ with_proof id tree row (get_proof tree id) =
        rw (handle_get_proof, h, k, same) refl in
      subst (Serves c id row (lookup id (cluster_map row.cluster_balances []))) (sym answer)
        (get_proof-Serves row id (lookup id (cluster_map row.cluster_balances [])) own refl)
