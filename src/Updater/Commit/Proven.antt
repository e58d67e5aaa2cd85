-- ===== src/Updater/Commit/Proven.antt =====
-- What the updater submits for an event.
use mathlib.Core.List.{Memᴰ}
use ssv_oracle.Prelude.{
  ℕ, ◌≡◌, ◌<◌, subst, false, Option, none, some, List, [], ◌∷◌, ◌++◌, refl, leb, ◌==◌, ==→≡,
  HasDistinctKeys, All, All-append, All-map, Bool-cases, by_branch, Option-cases, inl, inr, arith,
  tests,
}
use ssv_oracle.Merkle.Crypto.{Crypto}
use ssv_oracle.Merkle.Tree.{Leaf, Tree, new_tree}
use ssv_oracle.Storage.Commits.{OracleCommit}
use ssv_oracle.Oracle.Balances.{cluster_map, build_tree}
use ssv_oracle.Oracle.Balances.Totals.{cluster_map-HasDistinctKeys}
use ssv_oracle.Updater.{
  Answer, Submission, Processed, updated, unchanged, error, revert, process_cluster, Pass,
  empty_pass, add_submission, ReasonClass, stale_cluster, root_gone, other_reason, reason_class,
  tally, tally_reason, process_from, process_all_clusters,
}
use ssv_oracle.Updater.Passes.{
  Carries, AllOf-map, All-add_submission, with_row-Carries, IsLeafOf, IsProven, submission-IsProven,
  new_tree-leaves, process_all_clusters-IsProven,
}
use ssv_oracle.Updater.Commit.{
  tally_again, retry_stale, second_pass, both_passes, is_empty, process_commit, processed,
  with_commit, handle_event,
}

abbrev or_nil : Option (List Answer) → List Answer
or_nil none = []
or_nil (some answers) = answers

-- The answers of the two passes.
abbrev pub asked : List Answer → Option (List Answer) → List Answer
asked answers again = answers ++ or_nil again

tally-stale :
    (Q : Leaf → Type 0) (r : Processed) (leaf : Leaf) (p : Pass)
    → Q leaf
    → All Q p.stale
    → All Q (tally r leaf p).0.stale
unfolding tally
tally-stale Q updated leaf p q w = w
tally-stale Q unchanged leaf p q w = w
tally-stale Q error leaf p q w = w
tally-stale Q (revert reason) leaf p q w = by_reason (reason_class reason)
  where
    by_reason : (c : ReasonClass) → All Q (tally_reason c leaf p).0.stale
    by_reason stale_cluster = All-append Q p.stale (leaf ∷ []) w (q, tt)
    by_reason root_gone = tt
    by_reason other_reason = w

add_submission-stale :
    (Q : Leaf → Type 0) (s : Option Submission) (p : Pass)
    → All Q p.stale
    → All Q (add_submission s p).stale
add_submission-stale Q none p w = w
add_submission-stale Q (some s) p w = w

process_from-stale :
    (Q : Leaf → Type 0) (block : ℕ) (t : Tree) (leaves : List Leaf) (answers : List Answer)
    (p : Pass)
    → All Q leaves
    → All Q p.stale
    → All Q (process_from block t leaves answers p).stale
unfolding process_from
process_from-stale Q block t [] answers p q w = w
process_from-stale Q block t (leaf ∷ rest) [] p q w = w
process_from-stale Q block t (leaf ∷ rest) (a ∷ answers) p q w =
    let (r, s) = process_cluster block leaf t a in
    let n = tally r leaf (add_submission s p) in
    let more = tally-stale Q r leaf (add_submission s p) q.0 (add_submission-stale Q s p w) in
    by_branch (λ x. All Q x.stale) a.context_done n.1 p n.0 (process_from block t rest answers n.0)
      w more (process_from-stale Q block t rest answers n.0 q.1 more)

tally_again-All :
    (P : Submission → Type 0) (r : Processed) (p : Pass)
    → All P p.submissions
    → All P (tally_again r p).submissions
tally_again-All P updated p w = w
tally_again-All P unchanged p w = w
tally_again-All P error p w = w
tally_again-All P (revert reason) p w = w

module _ (block : ℕ) (t : Tree) (Q : Leaf → Type 0) (R : Answer → Type 0) (P : Submission → Type 0)
    (f : (leaf : Leaf) (a : Answer) (s : Submission)
      → Q leaf
      → R a
      → Carries block t leaf a s
      → P s) where
  retry_stale-All :
      (leaves : List Leaf) (answers : List Answer) (p : Pass)
      → All Q leaves
      → All R answers
      → All P p.submissions
      → All P (retry_stale block t leaves answers p).submissions
  unfolding retry_stale process_cluster
  retry_stale-All [] answers p q g w = w
  retry_stale-All (leaf ∷ rest) [] p q g w = w
  retry_stale-All (leaf ∷ rest) (a ∷ answers) p q g w =
      let (r, s) = process_cluster block leaf t a in
      let more = tally_again-All P r (add_submission s p) (
        All-add_submission P s p
          (AllOf-map (Carries block t leaf a) P s (λ x. f leaf a x q.0 g.0)
            (with_row-Carries block leaf t (a.lookup leaf.cluster_id) a refl))
          w) in
      let later = retry_stale-All rest answers (tally_again r (add_submission s p)) q.1 g.1 more in
      by_branch (λ x. All P x.submissions) a.context_done false p p
        (retry_stale block t rest answers (tally_again r (add_submission s p))) w w later

  second_pass-All :
      (leaves : List Leaf) (again : Option (List Answer)) (p : Pass)
      → All Q leaves
      → All R (or_nil again)
      → All P p.submissions
      → All P (second_pass block t leaves again p).submissions
  unfolding second_pass
  second_pass-All [] again p q g w = w
  second_pass-All (leaf ∷ rest) none p q g w = w
  second_pass-All (leaf ∷ rest) (some answers) p q g w =
      retry_stale-All (leaf ∷ rest) answers p q g w

All-of_append : (P : Answer → Type 0) (xs ys : List Answer) → All P (xs ++ ys) → All P xs × All P ys
All-of_append P [] ys h = (tt, h)
All-of_append P (x ∷ xs) ys h = let (a, b) = All-of_append P xs ys h.1 in ((h.0, a), b)

All-Memᴰ : (xs : List Answer) → All (λ a. Memᴰ a xs) xs
All-Memᴰ [] = tt
All-Memᴰ (x ∷ xs) = (
  Memᴰ.head refl,
  All-map (λ a. Memᴰ a xs) (λ a. Memᴰ a (x ∷ xs)) (λ a m. Memᴰ.tail m) xs (All-Memᴰ xs),
)

both_passes-IsProven :
    (c : Crypto) (block : ℕ) (m : List (ℕ × ℕ)) (answers : List Answer)
    (again : Option (List Answer))
    → HasDistinctKeys m
    → All
        (IsProven c m block (asked answers again) (new_tree c m).root)
        (both_passes block (new_tree c m) answers again).submissions
unfolding both_passes process_all_clusters
both_passes-IsProven c block m answers again d =
    let t = new_tree c m in
    let all = asked answers again in
    let first = process_all_clusters block t answers in
    let (k, l) = All-of_append (λ a. Memᴰ a all) answers (or_nil again) (All-Memᴰ all) in
    second_pass-All block t (IsLeafOf c m) (λ a. Memᴰ a all) (IsProven c m block all t.root)
      (λ leaf a s q g w. submission-IsProven c m block all leaf a s d q g w) first.stale again first
      (process_from-stale (IsLeafOf c m) block t t.leaves answers empty_pass (new_tree-leaves c m d)
        tt)
      l (process_all_clusters-IsProven c block m all answers d k)

-- What holds of every call that a commit makes.
abbrev AllProven :
    Crypto → OracleCommit → List Answer → Option (List Answer) → ℕ → List Submission → Type 0
AllProven c commit answers again root = All (
    IsProven c (cluster_map commit.cluster_balances []) commit.reference_block (asked answers again)
      root)

process_commit-IsProven :
    (c : Crypto) (commit : OracleCommit) (answers : List Answer) (again : Option (List Answer))
    {p : Pass}
    → process_commit c commit answers again ≡ some p
    → AllProven c commit answers again commit.merkle_root p.submissions
unfolding process_commit build_tree
process_commit-IsProven c commit answers again {p} h =
    let t = new_tree c (cluster_map commit.cluster_balances []) in
    let both = both_passes commit.reference_block t answers again in
    elim (Bool-cases (is_empty commit.cluster_balances)) [
      | inl y ↦
          let same : empty_pass ≡ p = ground (arith, y, h) in
          subst (λ x. AllProven c commit answers again commit.merkle_root x.submissions) same tt
      | inr n ↦ elim (Bool-cases (t.root == commit.merkle_root)) [
        | inr z ↦ absurd (ground (arith, n, z, h))
        | inl z ↦
            let same : both ≡ p = ground (arith, n, z, h) in
            subst (λ x. AllProven c commit answers again commit.merkle_root x.submissions) same
              (subst (λ r. AllProven c commit answers again r both.submissions)
                (==→≡ t.root commit.merkle_root z)
                (both_passes-IsProven c commit.reference_block
                  (cluster_map commit.cluster_balances []) answers again
                  (cluster_map-HasDistinctKeys commit.cluster_balances [] tt)))
      ]
    ]

-- Where handleEvent processes a commit, the event's block is beyond the last processed one and is
-- remembered, and in both passes, over the finalized and over the head state, every call of
-- UpdateClusterBalance carries the reference block of the commit, the row (owner, operators and state)
-- that the lookup of a pass returned for the ID of a cluster of the commit, the balance that the
-- commit has for that cluster, and a proof that hashes that ID and balance up to the root of the event.
pub handle_event-IsProven :
    (c : Crypto) (last block root : ℕ) (commit : OracleCommit) (answers : List Answer)
    (again : Option (List Answer)) {p : Pass} {after : ℕ}
    → handle_event c last block root (some commit) answers again ≡ (processed p, after)
    → (last < block)
      × (after ≡ block)
      × All
          (IsProven c
            (cluster_map commit.cluster_balances [])
            commit.reference_block
            (asked answers again)
            root)
          p.submissions
unfolding handle_event with_commit
handle_event-IsProven c last block root commit answers again {p} {after} h =
    elim (Bool-cases (leb block last)) [
      | inl y ↦ absurd (ground (arith, y, h))
      | inr n ↦ elim (Bool-cases (commit.merkle_root == root)) [
        | inr z ↦ absurd (ground (arith, n, z, h))
        | inl z ↦ elim (Option-cases (process_commit c commit answers again)) [
          | inl e ↦ absurd (ground (arith, n, z, e, h))
          | inr (q, e) ↦
              let same : (q ≡ p) × (after ≡ block) = ground (arith, n, z, e, h) in
              (
                omega (tests, n),
                same.1,
                subst (λ x. AllProven c commit answers again root x.submissions) same.0
                    (subst (λ r. AllProven c commit answers again r q.submissions)
                      (==→≡ commit.merkle_root root z)
                      (process_commit-IsProven c commit answers again e)),
              )
        ]
      ]
    ]
