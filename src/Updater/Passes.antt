-- ===== src/Updater/Passes.antt =====
-- What a pass submits, and how it counts the leaves.
use mathlib.Core.List.{Memᴰ}
use ssv_oracle.Prelude.{
  ℕ, suc, ◌⊎◌, ◌+◌, ◌≡◌, ◌≤◌, ◌∙◌, refl, ap, sym, subst, Option, none, some, List, [], ◌∷◌, ◌==◌,
  ==→≡, All, All-append, All-map, length, length-append, lookup, HasDistinctKeys, sort, All-sort,
  Bool-cases, by_branch, inl, inr, arith,
}
use ssv_oracle.Merkle.Crypto.{Crypto, hash_leaf}
use ssv_oracle.Merkle.Tree.{
  Leaf, Tree, Result, Error, ok, err, get_proof, make_leaves, leaf_hash, finish_tree, new_tree,
}
use ssv_oracle.Merkle.Layers.{process_proof}
use ssv_oracle.Merkle.Proofs.{new_tree-get_proof}
use ssv_oracle.Storage.Clusters.{ClusterRow}
use ssv_oracle.Updater.{
  BalanceResult, balance_of, read_reverted, read_failed, UpdateResult, Answer, Submission,
  Processed, updated, unchanged, error, revert, submit, with_row, process_cluster, Pass, empty_pass,
  add_submission, ReasonClass, stale_cluster, root_gone, other_reason, reason_class, tally,
  tally_reason, process_from, process_all_clusters,
}

-- A submission carries the block, the row that the lookup has for the cluster of the leaf, the balance
-- of the leaf, and the proof that GetProof returns for it.
abbrev pub Carries : ℕ → Tree → Leaf → Answer → Submission → Type 0
Carries block t leaf a s =
    (s.block_num ≡ block)
    × (a.lookup leaf.cluster_id ≡ some (some s.cluster))
    × (s.effective_balance ≡ leaf.effective_balance)
    × (get_proof t leaf.cluster_id ≡ ok s.proof)

abbrev pub AllOf : (Submission → Type 0) → Option Submission → Type 0
AllOf P none = Unit
AllOf P (some s) = P s

Result-cases :
    {A : Type 0} (r : Result A) → ((e : Error) × (r ≡ err e)) ⊎ ((value : A) × (r ≡ ok value))
Result-cases (err e) = inl (e, refl)
Result-cases (ok value) = inr (value, refl)

submit-Carries :
    (block : ℕ) (leaf : Leaf) (t : Tree) (row : ClusterRow) {p : List ℕ} (a : Answer)
    (b : BalanceResult) (u : UpdateResult)
    → a.lookup leaf.cluster_id ≡ some (some row)
    → get_proof t leaf.cluster_id ≡ ok p
    → AllOf (Carries block t leaf a) (submit block leaf row p b u).1
unfolding submit
submit-Carries block leaf t row a read_failed u l h = tt
submit-Carries block leaf t row a (read_reverted reason) u l h = tt
submit-Carries block leaf t row a (balance_of current) u l h =
    elim (Bool-cases (current == leaf.effective_balance)) [
      | inl y ↦ rw y tt
      | inr y ↦ rw y (refl, l, refl, h)
    ]

pub with_row-Carries :
    (block : ℕ) (leaf : Leaf) (t : Tree) (row : Option (Option ClusterRow)) (a : Answer)
    → a.lookup leaf.cluster_id ≡ row
    → AllOf (Carries block t leaf a) (with_row block leaf t row a).1
unfolding with_row
with_row-Carries block leaf t none a l = tt
with_row-Carries block leaf t (some none) a l = tt
with_row-Carries block leaf t (some (some row)) a l =
    elim (Result-cases (get_proof t leaf.cluster_id)) [
      | inl (e, h) ↦ rw (h, with_row) tt
      | inr (p, h) ↦
          rw (h, with_row)
            (submit-Carries block leaf t row {p = p} a a.current_balance a.update l h)
    ]

pub All-add_submission :
    (P : Submission → Type 0) (s : Option Submission) (p : Pass)
    → AllOf P s
    → All P p.submissions
    → All P (add_submission s p).submissions
All-add_submission P none p h w = w
All-add_submission P (some s) p h w = All-append P p.submissions (s ∷ []) w (h, tt)

pub AllOf-map :
    (P R : Submission → Type 0) (o : Option Submission)
    → ((s : Submission) → P s → R s)
    → AllOf P o
    → AllOf R o
AllOf-map P R none f h = tt
AllOf-map P R (some s) f h = f s h

tally-submissions :
    (r : Processed) (leaf : Leaf) (p : Pass) → (tally r leaf p).0.submissions ≡ p.submissions
unfolding tally
tally-submissions updated leaf p = refl
tally-submissions unchanged leaf p = refl
tally-submissions error leaf p = refl
tally-submissions (revert reason) leaf p = by_reason (reason_class reason)
  where
    by_reason : (c : ReasonClass) → (tally_reason c leaf p).0.submissions ≡ p.submissions
    by_reason stale_cluster = refl
    by_reason root_gone = refl
    by_reason other_reason = refl

-- A property of the submissions that follows from their leaf, the answer and what they carry holds
-- through a pass.
process_from-All :
    (block : ℕ) (t : Tree) (Q : Leaf → Type 0) (R : Answer → Type 0) (P : Submission → Type 0)
    → ((leaf : Leaf) (a : Answer) (s : Submission) → Q leaf → R a → Carries block t leaf a s → P s)
    → (leaves : List Leaf) (answers : List Answer) (p : Pass) → All Q leaves
    → All R answers
    → All P p.submissions
    → All P (process_from block t leaves answers p).submissions
unfolding process_from process_cluster
process_from-All block t Q R P f [] answers p q r w = w
process_from-All block t Q R P f (leaf ∷ rest) [] p q r w = w
process_from-All block t Q R P f (leaf ∷ rest) (a ∷ answers) p q g w =
    let (r, s) = process_cluster block leaf t a in
    let n = tally r leaf (add_submission s p) in
    let more : All P n.0.submissions =
      subst (All P) (sym (tally-submissions r leaf (add_submission s p))) (
        All-add_submission P s p
          (AllOf-map (Carries block t leaf a) P s (λ x. f leaf a x q.0 g.0)
            (with_row-Carries block leaf t (a.lookup leaf.cluster_id) a refl))
          w) in
    by_branch (λ x. All P x.submissions) a.context_done n.1 p n.0
      (process_from block t rest answers n.0) w more
      (process_from-All block t Q R P f rest answers n.0 q.1 g.1 more)

entries_lookup :
    (m : List (ℕ × ℕ)) → HasDistinctKeys m → All (λ (e : ℕ × ℕ). lookup e.0 m ≡ some e.1) m
unfolding lookup
entries_lookup [] d = tt
entries_lookup ((k, v) ∷ m) d = (
  ground arith,
  All-map (λ (e : ℕ × ℕ). lookup e.0 m ≡ some e.1)
      (λ (e : ℕ × ℕ). lookup e.0 ((k, v) ∷ m) ≡ some e.1) (λ e h. skip e h) m
      (entries_lookup m d.1),
)
  where
    skip : (e : ℕ × ℕ) → lookup e.0 m ≡ some e.1 → lookup e.0 ((k, v) ∷ m) ≡ some e.1
    skip (j, w) h = elim (Bool-cases (k == j)) [
      | inl y ↦ absurd (cc (ap (λ x. lookup x m) (==→≡ k j y), d.0, h))
      | inr y ↦ rw y h
    ]

-- A leaf of the map: the balance of its cluster, and the hash of both.
abbrev pub IsLeafOf : Crypto → List (ℕ × ℕ) → Leaf → Type 0
IsLeafOf c m leaf =
    (lookup leaf.cluster_id m ≡ some leaf.effective_balance)
    × (leaf.hash ≡ hash_leaf c leaf.cluster_id leaf.effective_balance)

All-make_leaves :
    (c : Crypto) (m es : List (ℕ × ℕ))
    → All (λ (e : ℕ × ℕ). lookup e.0 m ≡ some e.1) es
    → All (IsLeafOf c m) (make_leaves c es)
unfolding make_leaves
All-make_leaves c m [] h = tt
All-make_leaves c m ((k, v) ∷ es) h = ((h.0, refl), All-make_leaves c m es h.1)

finish_tree-leaves : (c : Crypto) (l : List Leaf) → (finish_tree c l).leaves ≡ l
finish_tree-leaves c [] = refl
finish_tree-leaves c (x ∷ []) = refl
finish_tree-leaves c (x ∷ y ∷ l) = refl

pub new_tree-leaves :
    (c : Crypto) (m : List (ℕ × ℕ)) → HasDistinctKeys m → All (IsLeafOf c m) (new_tree c m).leaves
unfolding new_tree
new_tree-leaves c m d =
    subst (All (IsLeafOf c m)) (sym (finish_tree-leaves c (sort (leaf_hash c) (make_leaves c m)))) (
      All-sort (leaf_hash c) (IsLeafOf c m) (make_leaves c m)
        (All-make_leaves c m m (entries_lookup m d)))

-- A call of UpdateClusterBalance for a cluster of the map: it carries the block, the row that a lookup
-- of the pass found for that cluster, the balance of the cluster, and a proof that hashes both up to the
-- root.
pub record IsProven (c : Crypto) (m : List (ℕ × ℕ)) (block : ℕ) (answers : List Answer) (root : ℕ)
    (s : Submission) : Type 0 where
  pub cluster_id : ℕ
  pub answer : Answer
  pub same_block : s.block_num ≡ block
  pub asked : Memᴰ answer answers
  pub found : answer.lookup cluster_id ≡ some (some s.cluster)
  pub balance : lookup cluster_id m ≡ some s.effective_balance
  pub proven : process_proof c (hash_leaf c cluster_id s.effective_balance) s.proof ≡ root

pub submission-IsProven :
    (c : Crypto) (m : List (ℕ × ℕ)) (block : ℕ) (answers : List Answer) (leaf : Leaf) (a : Answer)
    (s : Submission)
    → HasDistinctKeys m
    → IsLeafOf c m leaf
    → Memᴰ a answers
    → Carries block (new_tree c m) leaf a s
    → IsProven c m block answers (new_tree c m).root s
submission-IsProven c m block answers leaf a s d q k (b, l, e, w) =
    let (p, f, r) = new_tree-get_proof c m leaf.cluster_id leaf.effective_balance d q.0 in
    let same : p ≡ s.proof = ground (arith, f, w) in
    record {
      cluster_id = leaf.cluster_id;
      answer = a;
      same_block = b;
      asked = k;
      found = l;
      balance = q.0 ∙ ap some (sym e);
      proven = rw (e, ← same) r;
    }

-- In a pass over the tree of a map, every call of UpdateClusterBalance carries the block, the row that
-- the lookup has for a cluster of the map, the balance of that cluster, and a proof that hashes both up
-- to the root of the tree, whatever the storage, the contract and the context do. No two entries of the
-- map have one key; `all` names answers that include those of the pass.
pub process_all_clusters-IsProven :
    (c : Crypto) (block : ℕ) (m : List (ℕ × ℕ)) (all answers : List Answer)
    → HasDistinctKeys m
    → All (λ a. Memᴰ a all) answers
    → All
        (IsProven c m block all (new_tree c m).root)
        (process_all_clusters block (new_tree c m) answers).submissions
unfolding process_all_clusters
process_all_clusters-IsProven c block m all answers d k =
    process_from-All block (new_tree c m) (IsLeafOf c m) (λ a. Memᴰ a all)
      (IsProven c m block all (new_tree c m).root)
      (λ leaf a s q g w. submission-IsProven c m block all leaf a s d q g w) (new_tree c m).leaves
      answers empty_pass (new_tree-leaves c m d) k tt

abbrev pub counted : Pass → ℕ
counted p = p.updated_count + p.skipped_count + p.failed_count + length p.stale

tally-counted :
    (r : Processed) (leaf : Leaf) (p : Pass) → counted (tally r leaf p).0 ≤ counted p + 1
unfolding tally
tally-counted updated leaf p = omega arith
tally-counted unchanged leaf p = omega arith
tally-counted error leaf p = omega arith
tally-counted (revert reason) leaf p = by_reason (reason_class reason)
  where
    by_reason : (c : ReasonClass) → counted (tally_reason c leaf p).0 ≤ counted p + 1
    by_reason stale_cluster = omega (arith, length-append p.stale (leaf ∷ []))
    by_reason root_gone = omega arith
    by_reason other_reason = omega arith

counted-add_submission :
    (o : Option Submission) (p : Pass) → counted (add_submission o p) ≡ counted p
counted-add_submission none p = refl
counted-add_submission (some s) p = refl

process_from-counted :
    (block : ℕ) (t : Tree) (leaves : List Leaf) (answers : List Answer) (p : Pass)
    → counted (process_from block t leaves answers p) ≤ counted p + length leaves
unfolding process_from
process_from-counted block t [] answers p = omega arith
process_from-counted block t (leaf ∷ rest) [] p = omega arith
process_from-counted block t (leaf ∷ rest) (a ∷ answers) p =
    let (r, s) = process_cluster block leaf t a in
    let q = add_submission s p in
    let n = (tally r leaf q).0 in
    let one : counted n ≤ counted p + 1 =
      subst (λ k. counted n ≤ k + 1) (counted-add_submission s p) (tally-counted r leaf q) in
    let later = process_from-counted block t rest answers n in
    by_branch (λ x. counted x ≤ counted p + suc (length rest)) a.context_done (tally r leaf q).1 p n
      (process_from block t rest answers n) (omega arith) (omega (arith, one))
      (omega (arith, one, later))

-- A pass counts no leaf twice: the updated, skipped, failed and stale leaves are together at most the
-- leaves of the tree.
pub process_all_clusters-counted :
    (block : ℕ) (t : Tree) (answers : List Answer)
    → counted (process_all_clusters block t answers) ≤ length t.leaves
unfolding process_all_clusters
process_all_clusters-counted block t answers =
    omega (arith, process_from-counted block t t.leaves answers empty_pass)
