-- ===== src/Api/Diff/Patched.antt =====
-- For computeDiff: a diff applied to the balances of the previous commit.
use ssv_oracle.Prelude.{
  ℕ, ◌≡◌, refl, ap, sym, ◌∙◌, Bool, true, false, Option, none, some, List, [], ◌∷◌, ◌==◌,
  if◌then◌else◌, lookup, insert, lookup-insert, Bool-cases, Option-cases, inl, inr, ==→≡, arith,
}
use ssv_oracle.Storage.Commits.{ClusterBalance}
use ssv_oracle.Oracle.Balances.{cluster_map}
use ssv_oracle.Api.Diff.{
  ClusterDiff, BalanceEntry, CommitDiff, changed_entry, changed_of, added_entry, added_of,
  has_cluster, removed_of, unless_empty, compute_diff,
}

-- What each list says of a cluster.
unfoldable pub change_at : ℕ → List ClusterDiff → Option ℕ
change_at id [] = none
change_at id (d ∷ rest) = if d.diff_cluster == id then some d.new_balance else change_at id rest

unfoldable pub entry_at : ℕ → List BalanceEntry → Option ℕ
entry_at id [] = none
entry_at id (d ∷ rest) = if d.entry_cluster == id then some d.entry_balance else entry_at id rest

abbrev pub instead : Option ℕ → Option ℕ → Option ℕ
instead none o = o
instead (some n) o = some n

abbrev pub unless_removed : Option ℕ → Option ℕ → Option ℕ
unless_removed none o = o
unless_removed (some n) o = none

-- The balance of a cluster behind a diff, from that before it.
unfoldable pub patched : Option CommitDiff → ℕ → Option ℕ → Option ℕ
unfolding change_at entry_at
patched none id o = o
patched (some d) id o =
    unless_removed (entry_at id d.removed)
      (instead (change_at id d.changed) (instead (entry_at id d.added) o))

-- The first balance of a cluster in a list.
unfoldable pub balance_in : ℕ → List ClusterBalance → Option ℕ
balance_in id [] = none
balance_in id (b ∷ rest) =
    if b.cluster_id == id then some b.effective_balance else balance_in id rest

-- No cluster occurs twice.
abbrev pub HasDistinctClusters : List ClusterBalance → Type 0
HasDistinctClusters [] = Unit
HasDistinctClusters (b ∷ rest) = (balance_in b.cluster_id rest ≡ none) × HasDistinctClusters rest

-- A map of balances has the listed balance of a cluster where it is listed.
lookup-cluster_map_distinct :
    (bs : List ClusterBalance) (m : List (ℕ × ℕ)) (id : ℕ)
    → HasDistinctClusters bs
    → lookup id (cluster_map bs m) ≡ instead (balance_in id bs) (lookup id m)
unfolding cluster_map balance_in
lookup-cluster_map_distinct [] m id h = refl
lookup-cluster_map_distinct (b ∷ bs) m id h = elim (Bool-cases (b.cluster_id == id)) [
  | inl y ↦
      let new : lookup id (insert b.cluster_id b.effective_balance m) ≡ some b.effective_balance =
        lookup-insert b.cluster_id id b.effective_balance m ∙ rw y refl in
      let none_later : balance_in id bs ≡ none =
        ap (λ x. balance_in x bs) (sym (==→≡ b.cluster_id id y)) ∙ h.0 in
      rw y (
        lookup-cluster_map_distinct bs (insert b.cluster_id b.effective_balance m) id h.1
        ∙ rw none_later new)
  | inr z ↦
      let old : lookup id (insert b.cluster_id b.effective_balance m) ≡ lookup id m =
        lookup-insert b.cluster_id id b.effective_balance m ∙ rw z refl in
      rw z (
        lookup-cluster_map_distinct bs (insert b.cluster_id b.effective_balance m) id h.1
        ∙ ap (instead (balance_in id bs)) old)
]

-- A map of balances has nothing new of a cluster that is not listed.
lookup-cluster_map_absent :
    (bs : List ClusterBalance) (m : List (ℕ × ℕ)) (id : ℕ)
    → balance_in id bs ≡ none
    → lookup id (cluster_map bs m) ≡ lookup id m
unfolding cluster_map balance_in
lookup-cluster_map_absent [] m id h = refl
lookup-cluster_map_absent (b ∷ bs) m id h = elim (Bool-cases (b.cluster_id == id)) [
  | inl y ↦ absurd (cc (rw y at h))
  | inr z ↦
      lookup-cluster_map_absent bs (insert b.cluster_id b.effective_balance m) id (rw z at h)
      ∙ lookup-insert b.cluster_id id b.effective_balance m
      ∙ rw z refl
]

change_of : Option ℕ → Option ℕ → Option ℕ
change_of old none = none
change_of none (some n) = none
change_of (some o) (some n) = if o == n then none else some n

addition_of : Option ℕ → Option ℕ → Option ℕ
addition_of old none = none
addition_of none (some n) = some n
addition_of (some o) (some n) = none

instead-none : (o : Option ℕ) → instead o none ≡ o
instead-none none = refl
instead-none (some n) = refl

change_at-changed_entry :
    (b : ClusterBalance) (o : Option ℕ) (rest : List ClusterDiff) (id : ℕ)
    → change_at id (changed_entry b o rest) ≡ (
        if b.cluster_id == id
        then instead (change_of o (some b.effective_balance)) (change_at id rest)
        else change_at id rest)
unfolding change_at change_of
change_at-changed_entry b none rest id = ground arith
change_at-changed_entry b (some old) rest id = ground arith

change_at-changed_of :
    (m : List (ℕ × ℕ)) (cur : List ClusterBalance) (id : ℕ)
    → HasDistinctClusters cur
    → change_at id (changed_of m cur) ≡ change_of (lookup id m) (balance_in id cur)
unfolding changed_of balance_in change_at change_of
change_at-changed_of m [] id h = refl
change_at-changed_of m (b ∷ cur) id h = elim (Bool-cases (b.cluster_id == id)) [
  | inl y ↦
      let at : b.cluster_id ≡ id = ==→≡ b.cluster_id id y in
      let later : change_at id (changed_of m cur) ≡ none =
        change_at-changed_of m cur id h.1
        ∙ ap (change_of (lookup id m)) (ap (λ x. balance_in x cur) (sym at) ∙ h.0) in
      change_at-changed_entry b (lookup b.cluster_id m) (changed_of m cur) id
      ∙ rw (y, later)
          (instead-none _ ∙ ap (λ x. change_of (lookup x m) (some b.effective_balance)) at)
  | inr z ↦
      change_at-changed_entry b (lookup b.cluster_id m) (changed_of m cur) id
      ∙ rw z (change_at-changed_of m cur id h.1)
]

entry_at-added_entry :
    (b : ClusterBalance) (o : Option ℕ) (rest : List BalanceEntry) (id : ℕ)
    → entry_at id (added_entry b o rest) ≡ (
        if b.cluster_id == id
        then instead (addition_of o (some b.effective_balance)) (entry_at id rest)
        else entry_at id rest)
unfolding entry_at addition_of
entry_at-added_entry b none rest id = ground arith
entry_at-added_entry b (some old) rest id = ground arith

entry_at-added_of :
    (m : List (ℕ × ℕ)) (cur : List ClusterBalance) (id : ℕ)
    → HasDistinctClusters cur
    → entry_at id (added_of m cur) ≡ addition_of (lookup id m) (balance_in id cur)
unfolding added_of balance_in entry_at addition_of
entry_at-added_of m [] id h = refl
entry_at-added_of m (b ∷ cur) id h = elim (Bool-cases (b.cluster_id == id)) [
  | inl y ↦
      let at : b.cluster_id ≡ id = ==→≡ b.cluster_id id y in
      let later : entry_at id (added_of m cur) ≡ none =
        entry_at-added_of m cur id h.1
        ∙ ap (addition_of (lookup id m)) (ap (λ x. balance_in x cur) (sym at) ∙ h.0) in
      entry_at-added_entry b (lookup b.cluster_id m) (added_of m cur) id
      ∙ rw (y, later)
          (instead-none _ ∙ ap (λ x. addition_of (lookup x m) (some b.effective_balance)) at)
  | inr z ↦
      entry_at-added_entry b (lookup b.cluster_id m) (added_of m cur) id
      ∙ rw z (entry_at-added_of m cur id h.1)
]

has_balance : Option ℕ → Bool
has_balance none = false
has_balance (some n) = true

has_cluster-balance_in :
    (id : ℕ) (bs : List ClusterBalance) → has_cluster id bs ≡ has_balance (balance_in id bs)
unfolding has_cluster balance_in has_balance
has_cluster-balance_in id [] = refl
has_cluster-balance_in id (b ∷ bs) = ground (arith, has_cluster-balance_in id bs)

unless_removed-none : (o : Option ℕ) → unless_removed o none ≡ none
unless_removed-none none = refl
unless_removed-none (some n) = refl

entry_at-removed_of :
    (cur old : List ClusterBalance) (id : ℕ)
    → entry_at id (removed_of cur old) ≡ unless_removed (balance_in id cur) (balance_in id old)
unfolding entry_at removed_of balance_in has_balance
entry_at-removed_of cur [] id = sym (unless_removed-none (balance_in id cur))
entry_at-removed_of cur (b ∷ old) id = elim (Bool-cases (b.cluster_id == id)) [
  | inl y ↦
      let at : b.cluster_id ≡ id = ==→≡ b.cluster_id id y in
      let there : has_cluster b.cluster_id cur ≡ has_balance (balance_in id cur) =
        ap (λ x. has_cluster x cur) at ∙ has_cluster-balance_in id cur in
      elim (Option-cases (balance_in id cur)) [
        | inl n ↦ rw (there ∙ ap has_balance n, n, y) refl
        | inr (m, e) ↦ rw (there ∙ ap has_balance e, e) (entry_at-removed_of cur old id ∙ rw e refl)
      ]
  | inr z ↦ elim (Bool-cases (has_cluster b.cluster_id cur)) [
    | inl k ↦ rw (k, z) (entry_at-removed_of cur old id)
    | inr k ↦ rw (k, z) (entry_at-removed_of cur old id)
  ]
]

patched-unless_empty :
    (d : CommitDiff) (id : ℕ) (o : Option ℕ) → patched (unless_empty d) id o ≡ patched (some d) id o
unfolding patched entry_at change_at
patched-unless_empty d id o = ground arith

reconcile :
    (old_listed old cur : Option ℕ)
    → (old_listed ≡ none → old ≡ none)
    → unless_removed
        (unless_removed cur old_listed)
        (instead (change_of old cur) (instead (addition_of old cur) old))
      ≡ cur
unfolding change_of addition_of
reconcile none old none h = h refl
reconcile (some l) old none h = refl
reconcile l none (some n) h = refl
reconcile l (some o) (some n) h = ground arith

-- computeDiff is complete and exact: applied to the balances of the previous commit, the diff (a nil
-- one included) gives for every cluster its balance in the current commit, or none where that has no
-- such cluster. No cluster occurs twice in the current commit.
pub patched-compute_diff :
    (prev : ℕ) (old cur : List ClusterBalance) (id : ℕ)
    → HasDistinctClusters cur
    → patched (compute_diff prev old cur) id (lookup id (cluster_map old [])) ≡ balance_in id cur
unfolding compute_diff patched lookup
patched-compute_diff prev old cur id h =
    let m = cluster_map old [] in
    let d : CommitDiff = record {
      previous_epoch = prev;
      changed = changed_of m cur;
      added = added_of m cur;
      removed = removed_of cur old;
    } in
    patched-unless_empty d id (lookup id m)
    ∙ rw
        (
          entry_at-removed_of cur old id,
          change_at-changed_of m cur id h,
          entry_at-added_of m cur id h,
        )
        (reconcile (balance_in id old) (lookup id m) (balance_in id cur)
          (λ n. lookup-cluster_map_absent old [] id n ∙ refl))
