-- ===== src/Storage/Commits/Queries.antt =====
-- What the queries over oracle_commits return.
use ssv_oracle.Prelude.{
  ℕ, ◌≤◌, ◌<◌, ◌≡◌, ap, sym, ◌∙◌, subst, inl, inr, tests, Bool-cases, Option-cases, true, false,
  Option, none, some, List, [], ◌∷◌, ltb, ◌==◌, if◌then◌else◌, All, All-map, arith,
}
use ssv_oracle.Storage.Commits.{
  CommitStatus, confirmed, OracleCommit, is_confirmed, newer, max_opt, min_opt, commit_of,
  get_latest_commit, prev_epoch, next_epoch, get_commit_by_epoch,
}

-- The greatest confirmed epoch, or none where no row is confirmed.
abbrev pub IsLatest : List OracleCommit → Option OracleCommit → Type 0
IsLatest t none = All (λ (c : OracleCommit). is_confirmed c.status ≡ false) t
IsLatest t (some d) =
    (d.status ≡ confirmed)
    × All (λ (c : OracleCommit). is_confirmed c.status ≡ true → c.target_epoch ≤ d.target_epoch) t

is_confirmed-eq : (s : CommitStatus) → is_confirmed s ≡ true → s ≡ confirmed
is_confirmed-eq s h = ground arith

IsLatest-step :
    (c : OracleCommit) (t : List OracleCommit) (o : Option OracleCommit)
    → IsLatest t o
    → IsLatest (c ∷ t) (if is_confirmed c.status then some (newer c o) else o)
IsLatest-step c t none h = elim (Bool-cases (is_confirmed c.status)) [
  | inl y ↦ rw y (
    is_confirmed-eq c.status y,
    (
      (λ z. omega arith),
      All-map (λ (x : OracleCommit). is_confirmed x.status ≡ false)
          (λ (x : OracleCommit). is_confirmed x.status ≡ true → x.target_epoch ≤ c.target_epoch)
          (λ x n z. cc) t h,
    ),
  )
  | inr n ↦ rw n (n, h)
]
IsLatest-step c t (some d) h = elim (Bool-cases (is_confirmed c.status)) [
  | inr n ↦ rw n (h.0, ((λ z. cc), h.1))
  | inl y ↦ elim (Bool-cases (ltb c.target_epoch d.target_epoch)) [
    | inl l ↦
        let e : (if is_confirmed c.status then some (newer c (some d)) else some d) ≡ some d =
          rw (y, l) in
        subst (IsLatest (c ∷ t)) (sym e) (h.0, ((λ z. omega (tests, l)), h.1))
    | inr l ↦
        let e : (if is_confirmed c.status then some (newer c (some d)) else some d) ≡ some c =
          rw (y, l) in
        subst (IsLatest (c ∷ t)) (sym e) (
          is_confirmed-eq c.status y,
          (
            (λ z. omega arith),
            All-map
                (λ (x : OracleCommit).
                  is_confirmed x.status ≡ true → x.target_epoch ≤ d.target_epoch)
                (λ (x : OracleCommit).
                  is_confirmed x.status ≡ true → x.target_epoch ≤ c.target_epoch)
                (λ x f z. omega (tests, l, f z)) t h.1,
          ),
        )
  ]
]

-- GetLatestCommit returns a confirmed commit with the greatest epoch among the confirmed ones, or
-- nothing if there is none.
pub get_latest_commit-IsLatest : (t : List OracleCommit) → IsLatest t (get_latest_commit t)
unfolding get_latest_commit
get_latest_commit-IsLatest [] = tt
get_latest_commit-IsLatest (c ∷ t) =
    IsLatest-step c t (get_latest_commit t) (get_latest_commit-IsLatest t)

-- The next lower and the next higher epoch that have a row.
abbrev pub IsPrev : ℕ → List OracleCommit → Option ℕ → Type 0
IsPrev e t none = All (λ (c : OracleCommit). e ≤ c.target_epoch) t
IsPrev e t (some p) =
    (p < e)
    × ((c : OracleCommit) × (commit_of p t ≡ some c))
    × All (λ (c : OracleCommit). c.target_epoch < e → c.target_epoch ≤ p) t

abbrev pub IsNext : ℕ → List OracleCommit → Option ℕ → Type 0
IsNext e t none = All (λ (c : OracleCommit). c.target_epoch ≤ e) t
IsNext e t (some n) =
    (e < n)
    × ((c : OracleCommit) × (commit_of n t ≡ some c))
    × All (λ (c : OracleCommit). e < c.target_epoch → n ≤ c.target_epoch) t

commit_of-cons :
    (e : ℕ) (c : OracleCommit) (t : List OracleCommit) {d : OracleCommit}
    → commit_of e t ≡ some d
    → (x : OracleCommit) × (commit_of e (c ∷ t) ≡ some x)
unfolding commit_of
commit_of-cons e c t {d} h = elim (Bool-cases (c.target_epoch == e)) [
  | inl y ↦ (c, rw y)
  | inr n ↦ (d, rw n h)
]

commit_of_head :
    (c : OracleCommit) (t : List OracleCommit) → commit_of c.target_epoch (c ∷ t) ≡ some c
unfolding commit_of
commit_of_head c t = ground arith

IsPrev-step :
    (e : ℕ) (c : OracleCommit) (t : List OracleCommit) (o : Option ℕ)
    → IsPrev e t o
    → IsPrev e (c ∷ t) (if ltb c.target_epoch e then some (max_opt c.target_epoch o) else o)
IsPrev-step e c t none h = elim (Bool-cases (ltb c.target_epoch e)) [
  | inr n ↦ rw n (omega (tests, n), h)
  | inl l ↦ rw l (
    omega (tests, l),
    (c, commit_of_head c t),
    (
      (λ z. omega arith),
      All-map (λ (x : OracleCommit). e ≤ x.target_epoch)
          (λ (x : OracleCommit). x.target_epoch < e → x.target_epoch ≤ c.target_epoch)
          (λ x f z. absurd (omega arith)) t h,
    ),
  )
]
IsPrev-step e c t (some p) h = elim (Bool-cases (ltb c.target_epoch e)) [
  | inr n ↦ rw n (h.0, commit_of-cons p c t h.1.1, ((λ z. absurd (omega (tests, n))), h.2))
  | inl l ↦ elim (Bool-cases (ltb c.target_epoch p)) [
    | inl m ↦
        let e₁ : (if ltb c.target_epoch e then some (max_opt c.target_epoch (some p)) else some p)
            ≡ some p =
          rw (l, m) in
        subst (IsPrev e (c ∷ t)) (sym e₁)
          (h.0, commit_of-cons p c t h.1.1, ((λ z. omega (tests, m)), h.2))
    | inr m ↦
        let e₁ : (if ltb c.target_epoch e then some (max_opt c.target_epoch (some p)) else some p)
            ≡ some c.target_epoch =
          rw (l, m) in
        subst (IsPrev e (c ∷ t)) (sym e₁) (
          omega (tests, l),
          (c, commit_of_head c t),
          (
            (λ z. omega arith),
            All-map (λ (x : OracleCommit). x.target_epoch < e → x.target_epoch ≤ p)
                (λ (x : OracleCommit). x.target_epoch < e → x.target_epoch ≤ c.target_epoch)
                (λ x f z. omega (tests, m, f z)) t h.2,
          ),
        )
  ]
]

IsNext-step :
    (e : ℕ) (c : OracleCommit) (t : List OracleCommit) (o : Option ℕ)
    → IsNext e t o
    → IsNext e (c ∷ t) (if ltb e c.target_epoch then some (min_opt c.target_epoch o) else o)
IsNext-step e c t none h = elim (Bool-cases (ltb e c.target_epoch)) [
  | inr n ↦ rw n (omega (tests, n), h)
  | inl l ↦ rw l (
    omega (tests, l),
    (c, commit_of_head c t),
    (
      (λ z. omega arith),
      All-map (λ (x : OracleCommit). x.target_epoch ≤ e)
          (λ (x : OracleCommit). e < x.target_epoch → c.target_epoch ≤ x.target_epoch)
          (λ x f z. absurd (omega arith)) t h,
    ),
  )
]
IsNext-step e c t (some p) h = elim (Bool-cases (ltb e c.target_epoch)) [
  | inr n ↦ rw n (h.0, commit_of-cons p c t h.1.1, ((λ z. absurd (omega (tests, n))), h.2))
  | inl l ↦ elim (Bool-cases (ltb p c.target_epoch)) [
    | inl m ↦
        let e₁ : (if ltb e c.target_epoch then some (min_opt c.target_epoch (some p)) else some p)
            ≡ some p =
          rw (l, m) in
        subst (IsNext e (c ∷ t)) (sym e₁)
          (h.0, commit_of-cons p c t h.1.1, ((λ z. omega (tests, m)), h.2))
    | inr m ↦
        let e₁ : (if ltb e c.target_epoch then some (min_opt c.target_epoch (some p)) else some p)
            ≡ some c.target_epoch =
          rw (l, m) in
        subst (IsNext e (c ∷ t)) (sym e₁) (
          omega (tests, l),
          (c, commit_of_head c t),
          (
            (λ z. omega arith),
            All-map (λ (x : OracleCommit). e < x.target_epoch → p ≤ x.target_epoch)
                (λ (x : OracleCommit). e < x.target_epoch → c.target_epoch ≤ x.target_epoch)
                (λ x f z. omega (tests, m, f z)) t h.2,
          ),
        )
  ]
]

prev_epoch-IsPrev : (e : ℕ) (t : List OracleCommit) → IsPrev e t (prev_epoch e t)
unfolding prev_epoch
prev_epoch-IsPrev e [] = tt
prev_epoch-IsPrev e (c ∷ t) = IsPrev-step e c t (prev_epoch e t) (prev_epoch-IsPrev e t)

next_epoch-IsNext : (e : ℕ) (t : List OracleCommit) → IsNext e t (next_epoch e t)
unfolding next_epoch
next_epoch-IsNext e [] = tt
next_epoch-IsNext e (c ∷ t) = IsNext-step e c t (next_epoch e t) (next_epoch-IsNext e t)

-- GetCommitByEpoch returns the row of the epoch where there is one, with the greatest smaller epoch
-- and the least greater epoch that have a row, and nothing for those at the ends of the table.
pub get_commit_by_epoch_neighbours :
    (e : ℕ) (t : List OracleCommit) {c : OracleCommit} {prev next : Option ℕ}
    → get_commit_by_epoch e t ≡ some (c, prev, next)
    → (commit_of e t ≡ some c) × IsPrev e t prev × IsNext e t next
unfolding get_commit_by_epoch
get_commit_by_epoch_neighbours e t {c} {prev} {next} h = elim (Option-cases (commit_of e t)) [
  | inl n ↦ absurd (ground arith)
  | inr (d, f) ↦
      let same : (d ≡ c) × (prev_epoch e t ≡ prev) × (next_epoch e t ≡ next) = ground arith in
      (
        f ∙ ap some same.0,
        subst (IsPrev e t) same.1 (prev_epoch-IsPrev e t),
        subst (IsNext e t) same.2 (next_epoch-IsNext e t),
      )
]
