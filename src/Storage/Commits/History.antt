-- ===== src/Storage/Commits/History.antt =====
-- The life of a commit row.
use ssv_oracle.Prelude.{
  ℕ, ◌≡◌, refl, sym, ap, ◌∙◌, Option-cases, ◌⊎◌, inl, inr, Bool-cases, true, ◌&&◌, Option, none,
  some, List, [], ◌∷◌, ◌==◌, if◌then◌else◌, All, arith,
}
use ssv_oracle.Storage.Commits.{
  CommitStatus, pending, ClusterBalance, OracleCommit, commit_of, get_commit_by_block,
  insert_pending_commit, is_pending, with_status, update_commit_status,
}

-- No two rows share an epoch or a reference block.
abbrev pub IsWellFormed : List OracleCommit → Type 0
IsWellFormed [] = Unit
IsWellFormed (c ∷ rest) =
    (commit_of c.target_epoch rest ≡ none)
    × (get_commit_by_block c.reference_block rest ≡ none)
    × IsWellFormed rest

pub commit_of-update :
    (e epoch : ℕ) (st : CommitStatus) (h : Option ℕ) (t : List OracleCommit)
    → commit_of e (update_commit_status epoch st h t) ≡ elim (commit_of e t) [
      | none ↦ none
      | some c ↦
          some (if c.target_epoch == epoch && is_pending c.status then with_status st h c else c)
    ]
unfolding commit_of update_commit_status
commit_of-update e epoch st h [] = refl
commit_of-update e epoch st h (c ∷ t) = ground (arith, commit_of-update e epoch st h t)

get_commit_by_block-update :
    (b epoch : ℕ) (st : CommitStatus) (h : Option ℕ) (t : List OracleCommit)
    → get_commit_by_block b t ≡ none
    → get_commit_by_block b (update_commit_status epoch st h t) ≡ none
unfolding get_commit_by_block update_commit_status
get_commit_by_block-update b epoch st h [] n = refl
get_commit_by_block-update b epoch st h (c ∷ t) n =
    ground (arith, get_commit_by_block-update b epoch st h t)

pub update-IsWellFormed :
    (epoch : ℕ) (st : CommitStatus) (h : Option ℕ) (t : List OracleCommit)
    → IsWellFormed t
    → IsWellFormed (update_commit_status epoch st h t)
unfolding update_commit_status
update-IsWellFormed epoch st h [] w = tt
update-IsWellFormed epoch st h (c ∷ t) w = (
  ground (arith, commit_of-update c.target_epoch epoch st h t, w.0),
  ground (arith, get_commit_by_block-update c.reference_block epoch st h t, w.1),
  update-IsWellFormed epoch st h t w.2,
)

abbrev pub pending_row : ℕ → ℕ → ℕ → List ClusterBalance → OracleCommit
pending_row epoch root block bs = record {
  target_epoch = epoch;
  merkle_root = root;
  reference_block = block;
  cluster_balances = bs;
  status = pending;
  tx_hash = none;
}

-- The insert is ignored, refused, or adds a row whose epoch and block are new.
pub insert-cases :
    (epoch root block : ℕ) (bs : List ClusterBalance) (t : List OracleCommit)
    → ((insert_pending_commit epoch root block bs t ≡ some t)
        ⊎ (insert_pending_commit epoch root block bs t ≡ none))
      ⊎ ((commit_of epoch t ≡ none)
          × (get_commit_by_block block t ≡ none)
          × (insert_pending_commit epoch root block bs t
              ≡ some (pending_row epoch root block bs ∷ t)))
unfolding insert_pending_commit
insert-cases epoch root block bs t = elim (Option-cases (commit_of epoch t)) [
  | inr (c, e) ↦ inl (inl (ground arith))
  | inl e ↦ elim (Option-cases (get_commit_by_block block t)) [
    | inr (c, f) ↦ inl (inr (ground arith))
    | inl f ↦ inr (e, f, ground arith)
  ]
]

pub insert-IsWellFormed :
    (epoch root block : ℕ) (bs : List ClusterBalance) (t : List OracleCommit)
    {u : List OracleCommit}
    → IsWellFormed t
    → insert_pending_commit epoch root block bs t ≡ some u
    → IsWellFormed u
insert-IsWellFormed epoch root block bs t {u} w h = elim (insert-cases epoch root block bs t) [
  | inl (inl same) ↦ let e : t ≡ u = ground arith in rw (← e) w
  | inl (inr refused) ↦ absurd (ground arith)
  | inr (free, new, added) ↦
      let e : pending_row epoch root block bs ∷ t ≡ u = ground arith in rw (← e) (free, new, w)
]

-- The statements that write to the table: InsertPendingCommit, UpdateCommitStatus, and the DELETE of
-- ClearAllState.
pub data Statement : Type 0 where
  insert_pending : ℕ → ℕ → ℕ → List ClusterBalance → Statement
  update_status : ℕ → CommitStatus → Option ℕ → Statement
  delete_all : Statement

abbrev or_else : List OracleCommit → Option (List OracleCommit) → List OracleCommit
or_else t none = t
or_else t (some u) = u

-- A statement that breaks a constraint changes nothing.
unfoldable pub execute : Statement → List OracleCommit → List OracleCommit
execute (insert_pending epoch root block bs) t =
    or_else t (insert_pending_commit epoch root block bs t)
execute (update_status epoch st h) t = update_commit_status epoch st h t
execute delete_all t = []

unfoldable pub execute_all : List Statement → List OracleCommit → List OracleCommit
unfolding execute
execute_all [] t = t
execute_all (x ∷ xs) t = execute_all xs (execute x t)

execute-IsWellFormed :
    (x : Statement) (t : List OracleCommit) → IsWellFormed t → IsWellFormed (execute x t)
unfolding execute
execute-IsWellFormed (update_status epoch st h) t w = update-IsWellFormed epoch st h t w
execute-IsWellFormed delete_all t w = tt
execute-IsWellFormed (insert_pending epoch root block bs) t w =
    elim (Option-cases (insert_pending_commit epoch root block bs t)) [
      | inl e ↦ rw e w
      | inr (u, e) ↦ rw e (insert-IsWellFormed epoch root block bs t w e)
    ]

-- Whatever statements run, no two rows come to share an epoch or a reference block.
pub execute_all-IsWellFormed :
    (xs : List Statement) (t : List OracleCommit) → IsWellFormed t → IsWellFormed (execute_all xs t)
unfolding execute_all
execute_all-IsWellFormed [] t w = w
execute_all-IsWellFormed (x ∷ xs) t w =
    execute_all-IsWellFormed xs (execute x t) (execute-IsWellFormed x t w)

-- What a row may become: its epoch, root, block and balances stay, and a row that is no longer
-- pending stays whole.
pub record Becomes (a b : OracleCommit) : Type 0 where
  pub epoch : b.target_epoch ≡ a.target_epoch
  pub root : b.merkle_root ≡ a.merkle_root
  pub block : b.reference_block ≡ a.reference_block
  pub balances : b.cluster_balances ≡ a.cluster_balances
  pub settled : (b ≡ a) ⊎ (a.status ≡ pending)

Becomes-refl : (a : OracleCommit) → Becomes a a
Becomes-refl a = record {
  epoch = refl;
  root = refl;
  block = refl;
  balances = refl;
  settled = inl refl;
}

Becomes-trans : (a b c : OracleCommit) → Becomes a b → Becomes b c → Becomes a c
Becomes-trans a b c p q = record {
  epoch = q.epoch ∙ p.epoch;
  root = q.root ∙ p.root;
  block = q.block ∙ p.block;
  balances = q.balances ∙ p.balances;
  settled = elim p.settled [
    | inr pend ↦ inr pend
    | inl same ↦ elim q.settled [
      | inl same' ↦ inl (same' ∙ same)
      | inr pend ↦ inr (ap (λ (x : OracleCommit). x.status) (sym same) ∙ pend)
    ]
  ];
}

is_pending-eq : (s : CommitStatus) → is_pending s ≡ true → s ≡ pending
is_pending-eq s h = ground arith

update-Becomes :
    (e epoch : ℕ) (st : CommitStatus) (h : Option ℕ) (t : List OracleCommit) {a : OracleCommit}
    → commit_of e t ≡ some a
    → (b : OracleCommit) × (commit_of e (update_commit_status epoch st h t) ≡ some b) × Becomes a b
update-Becomes e epoch st h t {a} f =
    elim (Bool-cases (a.target_epoch == epoch && is_pending a.status)) [
      | inl x ↦ (
        with_status st h a,
        ground (arith, commit_of-update e epoch st h t),
        record {
          epoch = refl;
          root = refl;
          block = refl;
          balances = refl;
          settled = inr (is_pending-eq a.status (ground arith));
        },
      )
      | inr x ↦ (a, ground (arith, commit_of-update e epoch st h t), Becomes-refl a)
    ]

insert-Becomes :
    (e epoch root block : ℕ) (bs : List ClusterBalance) (t : List OracleCommit) {a : OracleCommit}
    → commit_of e t ≡ some a
    → commit_of e (or_else t (insert_pending_commit epoch root block bs t)) ≡ some a
unfolding commit_of
insert-Becomes e epoch root block bs t f = elim (insert-cases epoch root block bs t) [
  | inl (inl same) ↦ rw same f
  | inl (inr refused) ↦ rw refused f
  | inr (free, new, added) ↦ rw added (ground arith)
]

-- The statements other than the DELETE of ClearAllState.
abbrev pub IsKeeping : Statement → Type 0
IsKeeping delete_all = ⊥
IsKeeping _ = Unit

execute-Becomes :
    (x : Statement) (e : ℕ) (t : List OracleCommit) {a : OracleCommit}
    → IsKeeping x
    → commit_of e t ≡ some a
    → (b : OracleCommit) × (commit_of e (execute x t) ≡ some b) × Becomes a b
unfolding execute
execute-Becomes (update_status epoch st h) e t k f = update-Becomes e epoch st h t f
execute-Becomes delete_all e t k f = absurd k
execute-Becomes (insert_pending epoch root block bs) e t {a} k f =
    (a, insert-Becomes e epoch root block bs t f, Becomes-refl a)

-- Once a commit of an epoch is stored, it stays stored whatever inserts and updates of the status
-- run, with its root, reference block and balances; and once it is confirmed or failed nothing of it
-- changes again. The statements do not include the DELETE of ClearAllState.
pub execute_all-Becomes :
    (xs : List Statement) (e : ℕ) (t : List OracleCommit) {a : OracleCommit}
    → All IsKeeping xs
    → commit_of e t ≡ some a
    → (b : OracleCommit) × (commit_of e (execute_all xs t) ≡ some b) × Becomes a b
unfolding execute_all
execute_all-Becomes [] e t {a} k f = (a, f, Becomes-refl a)
execute_all-Becomes (x ∷ xs) e t {a} k f =
    let (b, p, q) = execute-Becomes x e t k.0 f in
    let (c, r, s) = execute_all-Becomes xs e (execute x t) k.1 p in (c, r, Becomes-trans a b c q s)
