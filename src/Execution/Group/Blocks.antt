-- ===== src/Execution/Group/Blocks.antt =====
-- For groupLogsByBlock: what its groups hold.
use mathlib.Core.List.{Permᴰ, append_assoc}
use ssv_oracle.Prelude.{
  ℕ, ◌≤◌, ◌<◌, ◌≡◌, ◌≢◌, refl, ap, sym, ◌∙◌, inl, inr, Bool-cases, Option-cases, true, false,
  Option, none, some, List, [], ◌∷◌, ◌++◌, ◌==◌, lookup, All, All-append, All-map, arith,
}
use ssv_oracle.Execution.Group.{
  Log, BlockLogs, less, sort_logs, cons_group, group_from, group_sorted, group_logs_by_block,
}
use ssv_oracle.Execution.Group.Sorted.{InChainOrder, sort_logs-InChainOrder, sort_logs-Permᴰ}

-- The logs of all groups, one after the other.
unfoldable pub logs_of : List BlockLogs → List Log
logs_of [] = []
logs_of (g ∷ gs) = g.logs ++ logs_of gs

-- A group holds logs of its block only, at least one, and has the block's time.
pub record IsGroup (times : List (ℕ × ℕ)) (g : BlockLogs) : Type 0 where
  pub one_block : All (λ (l : Log). l.block_number ≡ g.block_number) g.logs
  pub not_empty : g.logs ≢ []
  pub timed : lookup g.block_number times ≡ some g.block_time

-- Block numbers rise strictly.
abbrev pub BlocksRise : List BlockLogs → Type 0
BlocksRise [] = Unit
BlocksRise (g ∷ gs) = All (λ (h : BlockLogs). g.block_number < h.block_number) gs × BlocksRise gs

append-ne-nil : (l : List Log) (x : Log) → (l ++ x ∷ []) ≢ []
append-ne-nil [] x = λ e. cc
append-ne-nil (y ∷ l) x = λ e. cc

not_less-block-le : (x y : Log) → less y x ≡ false → x.block_number ≤ y.block_number
unfolding less
not_less-block-le x y h = ground arith

extend-IsGroup :
    (times : List (ℕ × ℕ)) (g : BlockLogs) (l : Log)
    → IsGroup times g
    → (g.block_number == l.block_number) ≡ true
    → IsGroup times (record g { logs = g.logs ++ l ∷ [] })
extend-IsGroup times g l h e = record {
  one_block =
      All-append (λ (x : Log). x.block_number ≡ g.block_number) g.logs (l ∷ []) h.one_block
        (ground arith, tt);
  not_empty = append-ne-nil g.logs l;
  timed = h.timed;
}

-- What grouping promises of its result, for the group in hand and the logs to come.
pub record IsGrouping (times : List (ℕ × ℕ)) (logs : List Log) (gs : List BlockLogs) : Type 0 where
  pub all_logs : logs_of gs ≡ logs
  pub groups : All (IsGroup times) gs
  pub rise : BlocksRise gs

cons_group-some :
    (g : BlockLogs) (o : Option (List BlockLogs)) {gs : List BlockLogs}
    → cons_group g o ≡ some gs
    → (hs : List BlockLogs) × (o ≡ some hs) × (g ∷ hs ≡ gs)
cons_group-some g none e = absurd (ground arith)
cons_group-some g (some hs) e = (hs, refl, ground arith)

abbrev extended : BlockLogs → Log → BlockLogs
extended g l = record g { logs = g.logs ++ l ∷ [] }

abbrev opened : ℕ → Log → BlockLogs
opened t l = record { block_number = l.block_number; block_time = t; logs = l ∷ [] }

module _ (times : List (ℕ × ℕ)) (g : BlockLogs) (l : Log) (ls : List Log) where
  group_from_same :
      (g.block_number == l.block_number) ≡ true
      → group_from times g (l ∷ ls) ≡ group_from times (extended g l) ls
  unfolding group_from
  group_from_same e = rw (e, group_from)

  group_from_missing :
      (g.block_number == l.block_number) ≡ false
      → lookup l.block_number times ≡ none
      → group_from times g (l ∷ ls) ≡ none
  unfolding group_from
  group_from_missing e f = rw (e, f, group_from)

  group_from_new :
      {t : ℕ}
      → (g.block_number == l.block_number) ≡ false
      → lookup l.block_number times ≡ some t
      → group_from times g (l ∷ ls) ≡ cons_group g (group_from times (opened t l) ls)
  unfolding group_from
  group_from_new e f = rw (e, f, group_from)

opened-IsGroup :
    (times : List (ℕ × ℕ)) (t : ℕ) (l : Log)
    → lookup l.block_number times ≡ some t
    → IsGroup times (opened t l)
opened-IsGroup times t l e = record { one_block = (refl, tt); not_empty = λ x. cc; timed = e }

not_before :
    (l : Log) (ls : List Log)
    → All (λ y. less y l ≡ false) ls
    → All (λ (y : Log). l.block_number ≤ y.block_number) ls
not_before l ls =
    All-map (λ y. less y l ≡ false) (λ (y : Log). l.block_number ≤ y.block_number)
      (λ y. not_less-block-le l y) ls

-- A finished group in front of the groups of later blocks.
cons-IsGrouping :
    (times : List (ℕ × ℕ)) (g : BlockLogs) (n : ℕ) (ls : List Log) (hs : List BlockLogs)
    → IsGroup times g
    → g.block_number < n
    → IsGrouping times ls hs × All (λ (h : BlockLogs). n ≤ h.block_number) hs
    → IsGrouping times (g.logs ++ ls) (g ∷ hs)
      × All (λ (h : BlockLogs). g.block_number ≤ h.block_number) (g ∷ hs)
unfolding logs_of
cons-IsGrouping times g n ls hs k l (r, b) = (
  record {
    all_logs = ap (λ x. g.logs ++ x) r.all_logs;
    groups = (k, r.groups);
    rise = (
      All-map (λ (h : BlockLogs). n ≤ h.block_number)
          (λ (h : BlockLogs). g.block_number < h.block_number) (λ h x. omega arith) hs b,
      r.rise,
    );
  },
  (
    omega arith,
    All-map (λ (h : BlockLogs). n ≤ h.block_number)
        (λ (h : BlockLogs). g.block_number ≤ h.block_number) (λ h x. omega arith) hs b,
  ),
)

-- Every group that comes out lies at or behind the block in hand.
group_from-IsGrouping :
    (times : List (ℕ × ℕ)) (g : BlockLogs) (ls : List Log) (gs : List BlockLogs)
    → IsGroup times g
    → All (λ (l : Log). g.block_number ≤ l.block_number) ls
    → InChainOrder ls
    → group_from times g ls ≡ some gs
    → IsGrouping times (g.logs ++ ls) gs
      × All (λ (h : BlockLogs). g.block_number ≤ h.block_number) gs
unfolding group_from logs_of
group_from-IsGrouping times g [] gs k b o e =
    let same : g ∷ [] ≡ gs = ground arith in
    rw (← same) (record { all_logs = refl; groups = (k, tt); rise = (tt, tt) }, (omega arith, tt))
group_from-IsGrouping times g (l ∷ ls) gs k b o e =
    elim (Bool-cases (g.block_number == l.block_number)) [
      | inl same ↦
          let (r, q) =
            group_from-IsGrouping times (extended g l) ls gs (extend-IsGroup times g l k same) b.1
              o.1 (sym (group_from_same times g l ls same) ∙ e) in
          (
            record {
              all_logs = r.all_logs ∙ append_assoc g.logs (l ∷ []) ls;
              groups = r.groups;
              rise = r.rise;
            },
            q,
          )
      | inr other ↦ elim (Option-cases (lookup l.block_number times)) [
        | inl missing ↦ absurd (ground (arith, group_from_missing times g l ls other missing))
        | inr (t, found) ↦
            let (hs, p, q) =
              cons_group-some g (group_from times (opened t l) ls)
                (sym (group_from_new times g l ls other found) ∙ e) in
            rw (← q) (
              cons-IsGrouping times g l.block_number (l ∷ ls) hs k (ground arith) (
                group_from-IsGrouping times (opened t l) ls hs (opened-IsGroup times t l found)
                  (not_before l ls o.0) o.1 p))
      ]
    ]

group_sorted-IsGrouping :
    (times : List (ℕ × ℕ)) (ls : List Log) (gs : List BlockLogs)
    → InChainOrder ls
    → group_sorted times ls ≡ some gs
    → IsGrouping times ls gs
unfolding group_sorted logs_of
group_sorted-IsGrouping times [] gs o e =
    let same : [] ≡ gs = ground arith in
    rw (← same) (record { all_logs = refl; groups = tt; rise = tt })
group_sorted-IsGrouping times (l ∷ ls) gs o e = elim (Option-cases (lookup l.block_number times)) [
  | inl missing ↦ absurd (ground arith)
  | inr (t, found) ↦
      (group_from-IsGrouping times (opened t l) ls gs (opened-IsGroup times t l found)
        (not_before l ls o.0) o.1 (sorted_step t found e)).0
]
  where
    sorted_step :
        (t : ℕ)
        → lookup l.block_number times ≡ some t
        → group_sorted times (l ∷ ls) ≡ some gs
        → group_from times (opened t l) ls ≡ some gs
    sorted_step t f h = rw (f, group_sorted) at h

-- When groupLogsByBlock returns groups, they hold exactly the given logs, as often, in the order of
-- block, transaction and log index; each group has at least one log, only logs of its block, and
-- that block's time; and block numbers rise strictly from group to group.
pub group_logs_by_block-IsGrouping :
    (times : List (ℕ × ℕ)) (logs : List Log) (gs : List BlockLogs)
    → group_logs_by_block times logs ≡ some gs
    → IsGrouping times (logs_of gs) gs × InChainOrder (logs_of gs) × Permᴰ (logs_of gs) logs
unfolding group_logs_by_block
group_logs_by_block-IsGrouping times logs gs e =
    let r = group_sorted-IsGrouping times (sort_logs logs) gs (sort_logs-InChainOrder logs) e in
    rw r.all_logs (r, sort_logs-InChainOrder logs, sort_logs-Permᴰ logs)
