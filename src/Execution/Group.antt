-- ===== src/Execution/Group.antt =====
-- eth/execution/client.go: groupLogsByBlock.
pub mod Sorted
pub mod Blocks
use ssv_oracle.Prelude.{
  ℕ, ◌+◌, Bool, true, false, not, Option, none, some, List, [], ◌∷◌, ◌++◌, ltb, ◌==◌, if◌then◌else◌,
  lookup,
}

-- types.Log: the fields that the program reads. Topics are 32-byte values.
pub record Log : Type 0 where
  pub block_number : ℕ
  pub tx_index : ℕ
  pub index : ℕ
  pub topics : List ℕ
  pub payload : List ℕ
  pub tx_hash : ℕ
  pub block_hash : ℕ

pub record BlockLogs : Type 0 where
  pub block_number : ℕ
  pub block_time : ℕ
  pub logs : List Log

-- The order of sort.Slice: by block number, then transaction index, then log index.
unfoldable pub less : Log → Log → Bool
less a b =
    if not (a.block_number == b.block_number)
    then ltb a.block_number b.block_number
    else if not (a.tx_index == b.tx_index)
    then ltb a.tx_index b.tx_index
    else ltb a.index b.index

unfoldable pub insert_log : Log → List Log → List Log
insert_log x [] = x ∷ []
insert_log x (y ∷ ys) = if less y x then y ∷ insert_log x ys else x ∷ y ∷ ys

unfoldable pub sort_logs : List Log → List Log
unfolding insert_log
sort_logs [] = []
sort_logs (x ∷ xs) = insert_log x (sort_logs xs)

abbrev pub cons_group : BlockLogs → Option (List BlockLogs) → Option (List BlockLogs)
cons_group g none = none
cons_group g (some gs) = some (g ∷ gs)

-- The loop, with the group that is the last of `result` so far; `none` is the error for a block
-- without a time.
unfoldable pub group_from : List (ℕ × ℕ) → BlockLogs → List Log → Option (List BlockLogs)
group_from times g [] = some (g ∷ [])
group_from times g (l ∷ ls) = elim (g.block_number == l.block_number) [
  | true ↦ group_from times (record g { logs = g.logs ++ l ∷ [] }) ls
  | false ↦ elim (lookup l.block_number times) [
    | none ↦ none
    | some t ↦ cons_group g (
        group_from times (record { block_number = l.block_number; block_time = t; logs = l ∷ [] })
          ls)
  ]
]

unfoldable pub group_sorted : List (ℕ × ℕ) → List Log → Option (List BlockLogs)
unfolding group_from
group_sorted times [] = some []
group_sorted times (l ∷ ls) = elim (lookup l.block_number times) [
  | none ↦ none
  | some t ↦
      group_from times (record { block_number = l.block_number; block_time = t; logs = l ∷ [] }) ls
]

-- groupLogsByBlock
unfoldable pub group_logs_by_block : List (ℕ × ℕ) → List Log → Option (List BlockLogs)
unfolding sort_logs group_sorted
group_logs_by_block times logs = group_sorted times (sort_logs logs)
