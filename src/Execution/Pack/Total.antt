-- ===== src/Execution/Pack/Total.antt =====
-- For packLogs: its result where the node answers.
use mathlib.Core.List.{Permᴰ}
use ssv_oracle.Prelude.{
  ℕ, zero, suc, ◌≤◌, ◌≡◌, ◌≢◌, refl, ap, sym, ◌∙◌, Bool, true, Option, some, List, [], ◌∷◌, ◌++◌,
  length, take, drop, flat, take-drop, length-drop, ◌==◌, ==→≡, ==_refl, lookup, insert,
  lookup-insert, All, Bool-cases, inl, inr, arith,
}
use ssv_oracle.Oracle.Balances.Seen.{All-is_seen}
use ssv_oracle.Oracle.Balances.{is_seen}
use ssv_oracle.Execution.Group.{
  Log, BlockLogs, less, insert_log, sort_logs, cons_group, group_from, group_sorted,
  group_logs_by_block,
}
use ssv_oracle.Execution.Group.Sorted.{InChainOrder}
use ssv_oracle.Execution.Group.Blocks.{IsGroup, BlocksRise, logs_of, group_logs_by_block-IsGrouping}
use ssv_oracle.Execution.Pack.{
  unique_from, chunks, read_times, fetch_times, get_block_timestamps, grouped_with, pack_logs,
}

flat-chunks : (fuel : ℕ) (xs : List ℕ) → length xs ≤ fuel → flat (chunks fuel xs) ≡ xs
unfolding chunks
flat-chunks zero [] h = refl
flat-chunks zero (x ∷ xs) h = absurd (omega (arith, h))
flat-chunks (suc fuel) [] h = refl
flat-chunks (suc fuel) (x ∷ xs) h =
    ap (λ l. take 100 (x ∷ xs) ++ l)
      (flat-chunks fuel (drop 100 (x ∷ xs)) (omega (arith, h, length-drop 100 (x ∷ xs))))
    ∙ take-drop 100 (x ∷ xs)

unique_from-All :
    (P : ℕ → Type 0) (seen : List ℕ) (ls : List Log)
    → All P seen
    → All P (unique_from seen ls)
    → All (λ (l : Log). P l.block_number) ls
unfolding unique_from
unique_from-All P seen [] s h = tt
unique_from-All P seen (l ∷ ls) s h = elim (Bool-cases (is_seen l.block_number seen)) [
  | inl y ↦ (All-is_seen P l.block_number seen s y, unique_from-All P seen ls s (rw y at h))
  | inr z ↦ let k = rw z at h in (k.0, unique_from-All P (l.block_number ∷ seen) ls (k.0, s) k.1)
]

insert_log-All :
    (P : Log → Type 0) (x : Log) (ls : List Log) → P x → All P ls → All P (insert_log x ls)
unfolding insert_log
insert_log-All P x [] p h = (p, tt)
insert_log-All P x (y ∷ ls) p h = elim (Bool-cases (less y x)) [
  | inl k ↦ rw k (h.0, insert_log-All P x ls p h.1)
  | inr k ↦ rw k (p, h)
]

sort_logs-All : (P : Log → Type 0) (ls : List Log) → All P ls → All P (sort_logs ls)
unfolding sort_logs
sort_logs-All P [] h = tt
sort_logs-All P (l ∷ ls) h = insert_log-All P l (sort_logs ls) h.0 (sort_logs-All P ls h.1)

some_injective : {a b : ℕ} → some a ≡ some b → a ≡ b
some_injective e = cc

-- A group is one block: it holds logs of its block only, at least one, and has the time of the block.
pub record IsBlock (time : ℕ → ℕ) (g : BlockLogs) : Type 0 where
  pub one_block : All (λ (l : Log). l.block_number ≡ g.block_number) g.logs
  pub not_empty : g.logs ≢ []
  pub header_time : g.block_time ≡ time g.block_number

module _ (time : ℕ → ℕ) where
  -- The map with the times of the blocks.
  unfoldable pub stamp : List ℕ → List (ℕ × ℕ) → List (ℕ × ℕ)
  stamp [] m = m
  stamp (b ∷ bs) m = stamp bs (insert b (time b) m)

  stamp-append : (xs ys : List ℕ) (m : List (ℕ × ℕ)) → stamp (xs ++ ys) m ≡ stamp ys (stamp xs m)
  unfolding stamp
  stamp-append [] ys m = refl
  stamp-append (x ∷ xs) ys m = stamp-append xs ys (insert x (time x) m)

  abbrev pub HasTime : List (ℕ × ℕ) → ℕ → Type 0
  HasTime m b = lookup b m ≡ some (time b)

  insert-HasTime : (b k : ℕ) (m : List (ℕ × ℕ)) → HasTime m k → HasTime (insert b (time b) m) k
  insert-HasTime b k m h = elim (Bool-cases (b == k)) [
    | inl y ↦ lookup-insert b k (time b) m ∙ rw y (ap (λ x. some (time x)) (==→≡ b k y))
    | inr z ↦ lookup-insert b k (time b) m ∙ rw z h
  ]

  stamp-HasTime : (bs : List ℕ) (k : ℕ) (m : List (ℕ × ℕ)) → HasTime m k → HasTime (stamp bs m) k
  unfolding stamp
  stamp-HasTime [] k m h = h
  stamp-HasTime (b ∷ bs) k m h = stamp-HasTime bs k (insert b (time b) m) (insert-HasTime b k m h)

  stamp-All : (bs : List ℕ) (m : List (ℕ × ℕ)) → All (HasTime (stamp bs m)) bs
  unfolding stamp
  stamp-All [] m = tt
  stamp-All (b ∷ bs) m = (
    stamp-HasTime bs b (insert b (time b) m) (lookup-insert b b (time b) m ∙ rw (==_refl b) refl),
    stamp-All bs (insert b (time b) m),
  )

  -- A map that has no other times.
  abbrev IsStamped : List (ℕ × ℕ) → Type 0
  IsStamped m = (k t : ℕ) → lookup k m ≡ some t → t ≡ time k

  stamp-IsStamped : (bs : List ℕ) (m : List (ℕ × ℕ)) → IsStamped m → IsStamped (stamp bs m)
  unfolding stamp
  stamp-IsStamped [] m h = h
  stamp-IsStamped (b ∷ bs) m h = stamp-IsStamped bs (insert b (time b) m) (λ k t e.
      elim (Bool-cases (b == k)) [
        | inl y ↦
            let at : b ≡ k = ==→≡ b k y in
            let here : lookup k (insert b (time b) m) ≡ some (time b) =
              lookup-insert b k (time b) m ∙ rw y refl in
            let both : some t ≡ some (time b) = sym e ∙ here in some_injective both ∙ ap time at
        | inr z ↦
            let same : lookup k (insert b (time b) m) ≡ lookup k m =
              lookup-insert b k (time b) m ∙ rw z refl in
            h k t (sym same ∙ e)
      ])

  group-IsBlock :
      (times : List (ℕ × ℕ)) (gs : List BlockLogs)
      → IsStamped times
      → All (IsGroup times) gs
      → All (IsBlock time) gs
  group-IsBlock times [] w h = tt
  group-IsBlock times (g ∷ gs) w h = (
    record {
      one_block = h.0.one_block;
      not_empty = h.0.not_empty;
      header_time = w g.block_number g.block_time h.0.timed;
    },
    group-IsBlock times gs w h.1,
  )

  -- Logs whose blocks have a time are grouped.
  group_from_total :
      (times : List (ℕ × ℕ)) (g : BlockLogs) (ls : List Log)
      → All (λ (l : Log). HasTime times l.block_number) ls
      → (gs : List BlockLogs) × (group_from times g ls ≡ some gs)
  unfolding group_from
  group_from_total times g [] h = (g ∷ [], refl)
  group_from_total times g (l ∷ ls) h = elim (Bool-cases (g.block_number == l.block_number)) [
    | inl y ↦
        rw (group_from, y) (group_from_total times (record g { logs = g.logs ++ l ∷ [] }) ls h.1)
    | inr z ↦
        let (gs, e) =
          group_from_total times
            (record {
              block_number = l.block_number;
              block_time = time l.block_number;
              logs = l ∷ [];
            })
            ls h.1 in
        rw (group_from, z, h.0) (g ∷ gs, ap (cons_group g) e)
  ]

  group_sorted_total :
      (times : List (ℕ × ℕ)) (ls : List Log)
      → All (λ (l : Log). HasTime times l.block_number) ls
      → (gs : List BlockLogs) × (group_sorted times ls ≡ some gs)
  unfolding group_sorted
  group_sorted_total times [] h = ([], refl)
  group_sorted_total times (l ∷ ls) h = rw (group_sorted, h.0) (group_from_total times _ ls h.1)

-- The node answers every batch call, and has a header for every block.
abbrev pub IsReachable : (List ℕ → Bool) → (ℕ → Option ℕ) → (ℕ → ℕ) → Type 0
IsReachable call header time =
    ((chunk : List ℕ) → call chunk ≡ true) × ((b : ℕ) → header b ≡ some (time b))

module _ (call : List ℕ → Bool) (header : ℕ → Option ℕ) (time : ℕ → ℕ)
    (node : IsReachable call header time) where
  read_times-stamp :
      (bs : List ℕ) (m : List (ℕ × ℕ)) → read_times header bs m ≡ some (stamp time bs m)
  unfolding read_times stamp
  read_times-stamp [] m = refl
  read_times-stamp (b ∷ bs) m =
      rw (read_times, node.1 b) (read_times-stamp bs (insert b (time b) m))

  fetch_times-stamp :
      (cs : List (List ℕ)) (m : List (ℕ × ℕ))
      → fetch_times call header cs m ≡ some (stamp time (flat cs) m)
  unfolding fetch_times stamp
  fetch_times-stamp [] m = refl
  fetch_times-stamp (c ∷ cs) m =
      rw (fetch_times, node.0 c, read_times-stamp c m)
        (fetch_times-stamp cs (stamp time c m) ∙ ap some (sym (stamp-append time c (flat cs) m)))

  get_block_timestamps-stamp :
      (bs : List ℕ) → get_block_timestamps call header bs ≡ some (stamp time bs [])
  unfolding get_block_timestamps
  get_block_timestamps-stamp bs =
      fetch_times-stamp (chunks (length bs) bs) []
      ∙ ap (λ l. some (stamp time l [])) (flat-chunks (length bs) bs (omega arith))

  -- Where the node answers the batch calls and has a header for each block, packLogs does not fail: it
  -- returns groups that hold exactly the given logs, as often, in the order of block, transaction and log
  -- index; each group has at least one log, only logs of its block, and the time in the header of that
  -- block; and block numbers rise strictly from group to group.
  pub pack_logs-IsGrouping :
      (logs : List Log)
      → (gs : List BlockLogs) × (pack_logs call header logs ≡ some gs)
        × InChainOrder (logs_of gs)
        × Permᴰ (logs_of gs) logs
        × BlocksRise gs
        × All (IsBlock time) gs
  unfolding pack_logs logs_of group_logs_by_block lookup
  pack_logs-IsGrouping [] = ([], refl, tt, Permᴰ.nil, tt, tt)
  pack_logs-IsGrouping (l ∷ ls) =
      let blocks = unique_from [] (l ∷ ls) in
      let times = stamp time blocks [] in
      let known = unique_from-All (HasTime time times) [] (l ∷ ls) tt (stamp-All time blocks []) in
      let (gs, e) =
        group_sorted_total time times (sort_logs (l ∷ ls))
          (sort_logs-All (λ (x : Log). HasTime time times x.block_number) (l ∷ ls) known) in
      let grouped : group_logs_by_block times (l ∷ ls) ≡ some gs = e in
      let (r, ordered, same) = group_logs_by_block-IsGrouping times (l ∷ ls) gs grouped in
      (
        gs,
        ap (λ o. grouped_with o (l ∷ ls)) (get_block_timestamps-stamp blocks) ∙ grouped,
        ordered,
        same,
        r.rise,
        group-IsBlock time times gs (stamp-IsStamped time blocks [] (λ k t e'. absurd (cc e')))
            r.groups,
      )
