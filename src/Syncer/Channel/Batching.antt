-- ===== src/Syncer/Channel/Batching.antt =====
-- For SyncToBlock: the tables of a sync in batches, and those of one batch with all the blocks.
use mathlib.Core.List.{append_assoc}
use ssv_oracle.Prelude.{
  ℕ, zero, suc, ◌+◌, ◌-◌, ◌≤◌, ◌<◌, ◌≡◌, refl, ap, sym, subst, ◌∙◌, inl, inr, Bool, true, false,
  not, Option, none, some, List, [], ◌∷◌, ◌++◌, map, leb, u64_mod, Option-cases, arith,
}
use ssv_oracle.Merkle.Crypto.{Crypto}
use ssv_oracle.Storage.Clusters.{Tables}
use ssv_oracle.Execution.BatchSize.{AdaptiveBatchSize}
use ssv_oracle.Execution.BatchSize.Bounds.{IsWithin}
use ssv_oracle.Execution.Fetch.{
  Round, Batch, Ending, complete, fetch_failed, pack_failed, callback_failed, context_done, running,
  Fetched, fetch_logs,
}
use ssv_oracle.Execution.Fetch.Covers.{Tiles, IsCovered, fetch_logs-IsCovered}
use ssv_oracle.Execution.Group.{BlockLogs}
use ssv_oracle.Syncer.Parser.{Abi}
use ssv_oracle.Syncer.State.{fetched, process_blocks, process_batch, sync_batches, sync_to_block}
use ssv_oracle.Syncer.Channel.{closing, channel}
use ssv_oracle.Syncer.Channel.Progress.{if-true, Tiles-le}
use ssv_oracle.Syncer.State.Cursor.{
  moved, shifted, process_blocks-shifted, process_blocks-append, process_batch-process_blocks,
  process_batch-whole,
}

-- The blocks of the chain that have logs, `count` blocks from `first` on.
abbrev of_block : Option BlockLogs → List BlockLogs
of_block none = []
of_block (some bl) = bl ∷ []

unfoldable pub blocks_between : (ℕ → Option BlockLogs) → ℕ → ℕ → List BlockLogs
blocks_between chain first zero = []
blocks_between chain first (suc count) =
    of_block (chain first) ++ blocks_between chain (first + 1) count

blocks_between-add :
    (chain : ℕ → Option BlockLogs) (first m n : ℕ)
    → blocks_between chain first (m + n)
      ≡ blocks_between chain first m ++ blocks_between chain (first + m) n
unfolding blocks_between
blocks_between-add chain first zero n =
    let a : zero + n ≡ n = omega arith in let b : first + zero ≡ first = omega arith in rw (a, b)
blocks_between-add chain first (suc m) n =
    let a : suc m + n ≡ suc (m + n) = omega arith in
    let b : first + suc m ≡ first + 1 + m = omega arith in
    rw (a, b)
      (ap (λ l. of_block (chain first) ++ l) (blocks_between-add chain (first + 1) m n)
        ∙ sym (append_assoc (of_block (chain first)) _ _))

module _ (c : Crypto) (abi : Abi) (chain : ℕ → Option BlockLogs) (logs : Batch → List BlockLogs)
    (of_chain : (b : Batch) → logs b ≡ blocks_between chain b.first (b.last + 1 - b.first)) where
  -- A run over the blocks from `f` to just before `e`, which ends with the tables of `r`.
  abbrev Replays : ℕ → ℕ → Tables → Tables → Type 0
  Replays f e t r =
      (u : Tables) × (k : ℕ) × (process_blocks c abi (blocks_between chain f (e - f)) t 0
        ≡ some (u, k))
      × (r ≡ moved (e - 1) u)

  Replays-join :
      (f last e : ℕ) (t u r : Tables) (k : ℕ)
      → f ≤ last + 1
      → last + 1 ≤ e
      → process_blocks c abi (blocks_between chain f (last + 1 - f)) t 0 ≡ some (u, k)
      → Replays (last + 1) e (moved last u) r
      → Replays f e t r
  Replays-join f last e t u r k fm me h (v, j, run, same) =
      let m : ℕ = last + 1 in
      let split : e - f ≡ m - f + (e - m) = omega arith in
      let back : f + (m - f) ≡ m = omega arith in
      let zero_k : 0 + k ≡ k = omega arith in
      let tail = blocks_between chain m (e - m) in
      (
        moved u.last_synced v,
        j + k,
        ap (λ n. process_blocks c abi (blocks_between chain f n) t 0) split
            ∙ ap (λ l. process_blocks c abi l t 0) (blocks_between-add chain f (m - f) (e - m))
            ∙ process_blocks-append c abi (blocks_between chain f (m - f)) _ t u 0 k h
            ∙ ap (λ n. process_blocks c abi (blocks_between chain n (e - m)) u k) back
            ∙ ap (λ n. process_blocks c abi tail u n) (sym zero_k)
            ∙ process_blocks-shifted c abi tail u.last_synced k (moved last u) 0
            ∙ ap (shifted u.last_synced k) run,
        same,
      )

  sync_batches-Replays :
      (max f e : ℕ) (bs : List Batch) (t : Tables)
      → Tiles max f bs e
      → t.last_synced + 1 ≡ f
      → (sync_batches c abi (map (λ b. fetched b.last (logs b)) bs ++ []) t).1 ≡ true
      → Replays f e t (sync_batches c abi (map (λ b. fetched b.last (logs b)) bs ++ []) t).0
  unfolding sync_batches blocks_between
  sync_batches-Replays max f e [] t h p z =
      let none_left : e - f ≡ 0 = omega (arith, h) in
      (
        t,
        0,
        rw (none_left, blocks_between, process_blocks),
        ap (λ n. moved n t) (omega (arith, h, p)),
      )
  sync_batches-Replays max f e (b ∷ bs) t h p z =
      elim (Option-cases (process_batch c abi b.last (logs b) t).1) [
        | inl x ↦ absurd (ground (arith, x, z))
        | inr (k, x) ↦
            let (u, run, same) = process_batch-whole c abi b.last (logs b) t k x in
            let s = (process_batch c abi b.last (logs b) t).0 in
            let more : Replays (b.last + 1) e s
                (sync_batches c abi (map (λ b. fetched b.last (logs b)) bs ++ []) s).0 =
              sync_batches-Replays max (b.last + 1) e bs s h.3
                (ap (λ (v : Tables). v.last_synced + 1) same) (rw (x, sync_batches) at z) in
            let blocks : logs b ≡ blocks_between chain f (b.last + 1 - f) =
              of_chain b ∙ ap (λ n. blocks_between chain n (b.last + 1 - n)) h.0 in
            rw (x, sync_batches)
              (Replays-join f b.last e t u _ k (omega (arith, h.0, h.1))
                (Tiles-le max (b.last + 1) e bs h.3)
                (ap (λ l. process_blocks c abi l t 0) (sym blocks) ∙ run)
                (subst
                  (λ v.
                    Replays (b.last + 1) e v
                      (sync_batches c abi (map (λ b. fetched b.last (logs b)) bs ++ []) s).0)
                  same more))
      ]

  -- A call of FetchLogs that fails leaves an error in the channel, so that the sync fails.
  sync_batches-fails :
      (bs : List Batch) (x : Ending) (t : Tables)
      → (sync_batches c abi (map (λ b. fetched b.last (logs b)) bs ++ closing x) t).1 ≡ true
      → x ≡ complete
  unfolding sync_batches
  sync_batches-fails [] complete t z = refl
  sync_batches-fails [] fetch_failed t z = absurd (cc)
  sync_batches-fails [] pack_failed t z = absurd (cc)
  sync_batches-fails [] callback_failed t z = absurd (cc)
  sync_batches-fails [] context_done t z = absurd (cc)
  sync_batches-fails [] running t z = absurd (cc)
  sync_batches-fails (b ∷ bs) x t z =
      elim (Option-cases (process_batch c abi b.last (logs b) t).1) [
        | inl y ↦ absurd (ground (arith, y, z))
        | inr (k, y) ↦
            sync_batches-fails bs x (process_batch c abi b.last (logs b) t).0
              (rw (y, sync_batches) at z)
      ]

  abbrev after : Fetched → Tables → Tables × Bool
  after x t =
      sync_batches c abi (map (λ b. fetched b.last (logs b)) x.batches ++ closing x.ending) t

  covered-Replays :
      (max target : ℕ) (x : Fetched) (t : Tables)
      → IsCovered max (t.last_synced + 1) target x
      → (after x t).1 ≡ true
      → Replays (t.last_synced + 1) (target + 1) t (after x t).0
  covered-Replays max target x t cover z =
      let ends = sync_batches-fails x.batches x.ending t z in
      let whole = ap (λ y. after (record x { ending = y }) t) ends in
      let run =
        sync_batches-Replays max (t.last_synced + 1) cover.end x.batches t cover.tiles refl
          (ap (λ r. r.1) (sym whole) ∙ z) in
      subst (λ e. Replays (t.last_synced + 1) e t (after x t).0) (cover.done ends)
        (subst (λ (r : Tables × Bool). Replays (t.last_synced + 1) cover.end t r.0) (sym whole) run)

  -- The tables of a sync that succeeds do not depend on its batches: whatever sizes they had and
  -- whatever passes failed on the way, they are the tables of one batch with all the blocks behind
  -- the cursor up to the target, and that batch is processed without an error. The logs of a batch
  -- are those of the chain's blocks in its range, the batch size is within its bounds, and the cursor
  -- is before the target.
  pub sync_to_block-process_batch :
      (size : AdaptiveBatchSize) (target : ℕ) (rounds : List Round) (context_done : Bool)
      (t : Tables)
      → IsWithin size
      → target + size.max < u64_mod
      → t.last_synced < target
      → (sync_to_block c abi target
          (channel logs (fetch_logs size (t.last_synced + 1) target rounds))
          context_done
          t).1
        ≡ true
      → (k : ℕ) × (process_batch c abi target
            (blocks_between chain (t.last_synced + 1) (target - t.last_synced))
            t
          ≡ (
            (sync_to_block c abi target
                (channel logs (fetch_logs size (t.last_synced + 1) target rounds))
                context_done
                t).0,
            some k,
          ))
  unfolding sync_to_block channel
  sync_to_block-process_batch size target rounds done t w m l z =
      let f = t.last_synced + 1 in
      let x = fetch_logs size f target rounds in
      let cover : IsCovered size.max f target x =
        fetch_logs-IsCovered rounds size f target w m (omega (arith, l)) in
      let behind : leb target t.last_synced ≡ false = ground (arith, l) in
      let (u, k, run, same) =
        covered-Replays size.max target x t cover (if-true _ (not done) (rw behind at z)) in
      let width : target + 1 - f ≡ target - t.last_synced = omega (arith, l) in
      let back : target + 1 - 1 ≡ target = omega arith in
      (
        k,
        process_batch-process_blocks c abi target (blocks_between chain f (target - t.last_synced))
              t u k
              (ap (λ n. process_blocks c abi (blocks_between chain f n) t 0) (sym width) ∙ run)
            ∙ rw behind (ap (λ v. (v, some k)) (ap (λ n. moved n u) (sym back) ∙ sym same)),
      )
