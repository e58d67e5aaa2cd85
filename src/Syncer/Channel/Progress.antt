-- ===== src/Syncer/Channel/Progress.antt =====
-- How far a sync gets.
use ssv_oracle.Prelude.{
  ℕ, ◌+◌, ◌≡◌, ◌⊎◌, ◌≤◌, ◌<◌, refl, ap, ◌∙◌, Bool, true, false, not, none, some, List, [], ◌∷◌,
  ◌++◌, map, leb, if◌then◌else◌, u64_mod, All, length, Option-cases, inl, inr, arith,
}
use ssv_oracle.Merkle.Crypto.{Crypto}
use ssv_oracle.Storage.Clusters.{Tables, update_last_synced_block}
use ssv_oracle.Execution.BatchSize.{AdaptiveBatchSize}
use ssv_oracle.Execution.BatchSize.Bounds.{IsWithin}
use ssv_oracle.Execution.Fetch.{
  Round, Batch, Ending, complete, fetch_failed, pack_failed, callback_failed, context_done, running,
  fetch_logs,
}
use ssv_oracle.Execution.Fetch.Covers.{
  Tiles, IsCovered, IsSmooth, fetch_logs-IsCovered, fetch_logs_terminates,
}
use ssv_oracle.Execution.Group.{BlockLogs}
use ssv_oracle.Syncer.Parser.{Abi}
use ssv_oracle.Syncer.State.{
  BatchResult, fetched, process_blocks, process_batch, sync_batches, sync_to_block,
}
use ssv_oracle.Syncer.Channel.{closing, channel}
use ssv_oracle.Syncer.State.Readable.{AreReadable, process_batch-some}

module _ (c : Crypto) (abi : Abi) where
  -- The cursor moves with the transaction.
  process_batch-cursor :
      (batch_end : ℕ) (blocks : List BlockLogs) (t : Tables)
      → (((process_batch c abi batch_end blocks t).1 ≡ none)
          × ((process_batch c abi batch_end blocks t).0 ≡ t))
        ⊎ ((k : ℕ) × ((process_batch c abi batch_end blocks t).1 ≡ some k)
            × ((process_batch c abi batch_end blocks t).0.last_synced ≡ batch_end))
  unfolding process_batch update_last_synced_block
  process_batch-cursor batch_end [] t = inr (0, refl, refl)
  process_batch-cursor batch_end (bl ∷ rest) t =
      elim (Option-cases (process_blocks c abi (bl ∷ rest) t 0)) [
        | inl n ↦ inl (rw (n, process_batch) refl, rw (n, process_batch) refl)
        | inr ((u, k), e) ↦ inr (k, rw (e, process_batch) refl, rw (e, process_batch) refl)
      ]

pub if-true : (b d : Bool) → (if b then d else false) ≡ true → b ≡ true
if-true b d h = ground arith

-- What a sync from `t` reaches of the blocks before `e`.
pub record Reaches (t : Tables) (e : ℕ) (r : Tables × Bool) : Type 0 where
  pub forward : t.last_synced ≤ r.0.last_synced
  pub within : r.0.last_synced + 1 ≤ e
  pub whole : r.1 ≡ true → r.0.last_synced + 1 ≡ e

pub Tiles-le : (max f e : ℕ) (bs : List Batch) → Tiles max f bs e → f ≤ e
Tiles-le max f e [] h = omega (arith, h)
Tiles-le max f e (b ∷ bs) h = omega (arith, h.0, h.1, Tiles-le max (b.last + 1) e bs h.3)

module _ (c : Crypto) (abi : Abi) (logs : Batch → List BlockLogs) where
  abbrev sent : List Batch → Ending → List BatchResult
  sent bs x = map (λ b. fetched b.last (logs b)) bs ++ closing x

  sync_batches-closing :
      (t : Tables) (e : ℕ) (x : Ending)
      → t.last_synced + 1 ≤ e
      → (x ≡ complete → t.last_synced + 1 ≡ e)
      → Reaches t e (sync_batches c abi (closing x) t)
  unfolding sync_batches
  sync_batches-closing t e complete h d = record {
    forward = omega arith;
    within = h;
    whole = λ z. d refl;
  }
  sync_batches-closing t e fetch_failed h d = record {
    forward = omega arith;
    within = h;
    whole = λ z. cc;
  }
  sync_batches-closing t e pack_failed h d = record {
    forward = omega arith;
    within = h;
    whole = λ z. cc;
  }
  sync_batches-closing t e callback_failed h d = record {
    forward = omega arith;
    within = h;
    whole = λ z. cc;
  }
  sync_batches-closing t e context_done h d = record {
    forward = omega arith;
    within = h;
    whole = λ z. cc;
  }
  sync_batches-closing t e running h d = record {
    forward = omega arith;
    within = h;
    whole = λ z. cc;
  }

  sync_batches-Reaches :
      (max f e goal : ℕ) (bs : List Batch) (x : Ending) (t : Tables)
      → Tiles max f bs e
      → e ≤ goal
      → (x ≡ complete → e ≡ goal)
      → t.last_synced + 1 ≡ f
      → Reaches t goal (sync_batches c abi (sent bs x) t)
  unfolding sync_batches
  sync_batches-Reaches max f e goal [] x t h g d p =
      sync_batches-closing t goal x (omega (arith, p, h, g)) (λ z. p ∙ h ∙ d z)
  sync_batches-Reaches max f e goal (b ∷ bs) x t h g d p =
      elim (process_batch-cursor c abi b.last (logs b) t) [
        | inl (n, same) ↦
            let le = Tiles-le max (b.last + 1) e bs h.3 in
            rw (n, sync_batches)
              (record {
                forward = omega (arith, ap (λ (u : Tables). u.last_synced) same);
                within = omega (arith, ap (λ (u : Tables). u.last_synced) same, p, h.0, h.1, le, g);
                whole = λ z. cc;
              })
        | inr (k, y, cursor) ↦
            let u = (process_batch c abi b.last (logs b) t).0 in
            let more =
              sync_batches-Reaches max (b.last + 1) e goal bs x u h.3 g d
                (ap (λ n. n + 1) cursor) in
            rw (y, sync_batches)
              (record {
                forward = omega (arith, more.forward, cursor, p, h.0, h.1);
                within = more.within;
                whole = more.whole;
              })
      ]

  sync_batches-true :
      (bs : List Batch) (t : Tables)
      → ((b : Batch) → AreReadable c abi (logs b))
      → (sync_batches c abi (sent bs complete) t).1 ≡ true
  unfolding sync_batches
  sync_batches-true [] t h = refl
  sync_batches-true (b ∷ bs) t h =
      let (k, e) = process_batch-some c abi b.last (logs b) t (h b) in
      rw (e, sync_batches) (sync_batches-true bs (process_batch c abi b.last (logs b) t).0 h)

  -- SyncToBlock fed by FetchLogs, from a cursor before the target: whatever the node answers and
  -- however the call ends, the cursor does not go back and does not pass the target, and it is at the
  -- target where the call succeeds. The batch size is within its bounds.
  pub sync_to_block-Reaches :
      (size : AdaptiveBatchSize) (target : ℕ) (rounds : List Round) (context_done : Bool)
      (t : Tables)
      → IsWithin size
      → target + size.max < u64_mod
      → t.last_synced < target
      → Reaches t (target + 1) (
          sync_to_block c abi target
            (channel logs (fetch_logs size (t.last_synced + 1) target rounds))
            context_done
            t)
  unfolding sync_to_block channel
  sync_to_block-Reaches size target rounds done t w m l =
      let x = fetch_logs size (t.last_synced + 1) target rounds in
      let k : IsCovered size.max (t.last_synced + 1) target x =
        fetch_logs-IsCovered rounds size (t.last_synced + 1) target w m (omega (arith, l)) in
      let r =
        sync_batches-Reaches size.max (t.last_synced + 1) k.end (target + 1) x.batches x.ending t
          k.tiles k.end_le k.done refl in
      let behind : leb target t.last_synced ≡ false = ground (arith, l) in
      rw behind (record {
        forward = r.forward;
        within = r.within;
        whole = λ z. r.whole (if-true _ (not done) z);
      })

  -- SyncToBlock catches up: where nothing fails on the way to the node, the node gives enough passes,
  -- and every log that it returns can be read, the call succeeds and the cursor is at the target.
  pub sync_to_block_catches_up :
      (size : AdaptiveBatchSize) (target : ℕ) (rounds : List Round) (t : Tables)
      → IsWithin size
      → target + size.max < u64_mod
      → t.last_synced < target
      → All IsSmooth rounds
      → target ≤ t.last_synced + length rounds
      → ((b : Batch) → AreReadable c abi (logs b))
      → ((sync_to_block c abi target
            (channel logs (fetch_logs size (t.last_synced + 1) target rounds))
            false
            t).1
          ≡ true)
        × ((sync_to_block c abi target
              (channel logs (fetch_logs size (t.last_synced + 1) target rounds))
              false
              t).0.last_synced
            ≡ target)
  unfolding sync_to_block channel
  sync_to_block_catches_up size target rounds t w m l s n h =
      let x = fetch_logs size (t.last_synced + 1) target rounds in
      let r = sync_to_block-Reaches size target rounds false t w m l in
      let ends : x.ending ≡ complete =
        fetch_logs_terminates rounds size (t.last_synced + 1) target w m s (omega (arith, n)) in
      let behind : leb target t.last_synced ≡ false = ground (arith, l) in
      let fine : (sync_batches c abi (sent x.batches x.ending) t).1 ≡ true =
        ap (λ e. (sync_batches c abi (sent x.batches e) t).1) ends
        ∙ sync_batches-true x.batches t h in
      let succeeds : (sync_to_block c abi target (channel logs x) false t).1 ≡ true =
        rw (behind, fine) refl in
      (succeeds, omega (arith, r.whole succeeds))
