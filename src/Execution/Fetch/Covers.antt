-- ===== src/Execution/Fetch/Covers.antt =====
-- For FetchLogs: the blocks that its batches cover.
use ssv_oracle.Prelude.{
  ℕ, ◌+◌, ◌≤◌, ◌<◌, ◌≡◌, refl, ◌∙◌, inl, inr, true, false, Bool-cases, Option, none, some, List, [],
  ◌∷◌, leb, leb→le, tests, if◌then◌else◌, u64, u64_mod, All, length, Text, arith,
}
use ssv_oracle.Execution.BatchSize.{AdaptiveBatchSize, decrease, increase}
use ssv_oracle.Execution.BatchSize.Bounds.{IsWithin, decrease-IsWithin, increase-IsWithin}
use ssv_oracle.Execution.Errors.{
  BatchErrorCategory, uncategorized, block_range, rate_limit, payload_too_large, timeout,
  categorize, fetch_error,
}
use ssv_oracle.Execution.Fetch.{
  Round, Batch, Ending, complete, running, fetch_failed, pack_failed, callback_failed, context_done,
  Fetched, batch_end, ended, deliver, after_error, after_logs, fetch_logs,
}

-- The batches follow one another without a gap or an overlap, from `f` to just before `e`, and each
-- has at least one and at most `max` blocks.
abbrev pub Tiles : ℕ → ℕ → List Batch → ℕ → Type 0
Tiles max f [] e = f ≡ e
Tiles max f (b ∷ rest) e =
    (b.first ≡ f) × (b.first ≤ b.last) × (b.last < b.first + max) × Tiles max (b.last + 1) rest e

-- What a call returns for the blocks from `f` to `t`.
pub record IsCovered (max f t : ℕ) (x : Fetched) : Type 0 where
  pub end : ℕ
  pub tiles : Tiles max f x.batches end
  pub end_le : end ≤ t + 1
  pub done : x.ending ≡ complete → end ≡ t + 1

batch_end_bounds :
    (a : AdaptiveBatchSize) (current t : ℕ)
    → IsWithin a
    → t + a.max < u64_mod
    → current ≤ t
    → (current ≤ batch_end a current t)
      × (batch_end a current t ≤ t)
      × (batch_end a current t < current + a.max)
unfolding batch_end
batch_end_bounds a current t h m l = ground arith

ended-IsCovered :
    (a : AdaptiveBatchSize) (e : Ending) (max f t : ℕ)
    → f ≤ t + 1
    → (e ≡ complete → f ≡ t + 1)
    → IsCovered max f t (ended a e)
ended-IsCovered a e max f t h d = record { end = f; tiles = refl; end_le = h; done = d }

deliver-IsCovered :
    (max f t last : ℕ) (x : Fetched)
    → f ≤ last
    → last < f + max
    → IsCovered max (last + 1) t x
    → IsCovered max f t (deliver (record { first = f; last = last }) x)
deliver-IsCovered max f t last x h k c = record {
  end = c.end;
  tiles = (refl, h, k, c.tiles);
  end_le = c.end_le;
  done = c.done;
}

after_error-IsCovered :
    (a : AdaptiveBatchSize) (max f t last : ℕ) (r : Round) (inner : Text) (again : Fetched)
    → f ≤ t
    → IsCovered max f t again
    → IsCovered max f t (after_error a f last r inner again)
unfolding after_error
after_error-IsCovered a max f t last r inner again l c = on (categorize (fetch_error f last inner))
  where
    stopped : (e : Ending) → (e ≡ complete → ⊥) → IsCovered max f t (ended a e)
    stopped e n = ended-IsCovered a e max f t (omega arith) (λ h. absurd (n h))

    retried : IsCovered max f t (if r.context_done_on_error then ended a context_done else again)
    retried = elim (Bool-cases r.context_done_on_error) [
      | inl e ↦ rw e (stopped context_done (λ h. cc))
      | inr e ↦ rw e c
    ]

    on :
        (x : BatchErrorCategory)
        → IsCovered max f t (elim x [
          | uncategorized ↦ ended a fetch_failed
          | _ ↦ if r.context_done_on_error then ended a context_done else again
        ])
    on uncategorized = stopped fetch_failed (λ h. cc)
    on block_range = retried
    on rate_limit = retried
    on payload_too_large = retried
    on timeout = retried

after_logs-IsCovered :
    (a : AdaptiveBatchSize) (max f t last : ℕ) (r : Round) (next : Fetched)
    → f ≤ last
    → last ≤ t
    → last < f + max
    → IsCovered max (last + 1) t next
    → IsCovered max f t (after_logs a (record { first = f; last = last }) r next)
unfolding after_logs
after_logs-IsCovered a max f t last r next h l k c = elim (Bool-cases r.packs) [
  | inr e ↦ rw e (ended-IsCovered (increase a) pack_failed max f t (omega arith) (λ x. cc))
  | inl e ↦ elim (Bool-cases r.callback_accepts) [
    | inr g ↦
        rw (e, g) (ended-IsCovered (increase a) callback_failed max f t (omega arith) (λ x. cc))
    | inl g ↦ elim (Bool-cases r.context_done) [
      | inl d ↦
          rw (e, g, d)
            (deliver-IsCovered max f t last _ h k
              (ended-IsCovered (increase a) context_done max (last + 1) t (omega arith) (λ x. cc)))
      | inr d ↦ rw (e, g, d) (deliver-IsCovered max f t last _ h k c)
    ]
  ]
]

max-increase : (a : AdaptiveBatchSize) → (increase a).max ≡ a.max
unfolding increase
max-increase a = refl

next_block : (last t max : ℕ) → last ≤ t → 1 ≤ max → t + max < u64_mod → u64 (last + 1) ≡ last + 1
next_block last t max h k m = omega arith

pass-IsCovered :
    (a : AdaptiveBatchSize) (f t : ℕ) (r : Round) (o : Option Text) (again next : Fetched)
    → IsWithin a
    → t + a.max < u64_mod
    → f ≤ t
    → IsCovered a.max f t again
    → IsCovered a.max (batch_end a f t + 1) t next
    → IsCovered a.max f t (elim o [
      | some inner ↦ after_error a f (batch_end a f t) r inner again
      | none ↦ after_logs a (record { first = f; last = batch_end a f t }) r next
    ])
pass-IsCovered a f t r (some inner) again next w m l c d =
    after_error-IsCovered a a.max f t (batch_end a f t) r inner again l c
pass-IsCovered a f t r none again next w m l c d =
    let (x, y, z) = batch_end_bounds a f t w m l in
    after_logs-IsCovered a a.max f t (batch_end a f t) r next x y z d

-- Whatever the node, the callback and the context do, the batches that the callback accepted tile a
-- range that starts at the first block and ends at most at the last one, in batches of one block up
-- to the maximum; and when the call reports success the range is the whole of it. The batch size is
-- within its bounds, and the last block plus the maximum does not pass 2^64.
pub fetch_logs-IsCovered :
    (rounds : List Round) (a : AdaptiveBatchSize) (f t : ℕ)
    → IsWithin a
    → t + a.max < u64_mod
    → f ≤ t + 1
    → IsCovered a.max f t (fetch_logs a f t rounds)
unfolding fetch_logs decrease increase
fetch_logs-IsCovered [] a f t w m h = elim (Bool-cases (leb f t)) [
  | inl e ↦ rw (e, fetch_logs) (ended-IsCovered a running a.max f t h (λ x. cc))
  | inr e ↦ rw (e, fetch_logs) (ended-IsCovered a complete a.max f t h (λ x. omega (tests, e)))
]
fetch_logs-IsCovered (r ∷ rest) a f t w m h = elim (Bool-cases (leb f t)) [
  | inr e ↦ rw (e, fetch_logs) (ended-IsCovered a complete a.max f t h (λ x. omega (tests, e)))
  | inl e ↦
      let l = leb→le _ _ e in
      let (x, y, z) = batch_end_bounds a f t w m l in
      let one : 1 ≤ a.max = omega (arith, w.min_pos, w.min_le, w.le_max) in
      rw (e, fetch_logs)
        (pass-IsCovered a f t r r.error (fetch_logs (decrease a) f t rest)
          (fetch_logs (increase a) (u64 (batch_end a f t + 1)) t rest) w m l
          (fetch_logs-IsCovered rest (decrease a) f t (decrease-IsWithin a w) m h)
          (rw (next_block (batch_end a f t) t a.max y one m) (
            fetch_logs-IsCovered rest (increase a) (batch_end a f t + 1) t (increase-IsWithin a w) m
              (omega arith))))
]

-- A pass on which nothing fails.
pub record IsSmooth (r : Round) : Type 0 where
  pub no_error : r.error ≡ none
  pub packed : r.packs ≡ true
  pub accepted : r.callback_accepts ≡ true
  pub going : r.context_done ≡ false

ending-after_logs :
    (a : AdaptiveBatchSize) (b : Batch) (r : Round) (next : Fetched)
    → IsSmooth r
    → (after_logs a b r next).ending ≡ next.ending
unfolding after_logs
ending-after_logs a b r next s = rw (s.packed, s.accepted, s.going) refl

-- When nothing fails FetchLogs ends, with success, after at most one pass for each block.
pub fetch_logs_terminates :
    (rounds : List Round) (a : AdaptiveBatchSize) (f t : ℕ)
    → IsWithin a
    → t + a.max < u64_mod
    → All IsSmooth rounds
    → t + 1 ≤ f + length rounds
    → (fetch_logs a f t rounds).ending ≡ complete
unfolding fetch_logs
fetch_logs_terminates [] a f t w m s h = ground arith
fetch_logs_terminates (r ∷ rest) a f t w m s h = elim (Bool-cases (leb f t)) [
  | inr e ↦ rw (e, fetch_logs)
  | inl e ↦
      let (x, y, z) = batch_end_bounds a f t w m (leb→le _ _ e) in
      let one : 1 ≤ a.max = omega (arith, w.min_pos, w.min_le, w.le_max) in
      rw (e, s.0.no_error, fetch_logs)
        (ending-after_logs a _ r _ s.0
          ∙ rw (next_block (batch_end a f t) t a.max y one m) (
              fetch_logs_terminates rest (increase a) (batch_end a f t + 1) t
                (increase-IsWithin a w) (rw (max-increase a) m) s.1 (omega arith)))
]
