-- ===== src/Updater/Run/Repeats.antt =====
-- For the updater's Run: the blocks of the processed events.
use ssv_oracle.Prelude.{
  ℕ, ◌<◌, ◌≡◌, refl, sym, Bool, true, false, List, [], ◌∷◌, ◌++◌, leb, if◌then◌else◌, Bool-cases,
  inl, inr, subst, tests,
}
use ssv_oracle.Merkle.Crypto.{Crypto}
use ssv_oracle.Updater.Commit.{
  Handled, skipped, processed, root_mismatch, with_commit, handle_event,
}
use ssv_oracle.Updater.Run.{
  RootCommitted, Signal, context_done, errors_closed, events_closed, no_error, failure, committed,
  process_signals, Subscription, subscribe_and_process, run,
}

-- From one processed block to another: each processed event is of a later block, the others change
-- nothing.
abbrev pub NeverRepeats : ℕ → List (ℕ × Handled) → ℕ → Type 0
NeverRepeats last [] after = last ≡ after
NeverRepeats last ((block, skipped) ∷ rest) after = NeverRepeats last rest after
NeverRepeats last ((block, root_mismatch) ∷ rest) after = NeverRepeats last rest after
NeverRepeats last ((block, processed p) ∷ rest) after =
    (last < block) × NeverRepeats block rest after

NeverRepeats-append :
    (last mid after : ℕ) (xs ys : List (ℕ × Handled))
    → NeverRepeats last xs mid
    → NeverRepeats mid ys after
    → NeverRepeats last (xs ++ ys) after
NeverRepeats-append last mid after [] ys h k = subst (λ l. NeverRepeats l ys after) (sym h) k
NeverRepeats-append last mid after ((b, skipped) ∷ xs) ys h k =
    NeverRepeats-append last mid after xs ys h k
NeverRepeats-append last mid after ((b, root_mismatch) ∷ xs) ys h k =
    NeverRepeats-append last mid after xs ys h k
NeverRepeats-append last mid after ((b, processed p) ∷ xs) ys h k =
    (h.0, NeverRepeats-append b mid after xs ys h.1 k)

-- A property of each of two branches, under its condition.
of_branches :
    (P : Handled × ℕ → Type 0) (b : Bool) (x y : Handled × ℕ)
    → (b ≡ true → P x)
    → (b ≡ false → P y)
    → P (if b then x else y)
of_branches P true x y h k = h refl
of_branches P false x y h k = k refl

abbrev remembered : ℕ → ℕ → Handled → ℕ
remembered last block skipped = last
remembered last block (processed p) = block
remembered last block root_mismatch = last

remembered-NeverRepeats :
    (last block : ℕ) (h : Handled) (rest : List (ℕ × Handled)) (after : ℕ)
    → last < block
    → NeverRepeats (remembered last block h) rest after
    → NeverRepeats last ((block, h) ∷ rest) after
remembered-NeverRepeats last block skipped rest after l k = k
remembered-NeverRepeats last block (processed p) rest after l k = (l, k)
remembered-NeverRepeats last block root_mismatch rest after l k = k

-- One event, whatever comes behind it.
handle_event-NeverRepeats :
    (c : Crypto) (last : ℕ) (e : RootCommitted) (rest : List (ℕ × Handled)) (after : ℕ)
    → NeverRepeats
        (handle_event c last e.block_num e.merkle_root e.commit e.answers e.again).1
        rest
        after
    → NeverRepeats last
        ((e.block_num, (handle_event c last e.block_num e.merkle_root e.commit e.answers e.again).0)
          ∷ rest)
        after
unfolding handle_event
handle_event-NeverRepeats c last e rest after h =
    of_branches
      (λ r. NeverRepeats r.1 rest after → NeverRepeats last ((e.block_num, r.0) ∷ rest) after)
      (leb e.block_num last) _ _ (λ y k. k)
      (λ z.
        remembered-NeverRepeats last e.block_num
          (with_commit c e.merkle_root e.commit e.answers e.again) rest after (omega (tests, z)))
      h

process_signals-NeverRepeats :
    (c : Crypto) (last : ℕ) (signals : List Signal)
    → NeverRepeats last
        (process_signals c last signals).handled
        (process_signals c last signals).last_block
unfolding process_signals
process_signals-NeverRepeats c last [] = refl
process_signals-NeverRepeats c last (context_done ∷ rest) = refl
process_signals-NeverRepeats c last (errors_closed ∷ rest) = refl
process_signals-NeverRepeats c last (events_closed ∷ rest) = refl
process_signals-NeverRepeats c last (failure ∷ rest) = refl
process_signals-NeverRepeats c last (no_error ∷ rest) = process_signals-NeverRepeats c last rest
process_signals-NeverRepeats c last (committed e ∷ rest) =
    let r = handle_event c last e.block_num e.merkle_root e.commit e.answers e.again in
    handle_event-NeverRepeats c last e (process_signals c r.1 rest).handled
      (process_signals c r.1 rest).last_block (process_signals-NeverRepeats c r.1 rest)

subscribe_and_process-NeverRepeats :
    (c : Crypto) (last : ℕ) (p : Subscription)
    → NeverRepeats last
        (subscribe_and_process c last p).handled
        (subscribe_and_process c last p).last_block
unfolding subscribe_and_process
subscribe_and_process-NeverRepeats c last p = elim (Bool-cases p.subscribed) [
  | inl y ↦ rw y (process_signals-NeverRepeats c last p.signals)
  | inr z ↦ rw z refl
]

-- Over any subscriptions, whatever they deliver and however they end, each commit that the updater
-- processes is of an event of a later block than the one before: an event that a new subscription
-- delivers again is not processed again. The block it remembers is that of the last processed event.
pub run-NeverRepeats :
    (c : Crypto) (last : ℕ) (passes : List Subscription)
    → NeverRepeats last (run c last passes).0 (run c last passes).1
unfolding run
run-NeverRepeats c last [] = refl
run-NeverRepeats c last (p ∷ rest) =
    let s = subscribe_and_process c last p in
    let here = subscribe_and_process-NeverRepeats c last p in
    let later = run-NeverRepeats c s.last_block rest in
    elim (Bool-cases p.context_done) [
      | inl y ↦ rw y here
      | inr z ↦ rw z (
          NeverRepeats-append last s.last_block (run c s.last_block rest).1 s.handled
            (run c s.last_block rest).0 here later)
    ]
