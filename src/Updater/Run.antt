-- ===== src/Updater/Run.antt =====
-- updater/updater.go: Run and subscribeAndProcess. What the subscription delivers is a list of signals;
-- the last processed block is a field of the updater and outlives a subscription.
pub mod Repeats
use ssv_oracle.Prelude.{
  ℕ, Bool, true, false, Option, none, some, List, [], ◌∷◌, ◌++◌, if◌then◌else◌,
}
use ssv_oracle.Merkle.Crypto.{Crypto}
use ssv_oracle.Storage.Commits.{OracleCommit}
use ssv_oracle.Updater.{Answer}
use ssv_oracle.Updater.Commit.{Handled, handle_event}

-- A RootCommitted event, with the commit that its lookup finds and the answers while it is processed.
pub record RootCommitted : Type 0 where
  pub block_num : ℕ
  pub merkle_root : ℕ
  pub commit : Option OracleCommit
  pub answers : List Answer
  pub again : Option (List Answer)

-- What the select of subscribeAndProcess receives.
pub data Signal : Type 0 where
  context_done errors_closed events_closed no_error failure : Signal
  committed : RootCommitted → Signal

-- How a subscription ends; `waiting` says that the signals ended before it did.
pub data SessionEnd : Type 0 where
  not_subscribed cancelled broken waiting : SessionEnd

-- The events that were handled, by their block, and the last processed block.
pub record Session : Type 0 where
  pub handled : List (ℕ × Handled)
  pub last_block : ℕ
  pub ending : SessionEnd

abbrev pub ended : ℕ → SessionEnd → Session
ended last e = record { handled = []; last_block = last; ending = e }

abbrev pub with_handled : ℕ × Handled → Session → Session
with_handled h s = record s { handled = h ∷ s.handled }

-- The loop of subscribeAndProcess. A closed channel is an error, or the end of the context.
unfoldable pub process_signals : Crypto → ℕ → List Signal → Session
unfolding handle_event
process_signals c last [] = ended last waiting
process_signals c last (context_done ∷ rest) = ended last cancelled
process_signals c last (errors_closed ∷ rest) = ended last broken
process_signals c last (events_closed ∷ rest) = ended last broken
process_signals c last (failure ∷ rest) = ended last broken
process_signals c last (no_error ∷ rest) = process_signals c last rest
process_signals c last (committed e ∷ rest) =
    let r = handle_event c last e.block_num e.merkle_root e.commit e.answers e.again in
    with_handled (e.block_num, r.0) (process_signals c r.1 rest)

-- One pass of Run: whether the subscription is made, what it delivers, and whether the context is done at
-- its end or during the wait behind it.
pub record Subscription : Type 0 where
  pub subscribed : Bool
  pub signals : List Signal
  pub context_done : Bool

-- subscribeAndProcess
unfoldable pub subscribe_and_process : Crypto → ℕ → Subscription → Session
unfolding process_signals
subscribe_and_process c last p =
    if p.subscribed then process_signals c last p.signals else ended last not_subscribed

-- Run
unfoldable pub run : Crypto → ℕ → List Subscription → List (ℕ × Handled) × ℕ
unfolding subscribe_and_process
run c last [] = ([], last)
run c last (p ∷ rest) =
    let s = subscribe_and_process c last p in
    let later = run c s.last_block rest in
    if p.context_done then (s.handled, s.last_block) else (s.handled ++ later.0, later.1)
