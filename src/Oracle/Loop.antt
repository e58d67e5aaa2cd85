-- ===== src/Oracle/Loop.antt =====
-- oracle/oracle.go: the loop of Run. A commit is a call of `commit`, which may fail.
pub mod Targets
use ssv_oracle.Prelude.{
  ℕ, ◌-◌, Bool, true, false, Option, none, some, List, [], ◌∷◌, ltb, ◌==◌, if◌then◌else◌,
}
use ssv_oracle.Schedule.{CommitSchedule, next_target}

-- A finalized checkpoint from the subscription, and whether a commit at it succeeds.
pub record Checkpoint : Type 0 where
  pub epoch : ℕ
  pub commit_succeeds : Bool

-- What the loop does with a checkpoint, where it does not just wait.
pub data Action : Type 0 where
  missed : ℕ → Action
  -- the target, the checkpoint's epoch, and whether the commit succeeded
  attempted : ℕ → ℕ → Bool → Action
  panicked : Action

abbrev pub act : Bool → ℕ → Checkpoint → Action
act true target c = missed target
act false target c = attempted target c.epoch c.commit_succeeds

-- A checkpoint at or behind the target: `next` is the loop from a new target.
unfoldable pub after_target : Action → Option (List Action) → List Action
after_target a none = panicked ∷ []
after_target a (some later) = a ∷ later

-- The loop of Run, from a target, over the checkpoints received until it stops.
unfoldable pub run_loop : CommitSchedule → ℕ → List Checkpoint → List Action
unfolding next_target after_target
run_loop s target [] = []
run_loop s target (c ∷ rest) =
    let waiting = run_loop s target rest in
    let fully_finalized = c.epoch - 1 in
    let later : Option (List Action) = elim (next_target s fully_finalized) [
      | none ↦ none
      | some t ↦ some (run_loop s t rest)
    ] in
    if c.epoch == 0
    then waiting
    else if ltb fully_finalized target
    then waiting
    else after_target (act (ltb target fully_finalized) target c) later

-- Run, from the finalized epoch at the start: the error at genesis is none.
unfoldable pub run : CommitSchedule → ℕ → List Checkpoint → Option (List Action)
unfolding run_loop
run s finalized_epoch checkpoints =
    if finalized_epoch == 0 then none else elim (next_target s (finalized_epoch - 1)) [
      | none ↦ some (panicked ∷ [])
      | some t ↦ some (run_loop s t checkpoints)
    ]
