-- ===== src/Schedule.antt =====
-- oracle/phase.go: the commit schedule.
pub mod Arith
pub mod Next
mod Tests
use ssv_oracle.Prelude.{
  ℕ, ◌+◌, ◌-◌, ◌*◌, ◌/◌, ◌%◌, ◌≡◌, Bool, Option, none, some, List, [], ◌∷◌, ltb, leb, ◌==◌,
  if◌then◌else◌, u64,
}

pub record CommitPhase : Type 0 where
  pub start_epoch : ℕ  -- uint64
  pub interval : ℕ  -- uint64

abbrev pub CommitSchedule : Type 0
CommitSchedule = List CommitPhase

pub data ScheduleError : Type 0 where
  no_phase zero_interval not_ascending not_aligned : ScheduleError

-- TargetAt
unfoldable pub target_at : CommitPhase → ℕ → ℕ
target_at p round = u64 (p.start_epoch + u64 (round * p.interval))

-- The checks on a phase against the one before it. `prev.interval` is not 0: it was checked in
-- the round before.
unfoldable pub check_phase : Option CommitPhase → CommitPhase → Option ScheduleError
check_phase none p = if p.interval == 0 then some zero_interval else none
check_phase (some prev) p =
    if p.interval == 0
    then some zero_interval
    else if leb p.start_epoch prev.start_epoch
    then some not_ascending
    else if (p.start_epoch - prev.start_epoch) % prev.interval == 0
    then none
    else some not_aligned

unfoldable pub validate_from : Option CommitPhase → CommitSchedule → Option ScheduleError
unfolding check_phase
validate_from prev [] = none
validate_from prev (p ∷ rest) = elim (check_phase prev p) [
  | some e ↦ some e
  | none ↦ validate_from (some p) rest
]

-- Validate; `none` is a nil error.
unfoldable pub validate : CommitSchedule → Option ScheduleError
unfolding validate_from
validate [] = some no_phase
validate (p ∷ rest) = validate_from none (p ∷ rest)

-- The loop of PhaseAt runs from the last phase down to the first.
unfoldable pub last_started : CommitSchedule → ℕ → Option CommitPhase
last_started [] epoch = none
last_started (p ∷ rest) epoch = elim (last_started rest epoch) [
  | some q ↦ some q
  | none ↦ if leb p.start_epoch epoch then some p else none
]

abbrev first_phase : CommitSchedule → Option CommitPhase
first_phase [] = none
first_phase (p ∷ rest) = some p

-- PhaseAt; `none` is the panic of `s[0]` on an empty schedule.
unfoldable pub phase_at : CommitSchedule → ℕ → Option CommitPhase
unfolding last_started
phase_at s epoch = elim (last_started s epoch) [ some p ↦ some p | none ↦ first_phase s ]

unfoldable pub next_in_phase : CommitPhase → ℕ → Option ℕ
unfolding target_at
next_in_phase phase epoch =
    if ltb epoch phase.start_epoch
    then some phase.start_epoch
    else if phase.interval == 0
    then none
    else some (target_at phase (u64 ((epoch - phase.start_epoch) / phase.interval + 1)))

-- NextTarget; `none` is a panic: no phase, or a division by a zero interval.
unfoldable pub next_target : CommitSchedule → ℕ → Option ℕ
unfolding phase_at next_in_phase
next_target s epoch = elim (phase_at s epoch) [ some p ↦ next_in_phase p epoch | none ↦ none ]
