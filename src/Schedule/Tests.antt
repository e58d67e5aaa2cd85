-- ===== src/Schedule/Tests.antt =====
-- A run of the schedule.
use ssv_oracle.Prelude.{ℕ, ◌≡◌, refl, some, [], ◌∷◌, arith}
use ssv_oracle.Schedule.{CommitSchedule, validate, validate_from, check_phase, next_target}
use ssv_oracle.Schedule.Next.{IsNext, next_target-IsNext}

abbrev two_phases : CommitSchedule
two_phases =
    record { start_epoch = 100; interval = 10 } ∷ record { start_epoch = 200; interval = 25 } ∷ []

next_target-IsNext_example :
    (t : ℕ) × (next_target two_phases 195 ≡ some t) × IsNext two_phases 195 t
unfolding validate validate_from check_phase
next_target-IsNext_example =
    next_target-IsNext two_phases 195 refl (omega arith, (omega arith, (omega arith, tt)))
