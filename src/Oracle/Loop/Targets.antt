-- ===== src/Oracle/Loop/Targets.antt =====
-- Which targets the loop commits.
use ssv_oracle.Prelude.{
  ℕ, suc, ◌-◌, ◌≡◌, ◌≤◌, ◌<◌, subst, none, some, List, [], ◌∷◌, ltb, ◌==◌, All, Bool-cases, inl,
  inr, arith, tests,
}
use ssv_oracle.Schedule.{CommitSchedule, validate}
use ssv_oracle.Schedule.Next.{IsTarget, HasRoom, next_target-IsNext}
use ssv_oracle.Oracle.Loop.{
  Checkpoint, Action, missed, attempted, panicked, after_target, run_loop, run,
}

-- The actions from a bound on: no panic, each target that is missed or attempted is one of the
-- schedule and greater than those before, and an attempt is made at the checkpoint that just
-- finalizes the target.
abbrev pub Ascends : CommitSchedule → ℕ → List Action → Type 0
Ascends s low [] = Unit
Ascends s low (missed t ∷ rest) = (low ≤ t) × IsTarget s t × Ascends s (suc t) rest
Ascends s low (attempted t e b ∷ rest) =
    (low ≤ t) × (e ≡ suc t) × IsTarget s t × Ascends s (suc t) rest
Ascends s low (panicked ∷ rest) = ⊥

Ascends-lower :
    (s : CommitSchedule) {a b : ℕ} (as_ : List Action) → a ≤ b → Ascends s b as_ → Ascends s a as_
Ascends-lower s [] l h = tt
Ascends-lower s (missed t ∷ rest) l h = (omega (arith, h.0), h.1, h.2)
Ascends-lower s (attempted t e b ∷ rest) l h = (omega (arith, h.0), h.1, h.2, h.3)
Ascends-lower s (panicked ∷ rest) l h = h

abbrev pub Roomy : CommitSchedule → Checkpoint → Type 0
Roomy s c = HasRoom (c.epoch - 1) s

module _ (s : CommitSchedule) (v : validate s ≡ none) where
  run_loop-Ascends :
      (target : ℕ) (cs : List Checkpoint)
      → IsTarget s target
      → All (Roomy s) cs
      → Ascends s target (run_loop s target cs)
  unfolding run_loop after_target
  run_loop-Ascends target [] t r = tt
  run_loop-Ascends target (c ∷ rest) t r =
      let (n, e, next) = next_target-IsNext s (c.epoch - 1) v r.0 in
      let later = run_loop-Ascends n rest next.target r.1 in
      elim (Bool-cases (c.epoch == 0)) [
        | inl z ↦ rw z (run_loop-Ascends target rest t r.1)
        | inr z ↦
            let positive : 0 < c.epoch = ground arith in
            elim (Bool-cases (ltb (c.epoch - 1) target)) [
              | inl w ↦ rw (z, w) (run_loop-Ascends target rest t r.1)
              | inr w ↦ elim (Bool-cases (ltb target (c.epoch - 1))) [
                | inl m ↦
                    rw (z, w, m, e)
                      (
                        omega arith,
                        t,
                        Ascends-lower s (run_loop s n rest) (omega (tests, w, next.after)) later,
                      )
                | inr m ↦
                    rw (z, w, m, e)
                      (
                        omega arith,
                        omega (tests, w, m, positive),
                        t,
                        Ascends-lower s (run_loop s n rest) (omega (tests, w, next.after)) later,
                      )
              ]
            ]
      ]

-- Run over a valid schedule never panics after the start, and what it commits or misses are targets
-- of the schedule, each greater than the last and than the epoch it started from; each commit is
-- made at the checkpoint that just finalizes its target.
pub run-Ascends :
    (s : CommitSchedule) (finalized_epoch : ℕ) (cs : List Checkpoint) {actions : List Action}
    → validate s ≡ none
    → HasRoom (finalized_epoch - 1) s
    → All (Roomy s) cs
    → run s finalized_epoch cs ≡ some actions
    → Ascends s finalized_epoch actions
unfolding run
run-Ascends s f cs {actions} v h r e =
    let (n, q, next) = next_target-IsNext s (f - 1) v h in
    elim (Bool-cases (f == 0)) [
      | inl z ↦ absurd (ground arith)
      | inr z ↦
          let positive : 0 < f = ground arith in
          let same : run_loop s n cs ≡ actions = ground (arith, z, q, e) in
          subst (Ascends s f) same (
            Ascends-lower s (run_loop s n cs) (omega (arith, positive, next.after))
              (run_loop-Ascends s v n cs next.target r))
    ]
