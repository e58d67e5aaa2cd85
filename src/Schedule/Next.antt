-- ===== src/Schedule/Next.antt =====
-- NextTarget against an independent description of the targets of a schedule.
use ssv_oracle.Prelude.{
  ℕ, ◌+◌, ◌-◌, ◌*◌, ◌/◌, ◌%◌, ◌≤◌, ◌<◌, ◌≡◌, ◌≢◌, refl, ap, ◌∙◌, inl, inr, Bool-cases, Option-cases,
  none, some, [], ◌∷◌, ltb, leb, leb→le, leb→lt, ltb→lt, tests, u64, u64_mod, All, arith,
}
use ssv_oracle.Schedule.{
  CommitPhase, CommitSchedule, no_phase, target_at, validate_from, validate, last_started,
  next_target,
}
use ssv_oracle.Schedule.Arith.{
  lt-next_multiple, next_multiple-le, next_multiple_least, multiple_of_mod,
}

-- The epochs of one phase.
abbrev pub InPhase : CommitPhase → ℕ → Type 0
InPhase p t = (k : ℕ) × (t ≡ p.start_epoch + k * p.interval)

-- The targets of a schedule: each phase contributes its epochs up to the start of the next phase,
-- and the last one all of its epochs.
pub data IsTarget : CommitSchedule → ℕ → Type 0 where
  last : {p : CommitPhase} {t : ℕ} → InPhase p t → IsTarget (p ∷ []) t
  before :
      {p q : CommitPhase} {r : CommitSchedule} {t : ℕ}
      → InPhase p t
      → t < q.start_epoch
      → IsTarget (p ∷ q ∷ r) t
  later :
      {p q : CommitPhase} {r : CommitSchedule} {t : ℕ} → IsTarget (q ∷ r) t → IsTarget (p ∷ q ∷ r) t

-- What Validate guarantees, phase by phase.
abbrev pub IsValidFrom : CommitPhase → CommitSchedule → Type 0
IsValidFrom p [] = 0 < p.interval
IsValidFrom p (q ∷ r) =
    (0 < p.interval)
    × (p.start_epoch < q.start_epoch)
    × ((q.start_epoch - p.start_epoch) % p.interval ≡ 0)
    × IsValidFrom q r

validate_from-IsValidFrom :
    (p : CommitPhase) (r : CommitSchedule)
    → 0 < p.interval
    → validate_from (some p) r ≡ none
    → IsValidFrom p r
unfolding validate_from
validate_from-IsValidFrom p [] h v = h
validate_from-IsValidFrom p (q ∷ r) h v =
    (h, ground arith, ground arith, validate_from-IsValidFrom q r (ground arith) (ground arith))

validate_empty : validate [] ≡ some no_phase
unfolding validate
validate_empty = refl

pub validate-IsValidFrom :
    (p : CommitPhase) (r : CommitSchedule) → validate (p ∷ r) ≡ none → IsValidFrom p r
unfolding validate
validate-IsValidFrom p r v = validate_from-IsValidFrom p r (ground arith) (ground arith)

start-IsTarget :
    (p : CommitPhase) (r : CommitSchedule) → IsValidFrom p r → IsTarget (p ∷ r) p.start_epoch
start-IsTarget p [] v = last (0, omega arith)
start-IsTarget p (q ∷ r) v = before (0, omega arith) v.1

start-le_target :
    (p : CommitPhase) (r : CommitSchedule) {t : ℕ}
    → IsValidFrom p r
    → IsTarget (p ∷ r) t
    → p.start_epoch ≤ t
start-le_target p [] v (last (k, e)) = omega arith
start-le_target p (q ∷ r) v (before (k, e) h) = omega arith
start-le_target p (q ∷ r) v (later i) = omega (arith, start-le_target q r v.3 i, v.1)

-- The target after `e` in the schedule `s`.
pub record IsNext (s : CommitSchedule) (e t : ℕ) : Type 0 where
  pub after : e < t
  pub target : IsTarget s t
  pub least : (u : ℕ) → IsTarget s u → e < u → t ≤ u

abbrev following : CommitPhase → ℕ → ℕ
following p e = p.start_epoch + ((e - p.start_epoch) / p.interval + 1) * p.interval

following-least :
    (p : CommitPhase) (e u : ℕ)
    → 0 < p.interval
    → p.start_epoch ≤ e
    → InPhase p u
    → e < u
    → following p e ≤ u
following-least p e u h s (k, q) l =
    omega (arith, next_multiple_least (e - p.start_epoch) p.interval k h (omega arith))

-- The alignment that Validate checks: no step of a phase jumps over the start of the next phase.
following-le_next_start :
    (p q : CommitPhase) (r : CommitSchedule) (e : ℕ)
    → IsValidFrom p (q ∷ r)
    → p.start_epoch ≤ e
    → e < q.start_epoch
    → following p e ≤ q.start_epoch
following-le_next_start p q r e v h l =
    let gap = q.start_epoch - p.start_epoch in
    let m = multiple_of_mod gap p.interval v.2 in
    following-least p e q.start_epoch v.0 h (gap / p.interval, omega (arith, m, v.1)) l

following-IsTarget :
    (p q : CommitPhase) (r : CommitSchedule) (e : ℕ)
    → IsValidFrom p (q ∷ r)
    → following p e ≤ q.start_epoch
    → IsTarget (p ∷ q ∷ r) (following p e)
following-IsTarget p q r e v h = elim (Bool-cases (ltb (following p e) q.start_epoch)) [
  | inl l ↦ before ((e - p.start_epoch) / p.interval + 1, refl) (ltb→lt _ _ l)
  | inr l ↦
      let same : following p e ≡ q.start_epoch = omega (tests, l) in
      rw same (later (start-IsTarget q r v.3))
]

following-least_before :
    (p q : CommitPhase) (r : CommitSchedule) (e u : ℕ)
    → IsValidFrom p (q ∷ r)
    → p.start_epoch ≤ e
    → e < q.start_epoch
    → IsTarget (p ∷ q ∷ r) u
    → e < u
    → following p e ≤ u
following-least_before p q r e u v h c (before i b) l = following-least p e u v.0 h i l
following-least_before p q r e u v h c (later i) l =
    omega (arith, following-le_next_start p q r e v h c, start-le_target q r v.3 i)

last_started-later :
    (p : CommitPhase) (r : CommitSchedule) (e : ℕ)
    → IsValidFrom p r
    → e < p.start_epoch
    → last_started (p ∷ r) e ≡ none
unfolding last_started
last_started-later p [] e v h = ground arith
last_started-later p (q ∷ r) e v h =
    ground (arith, last_started-later q r e v.3 (omega (arith, v.1)))

-- From the start of a phase on, the phase in force is one whose next multiple is the next target.
last_started-IsNext :
    (p : CommitPhase) (r : CommitSchedule) (e : ℕ)
    → IsValidFrom p r
    → p.start_epoch ≤ e
    → (q : CommitPhase) × (last_started (p ∷ r) e ≡ some q)
      × (q.start_epoch ≤ e)
      × (0 < q.interval)
      × IsNext (p ∷ r) e (following q e)
unfolding last_started
last_started-IsNext p [] e v h = (
  p,
  ground arith,
  h,
  v,
  record {
    after = omega (arith, lt-next_multiple (e - p.start_epoch) p.interval v);
    target = last ((e - p.start_epoch) / p.interval + 1, refl);
    least = λ u i l. only u i l;
  },
)
  where
    only : (u : ℕ) → IsTarget (p ∷ []) u → e < u → following p e ≤ u
    only u (last i) l = following-least p e u v h i l
last_started-IsNext p (q ∷ r) e v h = elim (Bool-cases (leb q.start_epoch e)) [
  | inl started ↦
      let (w, s, b, d, n) = last_started-IsNext q r e v.3 (leb→le _ _ started) in
      (
        w,
        ground (arith, s),
        b,
        d,
        record {
          after = n.after;
          target = later n.target;
          least = λ u i l. skip w (leb→le _ _ started) n.least u i l;
        },
      )
  | inr coming ↦ (
    p,
    ground (arith, last_started-later q r e v.3 (leb→lt _ _ coming)),
    h,
    v.0,
    record {
      after = omega (arith, lt-next_multiple (e - p.start_epoch) p.interval v.0);
      target =
          following-IsTarget p q r e v (following-le_next_start p q r e v h (leb→lt _ _ coming));
      least = λ u i l. following-least_before p q r e u v h (leb→lt _ _ coming) i l;
    },
  )
]
  where
    skip :
        (w : CommitPhase)
        → q.start_epoch ≤ e
        → ((u : ℕ) → IsTarget (q ∷ r) u → e < u → following w e ≤ u)
        → (u : ℕ) → IsTarget (p ∷ q ∷ r) u
        → e < u
        → following w e ≤ u
    skip w s least u (before i b) l = absurd (omega arith)
    skip w s least u (later i) l = least u i l

-- Below 2^64 the sum and the product of TargetAt do not wrap.
target_at-eq-following :
    (q : CommitPhase) (e : ℕ)
    → 0 < q.interval
    → q.start_epoch ≤ e
    → e + q.interval < u64_mod
    → target_at q (u64 ((e - q.start_epoch) / q.interval + 1)) ≡ following q e
unfolding target_at
target_at-eq-following q e d s b =
    let x = e - q.start_epoch in
    let n : x / q.interval + 1 ≤ (x / q.interval + 1) * q.interval = grind arith in
    let m = next_multiple-le x q.interval d in
    rw
      (
        wrap_not (x / q.interval + 1) (omega arith),
        wrap_not ((x / q.interval + 1) * q.interval) (omega arith),
      )
      (wrap_not (following q e) (omega arith))
  where
    wrap_not : (n : ℕ) → n < u64_mod → u64 n ≡ n
    wrap_not n h = omega arith

All-last_started :
    (P : CommitPhase → Type 0) (s : CommitSchedule) (e : ℕ) {q : CommitPhase}
    → All P s
    → last_started s e ≡ some q
    → P q
unfolding last_started
All-last_started P [] e a h = absurd (ground arith)
All-last_started P (p ∷ r) e {q} a h = elim (Option-cases (last_started r e)) [
  | inl n ↦ let same : p ≡ q = ground arith in rw (← same) a.0
  | inr (w, m) ↦ let same : w ≡ q = ground arith in All-last_started P r e a.1 (m ∙ ap some same)
]

-- The epoch and the intervals leave room below 2^64.
abbrev pub HasRoom : ℕ → CommitSchedule → Type 0
HasRoom e s = (e < u64_mod) × All (λ p. e + p.interval < u64_mod) s

next_in_phase_later :
    (s : CommitSchedule) (e : ℕ) (q : CommitPhase)
    → last_started s e ≡ some q
    → q.start_epoch ≤ e
    → 0 < q.interval
    → e + q.interval < u64_mod
    → next_target s e ≡ some (following q e)
unfolding next_target
next_in_phase_later s e q h b d m = ground (arith, target_at-eq-following q e d b m)

next_in_phase_first :
    (p : CommitPhase) (r : CommitSchedule) (e : ℕ)
    → last_started (p ∷ r) e ≡ none
    → e < p.start_epoch
    → next_target (p ∷ r) e ≡ some p.start_epoch
unfolding next_target
next_in_phase_first p r e h b = ground arith

-- For a schedule that Validate accepts, NextTarget returns without a panic the least target of the
-- schedule that is greater than the epoch, when epoch plus interval does not pass 2^64 in any phase.
pub next_target-IsNext :
    (s : CommitSchedule) (e : ℕ)
    → validate s ≡ none
    → HasRoom e s
    → (t : ℕ) × (next_target s e ≡ some t) × IsNext s e t
next_target-IsNext [] e v b = absurd (not_empty v)
  where
    not_empty : validate [] ≢ none
    not_empty w = cc (validate_empty, w)
next_target-IsNext (p ∷ r) e v b = elim (Bool-cases (leb p.start_epoch e)) [
  | inl l ↦
      let (q, s, o, d, n) = last_started-IsNext p r e (validate-IsValidFrom p r v) (leb→le _ _ l) in
      let room = All-last_started (λ w. e + w.interval < u64_mod) (p ∷ r) e b.1 s in
      (following q e, next_in_phase_later (p ∷ r) e q s o d room, n)
  | inr l ↦
      let ok = validate-IsValidFrom p r v in
      let coming = leb→lt _ _ l in
      (
        p.start_epoch,
        next_in_phase_first p r e (last_started-later p r e ok coming) coming,
        record {
          after = coming;
          target = start-IsTarget p r ok;
          least = λ u i h. start-le_target p r ok i;
        },
      )
]
