-- ===== src/Execution/Retry/Bounds.antt =====
-- How often WithRetry calls, how long it waits, and what it returns.
use ssv_oracle.Prelude.{
  ℕ, zero, suc, ◌+◌, ◌/◌, ◌≤◌, ◌<◌, ◌≡◌, refl, ap, inl, inr, Bool-cases, Option-cases, Bool, true,
  false, Option, none, some, [], ◌∷◌, ltb, ltb→le, All, Text, arith,
}
use ssv_oracle.Execution.Retry.{
  RetryConfig, jitter_for, delay_for, delay_after, Ending, success, context_done, not_retriable,
  exhausted, Surroundings, Retried, retriable, one_call, after_wait, retry_from, with_retry,
}

jitter_for-le : (random delay : ℕ) → jitter_for random delay ≤ delay / 4
unfolding jitter_for
jitter_for-le random delay = elim (Bool-cases (ltb (delay / 4) 1)) [
  | inl e ↦ rw e (omega arith)
  | inr e ↦ rw e (let h : 1 ≤ delay / 4 = ltb→le _ _ e in grind arith)
]

delay_for-le : (max product random : ℕ) → delay_for max product random ≤ max + max / 4
unfolding delay_for
delay_for-le max product random = elim (Bool-cases (ltb product 9223372036854775808)) [
  | inr e ↦ rw e (omega arith)
  | inl e ↦ elim (Bool-cases (ltb max product)) [
    | inl f ↦ rw (e, f) (ground (arith, jitter_for-le random max))
    | inr f ↦ rw (e, f) (ground (arith, jitter_for-le random product))
  ]
]

-- No wait is longer than the maximum delay and a quarter of it.
delay_after-le :
    (cfg : RetryConfig) (attempt random : ℕ)
    → delay_after cfg attempt random ≤ cfg.max_delay + cfg.max_delay / 4
unfolding delay_after
delay_after-le cfg attempt random = delay_for-le cfg.max_delay _ random

module _ (cfg : RetryConfig) (is_retriable : Option (Text → Bool)) (env : Surroundings) where
  -- What the ending says of the last reply.
  abbrev pub Agrees : Ending → Option Text → Type 0
  Agrees success o = o ≡ none
  Agrees (not_retriable e) o = (o ≡ some e) × (retriable is_retriable e ≡ false)
  Agrees (exhausted e) o = (o ≡ some e) × (retriable is_retriable e ≡ true)
  Agrees context_done o = (e : Text) × (o ≡ some e) × (retriable is_retriable e ≡ true)

  -- A run that starts at an attempt with some retries left.
  pub record IsRun (left attempt : ℕ) (r : Retried) : Type 0 where
    pub earlier : ℕ
    pub count : r.calls ≡ suc earlier
    pub bounded : earlier ≤ left
    pub all_used : (e : Text) → r.ending ≡ exhausted e → earlier ≡ left
    pub agrees : Agrees r.ending (env.reply (attempt + earlier))
    pub failed_before :
        (k : ℕ)
        → k < earlier
        → (e : Text) × (env.reply (attempt + k) ≡ some e) × (retriable is_retriable e ≡ true)
    pub waits_bounded : All (λ w. w ≤ cfg.max_delay + cfg.max_delay / 4) r.waits

  one_call-IsRun :
      (left attempt : ℕ) (x : Ending)
      → ((e : Text) → x ≡ exhausted e → 0 ≡ left)
      → Agrees x (env.reply attempt)
      → IsRun left attempt (one_call x)
  one_call-IsRun left attempt x u a =
      let same : attempt + 0 ≡ attempt = omega arith in
      record {
        earlier = 0;
        count = refl;
        bounded = omega arith;
        all_used = u;
        agrees = rw same a;
        failed_before = λ k h. absurd (omega arith);
        waits_bounded = tt;
      }

  after_wait-IsRun :
      (left attempt w : ℕ) (e : Text) (r : Retried)
      → env.reply attempt ≡ some e
      → retriable is_retriable e ≡ true
      → w ≤ cfg.max_delay + cfg.max_delay / 4
      → IsRun left (attempt + 1) r
      → IsRun (suc left) attempt (after_wait w r)
  after_wait-IsRun left attempt w e r p q b s = record {
    earlier = suc s.earlier;
    count = ap suc s.count;
    bounded = omega (arith, s.bounded);
    all_used = λ x h. ap suc (s.all_used x h);
    agrees =
        let same : attempt + suc s.earlier ≡ attempt + 1 + s.earlier = omega arith in
        rw same s.agrees;
    failed_before = before;
    waits_bounded = (b, s.waits_bounded);
  }
    where
      before :
          (k : ℕ)
          → k < suc s.earlier
          → (x : Text) × (env.reply (attempt + k) ≡ some x) × (retriable is_retriable x ≡ true)
      before zero h = let same : attempt + zero ≡ attempt = omega arith in (e, rw same p, q)
      before (suc k) h =
          let same : attempt + suc k ≡ attempt + 1 + k = omega arith in
          rw same (s.failed_before k (omega arith))

  stop_wait-IsRun :
      (left attempt w : ℕ) (e : Text)
      → env.reply attempt ≡ some e
      → retriable is_retriable e ≡ true
      → w ≤ cfg.max_delay + cfg.max_delay / 4
      → IsRun left attempt (record { calls = 1; waits = w ∷ []; ending = context_done })
  stop_wait-IsRun left attempt w e p q b =
      let same : attempt + 0 ≡ attempt = omega arith in
      record {
        earlier = 0;
        count = refl;
        bounded = omega arith;
        all_used = λ x h. cc;
        agrees = (e, rw same p, q);
        failed_before = λ k h. absurd (omega arith);
        waits_bounded = (b, tt);
      }

  retry_from-IsRun :
      (left attempt : ℕ) → IsRun left attempt (retry_from cfg is_retriable env left attempt)
  unfolding retry_from
  retry_from-IsRun zero attempt = elim (Option-cases (env.reply attempt)) [
    | inl n ↦ rw (n, retry_from) (one_call-IsRun zero attempt success (λ e h. refl) n)
    | inr (e, n) ↦ elim (Bool-cases (retriable is_retriable e)) [
      | inl y ↦
          rw (n, y, retry_from) (one_call-IsRun zero attempt (exhausted e) (λ x h. refl) (n, y))
      | inr y ↦
          rw (n, y, retry_from) (one_call-IsRun zero attempt (not_retriable e) (λ x h. refl) (n, y))
    ]
  ]
  retry_from-IsRun (suc left) attempt = elim (Option-cases (env.reply attempt)) [
    | inl n ↦ rw (n, retry_from) (one_call-IsRun (suc left) attempt success (λ e h. cc) n)
    | inr (e, n) ↦ elim (Bool-cases (retriable is_retriable e)) [
      | inr y ↦
          rw (n, y, retry_from)
            (one_call-IsRun (suc left) attempt (not_retriable e) (λ x h. cc) (n, y))
      | inl y ↦ elim (Bool-cases (env.ends_wait attempt)) [
        | inl d ↦
            rw (n, y, d, retry_from)
              (stop_wait-IsRun (suc left) attempt _ e n y
                (delay_after-le cfg attempt (env.random attempt)))
        | inr d ↦
            rw (n, y, d, retry_from)
              (after_wait-IsRun left attempt _ e _ n y
                (delay_after-le cfg attempt (env.random attempt))
                (retry_from-IsRun left (attempt + 1)))
      ]
    ]
  ]

  -- WithRetry calls the function once and then at most MaxRetries times more. Every call before the
  -- last one returned an error that may be retried; the result says truly what the last call
  -- returned; the error "after n attempts" comes only when all retries are used up; and no wait is
  -- longer than the maximum delay and a quarter of it.
  pub with_retry-IsRun : IsRun cfg.max_retries 0 (with_retry cfg is_retriable env)
  unfolding with_retry
  with_retry-IsRun = retry_from-IsRun cfg.max_retries 0
