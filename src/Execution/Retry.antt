-- ===== src/Execution/Retry.antt =====
-- eth/retry.go: WithRetry. A time.Duration is an int64 number of nanoseconds; the configured ones
-- are not negative. What the called function returns, the jitter, and whether the context ends a
-- wait, are functions of the attempt.
pub mod Bounds
use ssv_oracle.Prelude.{
  ℕ, zero, suc, ◌+◌, ◌-◌, ◌*◌, ◌/◌, ◌%◌, ◌^◌, Bool, true, false, not, Option, none, some, List, [],
  ◌∷◌, ltb, if◌then◌else◌, u64, Text,
}

pub record RetryConfig : Type 0 where
  pub max_retries : ℕ
  pub base_delay : ℕ
  pub max_delay : ℕ

-- DefaultRetryConfig
abbrev pub default_retry_config : RetryConfig
default_retry_config = record {
  max_retries = 3;
  base_delay = 2_000_000_000;
  max_delay = 15_000_000_000;
}

abbrev pub at_least_one : ℕ → ℕ
at_least_one n = if ltb n 1 then 1 else n

-- rand.Int63n(n) is some number below n: the remainder of an arbitrary one.
unfoldable pub jitter_for : ℕ → ℕ → ℕ
jitter_for random delay = random % at_least_one (delay / 4)

-- The wait for a product of base delay and power of two. A product of 2^63 or more is a negative
-- int64, which is below the maximum, gets no jitter, and is waited for no time at all.
unfoldable pub delay_for : ℕ → ℕ → ℕ → ℕ
unfolding jitter_for
delay_for max_delay product random =
    let capped = if ltb max_delay product then max_delay else product in
    if ltb product 9223372036854775808
    then (if ltb 0 capped then capped + jitter_for random capped else 0)
    else 0

-- The time waited after a failed attempt.
unfoldable pub delay_after : RetryConfig → ℕ → ℕ → ℕ
unfolding delay_for
delay_after cfg attempt random =
    delay_for cfg.max_delay (u64 (cfg.base_delay * u64 (2 ^ attempt))) random

pub data Ending : Type 0 where
  success context_done : Ending
  not_retriable exhausted : Text → Ending

-- The surroundings of one call, by the attempt: what fn returns (`none` is a nil error, otherwise
-- the error's text), the random number, and whether the context is done before the wait is over.
pub record Surroundings : Type 0 where
  pub reply : ℕ → Option Text
  pub random : ℕ → ℕ
  pub ends_wait : ℕ → Bool

pub record Retried : Type 0 where
  pub calls : ℕ
  pub waits : List ℕ
  pub ending : Ending

abbrev pub retriable : Option (Text → Bool) → Text → Bool
retriable none e = true
retriable (some f) e = f e

abbrev pub one_call : Ending → Retried
one_call e = record { calls = 1; waits = []; ending = e }

abbrev pub after_wait : ℕ → Retried → Retried
after_wait w r = record { calls = suc r.calls; waits = w ∷ r.waits; ending = r.ending }

module _ (cfg : RetryConfig) (is_retriable : Option (Text → Bool)) (env : Surroundings) where
  -- The loop: the retries that are left, and the attempt.
  unfoldable pub retry_from : ℕ → ℕ → Retried
  unfolding delay_after
  retry_from zero attempt = elim (env.reply attempt) [
    | none ↦ one_call success
    | some e ↦ one_call (if retriable is_retriable e then exhausted e else not_retriable e)
  ]
  retry_from (suc left) attempt =
      let rest = retry_from left (attempt + 1) in
      let wait = delay_after cfg attempt (env.random attempt) in
      elim (env.reply attempt) [
        | none ↦ one_call success
        | some e ↦
            if not (retriable is_retriable e)
            then one_call (not_retriable e)
            else if env.ends_wait attempt
            then record { calls = 1; waits = wait ∷ []; ending = context_done }
            else after_wait wait rest
      ]

  -- WithRetry
  unfoldable pub with_retry : Retried
  unfolding retry_from
  with_retry = retry_from cfg.max_retries 0
