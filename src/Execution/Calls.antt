-- ===== src/Execution/Calls.antt =====
-- eth/execution/client.go and eth/beacon/client.go: the single calls of the nodes, GetFinalizedBlock,
-- GetHeadBlock, GetChainID, GetFinalizedEpoch, VerifyFinalizedBlockRoot and the fetch of a checkpoint,
-- over WithRetry. What the node answers to each attempt is an argument.
use ssv_oracle.Prelude.{
  ℕ, zero, suc, ◌+◌, ◌-◌, ◌≡◌, refl, ap, ◌∙◌, ◌⊎◌, inl, inr, Bool-cases, Bool, true, false, not,
  Option, none, some, ◌==◌, if◌then◌else◌, u64, Text, text, arith,
}
use ssv_oracle.Execution.Retry.{
  RetryConfig, success, Surroundings, Retried, retriable, after_wait, delay_after, retry_from,
  with_retry,
}

-- What the function under WithRetry gets on an attempt: a value, or an error.
pub data Reply (A : Type 0) : Type 0 where
  answered : A → Reply A
  errored : Text → Reply A

-- The rest of the surroundings of a call.
pub record Waits : Type 0 where
  pub random : ℕ → ℕ
  pub ends_wait : ℕ → Bool

module _ {A : Type 0} where
  abbrev pub error_in : Reply A → Option Text
  error_in (answered a) = none
  error_in (errored e) = some e

  abbrev pub value_in : Reply A → Option A
  value_in (answered a) = some a
  value_in (errored e) = none

  abbrev pub surroundings : (ℕ → Reply A) → Waits → Surroundings
  surroundings reply w = record {
    reply = λ n. error_in (reply n);
    random = w.random;
    ends_wait = w.ends_wait;
  }

  -- What the last call of a loop from an attempt left in the variable of the result.
  abbrev pub result_from : (ℕ → Reply A) → ℕ → Retried → Option A
  result_from reply attempt r = elim r.ending [
    | success ↦ value_in (reply (attempt + r.calls - 1))
    | _ ↦ none
  ]

  -- `none` is an error.
  unfoldable pub call : RetryConfig → Option (Text → Bool) → (ℕ → Reply A) → Waits → Option A
  unfolding with_retry
  call cfg is_retriable reply w =
      result_from reply 0 (with_retry cfg is_retriable (surroundings reply w))

abbrev as_u64 : Option ℕ → Option ℕ
as_u64 none = none
as_u64 (some n) = some (u64 n)

-- GetFinalizedBlock, on the number of the header of the tag, and GetHeadBlock.
unfoldable pub get_finalized_block : RetryConfig → (ℕ → Reply ℕ) → Waits → Option ℕ
unfolding call
get_finalized_block cfg finalized_header w = as_u64 (call cfg none finalized_header w)

unfoldable pub get_head_block : RetryConfig → (ℕ → Reply ℕ) → Waits → Option ℕ
unfolding call
get_head_block cfg head_header w = as_u64 (call cfg none head_header w)

-- GetChainID
unfoldable pub get_chain_id : RetryConfig → (ℕ → Reply ℕ) → Waits → Option ℕ
unfolding call
get_chain_id cfg chain_id w = call cfg none chain_id w

-- GetFinalizedEpoch, on the finality of the head; `is_retriable` is the test of an error.
unfoldable pub get_finalized_epoch : RetryConfig → (Text → Bool) → (ℕ → Reply ℕ) → Waits → Option ℕ
unfolding call
get_finalized_epoch cfg is_retriable finality w = call cfg (some is_retriable) finality w

-- The function of VerifyFinalizedBlockRoot: another root is an error that the beacon node did not report.
abbrev pub checked_root : ℕ → Reply ℕ → Reply (Unit {0})
checked_root expected (errored e) = errored e
checked_root expected (answered root) =
    if root == expected then answered tt else errored (text "finalized block root mismatch")

abbrev is_ok : Option (Unit {0}) → Bool
is_ok none = false
is_ok (some t) = true

-- VerifyFinalizedBlockRoot: whether it returns without an error.
unfoldable pub verify_finalized_block_root :
    RetryConfig → (Text → Bool) → ℕ → (ℕ → Reply ℕ) → Waits → Bool
unfolding call
verify_finalized_block_root cfg is_retriable expected header w =
    is_ok (call cfg (some is_retriable) (λ n. checked_root expected (header n)) w)

Reply-cases :
    {A : Type 0} (r : Reply A) → ((a : A) × (r ≡ answered a)) ⊎ ((e : Text) × (r ≡ errored e))
Reply-cases (answered a) = inl (a, refl)
Reply-cases (errored e) = inr (e, refl)

module _ {A : Type 0} (cfg : RetryConfig) (is_retriable : Option (Text → Bool))
    (reply : ℕ → Reply A) (w : Waits) where
  abbrev loop : ℕ → ℕ → Retried
  loop = retry_from cfg is_retriable (surroundings reply w)

  -- The first answer among the attempts, before an error that must not be retried and before the
  -- context is done.
  unfoldable pub answer_from : ℕ → ℕ → Option A
  answer_from zero attempt = value_in (reply attempt)
  answer_from (suc left) attempt =
      let more = answer_from left (attempt + 1) in
      elim (reply attempt) [
        | answered a ↦ some a
        | errored e ↦
            if not (retriable is_retriable e)
            then none
            else if w.ends_wait attempt
            then none
            else more
      ]

  result_after_wait :
      (attempt wait : ℕ) (r : Retried)
      → result_from reply attempt (after_wait wait r) ≡ result_from reply (attempt + 1) r
  result_after_wait attempt wait r =
      let same : attempt + suc r.calls - 1 ≡ attempt + 1 + r.calls - 1 = omega arith in
      ap (λ n. elim r.ending as (λ e. Option A) [ success ↦ value_in (reply n) | _ ↦ none ]) same

  result_from-answer_from :
      (left attempt : ℕ) → result_from reply attempt (loop left attempt) ≡ answer_from left attempt
  unfolding retry_from answer_from
  result_from-answer_from zero attempt = elim (Reply-cases (reply attempt)) [
    | inl (a, e) ↦
        let same : attempt + 1 - 1 ≡ attempt = omega arith in rw (e, retry_from) (rw (same, e) refl)
    | inr (m, e) ↦ elim (Bool-cases (retriable is_retriable m)) [
      | inl y ↦ rw (e, retry_from) (rw (y) refl)
      | inr n ↦ rw (e, retry_from) (rw (n) refl)
    ]
  ]
  result_from-answer_from (suc left) attempt = elim (Reply-cases (reply attempt)) [
    | inl (a, e) ↦
        let same : attempt + 1 - 1 ≡ attempt = omega arith in
        rw (e, retry_from, answer_from) (rw (same, e) refl)
    | inr (m, e) ↦ elim (Bool-cases (retriable is_retriable m)) [
      | inr n ↦ rw (e, retry_from, answer_from) (rw n refl)
      | inl y ↦ elim (Bool-cases (w.ends_wait attempt)) [
        | inl d ↦ rw (e, retry_from, answer_from) (rw (y, d) refl)
        | inr d ↦
            rw (e, retry_from, answer_from)
              (rw (y, d)
                (result_after_wait attempt (delay_after cfg attempt (w.random attempt))
                    (loop left (attempt + 1))
                  ∙ result_from-answer_from left (attempt + 1)))
      ]
    ]
  ]

  -- A call over WithRetry returns the first answer of the node among the first MaxRetries + 1 attempts,
  -- unless an error that must not be retried, or the end of the context in a wait, comes before it; it
  -- then fails, as it does where no attempt is answered.
  pub call-answer_from : call cfg is_retriable reply w ≡ answer_from cfg.max_retries 0
  unfolding call with_retry
  call-answer_from = result_from-answer_from cfg.max_retries 0
