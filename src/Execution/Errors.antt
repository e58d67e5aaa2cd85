-- ===== src/Execution/Errors.antt =====
-- eth/execution/client.go: categorizeBatchError, and the text of the errors of fetchLogsBatch.
pub mod Digits
use ssv_oracle.Prelude.{
  ℕ, zero, suc, ◌+◌, ◌/◌, ◌%◌, Bool, true, false, ◌||◌, List, [], ◌∷◌, ◌++◌, ltb, if◌then◌else◌,
  Text, text, to_lower, contains,
}

pub data BatchErrorCategory : Type 0 where
  uncategorized block_range rate_limit payload_too_large timeout : BatchErrorCategory

-- categorizeBatchError on the text of an error that is not nil.
unfoldable pub categorize : Text → BatchErrorCategory
categorize err =
    let msg = to_lower err in
    if contains msg (text "block range")
      || (contains msg (text "exceed") || contains msg (text "query returned more than"))
    then block_range
    else if contains msg (text "rate limit")
        || (contains msg (text "too many requests") || contains msg (text "429"))
    then rate_limit
    else if contains msg (text "payload too large")
        || (contains msg (text "request entity too large")
            || (contains msg (text "413") || contains msg (text "too large")))
    then payload_too_large
    else if contains msg (text "timeout")
        || (contains msg (text "deadline exceeded") || contains msg (text "context deadline"))
    then timeout
    else if contains msg (text "limit") || contains msg (text "too many")
    then block_range
    else uncategorized

-- The decimal digits of a number, `%d`; the fuel bounds their number.
unfoldable pub digits_from : ℕ → ℕ → Text → Text
digits_from zero n acc = acc
digits_from (suc fuel) n acc =
    let rest = digits_from fuel (n / 10) ((48 + n % 10) ∷ acc) in
    if ltb n 10 then (48 + n) ∷ acc else rest

-- A uint64 has at most twenty digits.
unfoldable pub decimal : ℕ → Text
unfolding digits_from
decimal n = digits_from 20 n []

-- fmt.Errorf("fetch logs [%d-%d]: %w", ...)
unfoldable pub fetch_error : ℕ → ℕ → Text → Text
fetch_error from_block to_block inner =
    text "fetch logs ["
    ++ (decimal from_block ++ (text "-" ++ (decimal to_block ++ (text "]: " ++ inner))))
