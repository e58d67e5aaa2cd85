-- ===== src/Execution/Tests.antt =====
-- Runs of eth/ on small inputs.
use ssv_oracle.Prelude.{
  ℕ, ◌==◌, if◌then◌else◌, ◌*◌, ◌≡◌, ◌≢◌, refl, true, false, none, some, List, [], ◌∷◌, All, text,
  to_lower, has_prefix, contains, arith,
}
use mathlib.Core.List.{Permᴰ}
use ssv_oracle.Execution.BatchSize.{AdaptiveBatchSize}
use ssv_oracle.Execution.BatchSize.Bounds.{IsWithin}
use ssv_oracle.Execution.Errors.{categorize, fetch_error, uncategorized, decimal, digits_from}
use ssv_oracle.Execution.Errors.Digits.{fetch_error_429}
use ssv_oracle.Execution.Fetch.{Round, complete, fetch_logs}
use ssv_oracle.Execution.Fetch.Covers.{
  IsCovered, IsSmooth, fetch_logs-IsCovered, fetch_logs_terminates,
}
use ssv_oracle.Execution.Group.{Log, BlockLogs}
use ssv_oracle.Execution.Group.Blocks.{logs_of, BlocksRise}
use ssv_oracle.Execution.Pack.{pack_logs}
use ssv_oracle.Execution.Pack.Total.{IsBlock, pack_logs-IsGrouping}
use ssv_oracle.Execution.Group.Sorted.{InChainOrder}
use ssv_oracle.Execution.Retry.{Surroundings, default_retry_config, with_retry}
use ssv_oracle.Execution.Retry.Bounds.{IsRun, with_retry-IsRun}

abbrev size : AdaptiveBatchSize
size = record { current = 50; min = 10; max = 80 }

abbrev size_is_within : IsWithin size
size_is_within = record {
  min_pos = omega arith;
  min_le = omega arith;
  le_max = omega arith;
  room = omega arith;
}

abbrev smooth : Round
smooth = record {
  error = none;
  context_done_on_error = false;
  packs = true;
  callback_accepts = true;
  context_done = false;
}

abbrev is_smooth : IsSmooth smooth
is_smooth = record { no_error = refl; packed = refl; accepted = refl; going = refl }

abbrev limited : Round
limited = record smooth { error = some (text "429 too many requests") }

fetch_error_429_example :
    categorize (fetch_error 14290000 14290010 (text "internal error")) ≢ uncategorized
unfolding decimal digits_from to_lower has_prefix contains
fetch_error_429_example = fetch_error_429 14290000 14290010 (text "internal error") refl

fetch_logs-IsCovered_example :
    IsCovered 80 100 230 (fetch_logs size 100 230 (smooth ∷ limited ∷ smooth ∷ smooth ∷ []))
fetch_logs-IsCovered_example =
    fetch_logs-IsCovered (smooth ∷ limited ∷ smooth ∷ smooth ∷ []) size 100 230 size_is_within
      (omega arith) (omega arith)

fetch_logs_terminates_example :
    (fetch_logs size 100 102 (smooth ∷ smooth ∷ smooth ∷ [])).ending ≡ complete
fetch_logs_terminates_example =
    fetch_logs_terminates (smooth ∷ smooth ∷ smooth ∷ []) size 100 102 size_is_within (omega arith)
      (is_smooth, (is_smooth, (is_smooth, tt))) (omega arith)

abbrev log_at : ℕ → ℕ → Log
log_at b i = record {
  block_number = b;
  tx_index = 0;
  index = i;
  topics = [];
  payload = [];
  tx_hash = 0;
  block_hash = 0;
}

abbrev some_logs : List Log
some_logs = log_at 7 1 ∷ log_at 5 4 ∷ log_at 7 0 ∷ []

pack_logs-IsGrouping_example :
    (gs : List BlockLogs) × (pack_logs (λ chunk. true) (λ b. some (b * 12)) some_logs ≡ some gs)
    × InChainOrder (logs_of gs)
    × Permᴰ (logs_of gs) some_logs
    × BlocksRise gs
    × All (IsBlock (λ b. b * 12)) gs
pack_logs-IsGrouping_example =
    pack_logs-IsGrouping (λ chunk. true) (λ b. some (b * 12)) (λ b. b * 12)
      ((λ chunk. refl), (λ b. refl)) some_logs

abbrev flaky : Surroundings
flaky = record {
  reply = λ n. if n == 0 then some (text "timeout") else none;
  random = λ n. n;
  ends_wait = λ n. false;
}

with_retry-IsRun_example :
    IsRun default_retry_config none flaky 3 0 (with_retry default_retry_config none flaky)
with_retry-IsRun_example = with_retry-IsRun default_retry_config none flaky
