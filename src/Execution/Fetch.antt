-- ===== src/Execution/Fetch.antt =====
-- eth/execution/client.go: the loop of FetchLogs. What the node, the packing of the logs, the
-- callback and the context do is one `Round` for each pass of the loop; the loop has no bound of its
-- own, so the rounds are a list, and `running` says that they ended before the loop did.
pub mod Covers
use ssv_oracle.Prelude.{
  ℕ, ◌+◌, ◌-◌, Bool, true, false, not, Option, none, some, List, [], ◌∷◌, ltb, leb, if◌then◌else◌,
  u64, u64_mod, Text,
}
use ssv_oracle.Execution.BatchSize.{AdaptiveBatchSize, decrease, increase}
use ssv_oracle.Execution.Errors.{BatchErrorCategory, uncategorized, categorize, fetch_error}

pub record Round : Type 0 where
  -- the error of FilterLogs behind its retries, or none
  pub error : Option Text
  pub context_done_on_error : Bool
  pub packs : Bool
  pub callback_accepts : Bool
  pub context_done : Bool

-- A batch that the callback accepted: its first and its last block.
pub record Batch : Type 0 where
  pub first : ℕ
  pub last : ℕ

pub data Ending : Type 0 where
  complete fetch_failed pack_failed callback_failed context_done running : Ending

pub record Fetched : Type 0 where
  pub batches : List Batch
  pub ending : Ending
  pub size : AdaptiveBatchSize

-- batchEnd
unfoldable pub batch_end : AdaptiveBatchSize → ℕ → ℕ → ℕ
batch_end a current to_block =
    let e = u64 (current + a.current + u64_mod - 1) in if ltb to_block e then to_block else e

abbrev pub ended : AdaptiveBatchSize → Ending → Fetched
ended a e = record { batches = []; ending = e; size = a }

abbrev pub deliver : Batch → Fetched → Fetched
deliver b f = record f { batches = b ∷ f.batches }

-- A pass on which fetchLogsBatch fails: `again` is the pass with a smaller batch.
unfoldable pub after_error : AdaptiveBatchSize → ℕ → ℕ → Round → Text → Fetched → Fetched
after_error a current last r inner again = elim (categorize (fetch_error current last inner)) [
  | uncategorized ↦ ended a fetch_failed
  | _ ↦ if r.context_done_on_error then ended a context_done else again
]

-- A pass on which it returns logs: `next` is the pass from the block behind the batch.
unfoldable pub after_logs : AdaptiveBatchSize → Batch → Round → Fetched → Fetched
after_logs a b r next =
    if not r.packs
    then ended (increase a) pack_failed
    else if not r.callback_accepts
    then ended (increase a) callback_failed
    else deliver b (if r.context_done then ended (increase a) context_done else next)

-- FetchLogs
unfoldable pub fetch_logs : AdaptiveBatchSize → ℕ → ℕ → List Round → Fetched
unfolding batch_end after_error after_logs
fetch_logs a current to_block [] = ended a (if leb current to_block then running else complete)
fetch_logs a current to_block (r ∷ rest) =
    let last = batch_end a current to_block in
    let again = fetch_logs (decrease a) current to_block rest in
    let next = fetch_logs (increase a) (u64 (last + 1)) to_block rest in
    elim (leb current to_block) [
      | false ↦ ended a complete
      | true ↦ elim r.error [
        | some inner ↦ after_error a current last r inner again
        | none ↦ after_logs a (record { first = current; last = last }) r next
      ]
    ]
