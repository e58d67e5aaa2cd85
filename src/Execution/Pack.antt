-- ===== src/Execution/Pack.antt =====
-- eth/execution/client.go: packLogs and getBlockTimestampsBatch. Whether the node answers a batch call, and
-- the time in the header that it has for a block, are functions of the batch and of the block.
pub mod Total
use ssv_oracle.Prelude.{
  ℕ, zero, suc, Bool, true, false, Option, none, some, List, [], ◌∷◌, length, take, drop, ◌==◌,
  if◌then◌else◌, insert,
}
use ssv_oracle.Oracle.Balances.{is_seen}
use ssv_oracle.Execution.Group.{Log, BlockLogs, group_logs_by_block}

abbrev pub block_timestamp_max_batch_size : ℕ
block_timestamp_max_batch_size = 100

-- The loop of packLogs over the logs, behind the blocks seen so far.
unfoldable pub unique_from : List ℕ → List Log → List ℕ
unfolding is_seen
unique_from seen [] = []
unique_from seen (l ∷ ls) =
    let skipped = unique_from seen ls in
    let added = unique_from (l.block_number ∷ seen) ls in
    if is_seen l.block_number seen then skipped else l.block_number ∷ added

-- slices.Chunk; the fuel is the length.
unfoldable pub chunks : ℕ → List ℕ → List (List ℕ)
chunks zero xs = []
chunks (suc fuel) [] = []
chunks (suc fuel) (x ∷ xs) =
    take block_timestamp_max_batch_size (x ∷ xs)
    ∷ chunks fuel (drop block_timestamp_max_batch_size (x ∷ xs))

-- The loop over the elements of one batch; an element without a header is an error.
unfoldable pub read_times : (ℕ → Option ℕ) → List ℕ → List (ℕ × ℕ) → Option (List (ℕ × ℕ))
unfolding insert
read_times header [] times = some times
read_times header (b ∷ bs) times = elim (header b) [
  | none ↦ none
  | some t ↦ read_times header bs (insert b t times)
]

abbrev pub continued :
    Option (List (ℕ × ℕ)) → (List (ℕ × ℕ) → Option (List (ℕ × ℕ))) → Option (List (ℕ × ℕ))
continued none next = none
continued (some times) next = next times

-- The loop of getBlockTimestampsBatch over the chunks.
unfoldable pub fetch_times :
    (List ℕ → Bool) → (ℕ → Option ℕ) → List (List ℕ) → List (ℕ × ℕ) → Option (List (ℕ × ℕ))
unfolding read_times
fetch_times call header [] times = some times
fetch_times call header (chunk ∷ rest) times = elim (call chunk) [
  | false ↦ none
  | true ↦ continued (read_times header chunk times) (fetch_times call header rest)
]

-- getBlockTimestampsBatch
unfoldable pub get_block_timestamps :
    (List ℕ → Bool) → (ℕ → Option ℕ) → List ℕ → Option (List (ℕ × ℕ))
unfolding chunks fetch_times
get_block_timestamps call header blocks = fetch_times call header (chunks (length blocks) blocks) []

abbrev pub grouped_with : Option (List (ℕ × ℕ)) → List Log → Option (List BlockLogs)
grouped_with none logs = none
grouped_with (some times) logs = group_logs_by_block times logs

-- packLogs; `none` is an error.
unfoldable pub pack_logs : (List ℕ → Bool) → (ℕ → Option ℕ) → List Log → Option (List BlockLogs)
unfolding unique_from get_block_timestamps group_logs_by_block
pack_logs call header [] = some []
pack_logs call header (l ∷ ls) =
    grouped_with (get_block_timestamps call header (unique_from [] (l ∷ ls))) (l ∷ ls)
