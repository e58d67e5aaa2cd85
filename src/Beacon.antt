-- ===== src/Beacon.antt =====
-- eth/beacon/client.go: which errors are retried, and GetValidatorBalances, with the answer of the node
-- to a batch, behind its retries, as a function of the batch. The subscription of finalized
-- checkpoints is a buffer of one that drops what it has no room for.
pub mod Batches
pub mod Merged
mod Tests
use ssv_oracle.Prelude.{
  ℕ, zero, suc, ◌+◌, ◌-◌, Bool, true, false, not, ◌&&◌, Option, none, some, List, [], ◌∷◌, map,
  length, take, drop, ltb, leb, batches_from, ◌==◌, if◌then◌else◌, insert,
}
use ssv_oracle.Storage.Clusters.{Bytes}

-- IsRetriable; the status code of an API error, or none for another error.
unfoldable pub is_retriable : Option ℕ → Bool
is_retriable none = true
is_retriable (some code) = not (leb 400 code && ltb code 500 && not (code == 429))

-- The function that VerifyFinalizedBlockRoot retries, on the root of the finalized header, or none for an
-- error.
unfoldable pub verify_root : ℕ → Option ℕ → Bool
verify_root expected none = false
verify_root expected (some root) = root == expected

abbrev pub balance_fetch_batch_size : ℕ
balance_fetch_batch_size = 2000

-- The keys in batches.
unfoldable pub batches_of : List ℕ → List (List ℕ)
unfolding batches_from
batches_of keys = batches_from balance_fetch_batch_size (length keys) 0 keys

-- The loop over the validators of one response.
unfoldable pub merge : List (ℕ × ℕ) → List (ℕ × ℕ) → List (ℕ × ℕ)
unfolding insert
merge [] m = m
merge ((k, balance) ∷ rest) m = merge rest (insert k balance m)

-- The calls in the order in which they end. One that fails is the result of Wait.
abbrev pub merged :
    Option (List (ℕ × ℕ))
    → (List (ℕ × ℕ) → Option (List (ℕ × ℕ)))
    → List (ℕ × ℕ)
    → Option (List (ℕ × ℕ))
merged none next m = none
merged (some rs) next m = next (merge rs m)

unfoldable pub fetch_all :
    (List ℕ → Option (List (ℕ × ℕ))) → List (List ℕ) → List (ℕ × ℕ) → Option (List (ℕ × ℕ))
unfolding merge
fetch_all validators [] m = some m
fetch_all validators (batch ∷ rest) m = merged (validators batch) (fetch_all validators rest) m

abbrev pub key_of : Bytes → ℕ
key_of b = b.value

-- GetValidatorBalances, on keys of 48 bytes; `order` is the order in which the calls end.
unfoldable pub get_validator_balances :
    (List ℕ → Option (List (ℕ × ℕ)))
    → (List (List ℕ) → List (List ℕ))
    → List Bytes
    → Option (List (ℕ × ℕ))
unfolding batches_of fetch_all
get_validator_balances validators order [] = some []
get_validator_balances validators order (key ∷ keys) =
    fetch_all validators (order (batches_of (map key_of (key ∷ keys)))) []

-- FinalizedCheckpoint
pub record FinalizedCheckpoint : Type 0 where
  pub epoch : ℕ
  pub block_num : ℕ
  pub block_root : ℕ

-- fetchCheckpoint, behind its retries: the event's epoch and root, with the execution block number of
-- the block, or none for an error.
abbrev pub fetch_checkpoint : ℕ → ℕ → Option ℕ → Option FinalizedCheckpoint
fetch_checkpoint epoch root none = none
fetch_checkpoint epoch root (some n) =
    some (record { epoch = epoch; block_num = n; block_root = root })

-- The handler of an event, on the buffer of the channel.
abbrev pub offer :
    Option FinalizedCheckpoint → Option FinalizedCheckpoint → Option FinalizedCheckpoint
offer none buffer = buffer
offer (some cp) none = some cp
offer (some cp) (some old) = some old

unfoldable pub on_event : ℕ → ℕ → Option ℕ → Option FinalizedCheckpoint → Option FinalizedCheckpoint
on_event epoch root number buffer = offer (fetch_checkpoint epoch root number) buffer
