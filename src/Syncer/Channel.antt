-- ===== src/Syncer/Channel.antt =====
-- eth/syncer/syncer.go: runFetcher, which feeds FetchLogs into the channel, and SyncToFinalized.
pub mod Progress
pub mod Batching
use ssv_oracle.Prelude.{
  ℕ, ◌+◌, ◌-◌, Bool, false, Option, none, some, List, [], ◌∷◌, ◌++◌, map, ◌==◌, if◌then◌else◌, u64,
  u64_mod,
}
use ssv_oracle.Merkle.Crypto.{Crypto}
use ssv_oracle.Storage.Clusters.{Tables, update_last_synced_block}
use ssv_oracle.Execution.Fetch.{Batch, Ending, complete, Fetched}
use ssv_oracle.Execution.Group.{BlockLogs}
use ssv_oracle.Syncer.Parser.{Abi}
use ssv_oracle.Syncer.State.{BatchResult, fetched, fetch_error, sync_to_block}

-- What runFetcher sends behind the batches.
abbrev pub closing : Ending → List BatchResult
closing complete = []
closing _ = fetch_error ∷ []

-- runFetcher: the batches of a call of FetchLogs with the logs of each, and an error at the end where
-- the call fails.
unfoldable pub channel : (Batch → List BlockLogs) → Fetched → List BatchResult
channel logs f = map (λ b. fetched b.last (logs b)) f.batches ++ closing f.ending

-- The initial position of SyncToFinalized.
unfoldable pub from_deployment : ℕ → Tables → Tables
unfolding update_last_synced_block
from_deployment deploy_block t =
    if t.last_synced == 0 then update_last_synced_block (u64 (deploy_block + u64_mod - 1)) t else t

-- SyncToFinalized, on the deploy block, the finalized block or an error of the node, and what comes
-- out of the channel.
unfoldable pub sync_to_finalized :
    Crypto → Abi → ℕ → Option ℕ → List BatchResult → Bool → Tables → Tables × Bool
unfolding from_deployment sync_to_block
sync_to_finalized c abi deploy_block none batches context_done t =
    (from_deployment deploy_block t, false)
sync_to_finalized c abi deploy_block (some finalized) batches context_done t =
    sync_to_block c abi finalized batches context_done (from_deployment deploy_block t)
