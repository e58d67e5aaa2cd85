-- ===== src/Cmd/Synced.antt =====
-- For runServices: the tables when the oracle and the updater start.
use ssv_oracle.Prelude.{ℕ, ◌+◌, ◌≤◌, ◌≡◌, ◌⊎◌, Bool, List, [], ◌∷◌, if◌then◌else◌}
use ssv_oracle.Merkle.Crypto.{Crypto}
use ssv_oracle.Storage.{Db}
use ssv_oracle.Storage.Clusters.{Tables}
use ssv_oracle.Execution.BatchSize.{AdaptiveBatchSize}
use ssv_oracle.Execution.Fetch.{Round, Batch, fetch_logs}
use ssv_oracle.Execution.Group.{BlockLogs}
use ssv_oracle.Syncer.Parser.{Abi}
use ssv_oracle.Syncer.State.{BatchResult}
use ssv_oracle.Syncer.Channel.{channel}
use ssv_oracle.Cmd.{Service, metrics_server, api_server, oracle, updater}

-- Either the sync fails and neither of the two starts, or the tables are synced to the finalized block
-- when they do.
abbrev pub StartsSynced : ℕ → Bool → List Service × Db → Type 0
StartsSynced finalized with_updater (services, db) =
    (services ≡ metrics_server ∷ api_server ∷ [])
    ⊎ ((finalized ≤ db.tables.last_synced)
        × (services
            ≡ metrics_server ∷ api_server ∷ oracle ∷ (if with_updater then updater ∷ [] else [])))

module _ (c : Crypto) (abi : Abi) (logs : Batch → List BlockLogs) where
  -- What comes out of the channel of a sync of `t`.
  abbrev pub batches_for : AdaptiveBatchSize → ℕ → List Round → Tables → List BatchResult
  batches_for size finalized rounds t =
      channel logs (fetch_logs size (t.last_synced + 1) finalized rounds)
