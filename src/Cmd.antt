-- ===== src/Cmd.antt =====
-- cmd/oracle/commands/run.go: run, validateChainID and runServices. What succeeds of a start is the
-- record `Start`; the log has the resources in the order in which they are opened and closed.
pub mod Chain
pub mod Releases
pub mod Synced
mod Tests
use ssv_oracle.Prelude.{
  ℕ, Bool, true, false, Option, none, some, List, [], ◌∷◌, ◌++◌, ◌==◌, if◌then◌else◌, u64,
}
use ssv_oracle.Merkle.Crypto.{Crypto}
use ssv_oracle.Storage.{Db, get_chain_id, set_chain_id, clear_all_state}
use ssv_oracle.Syncer.Parser.{Abi}
use ssv_oracle.Syncer.State.{BatchResult}
use ssv_oracle.Syncer.Channel.{sync_to_finalized}

-- The chain ID of the node, or none for an error, and whether the statements on the database succeed.
pub record ChainCheck : Type 0 where
  pub node_chain_id : Option ℕ
  pub reads : Bool
  pub writes : Bool

-- validateChainID; `none` is an error. The node's chain ID is a big.Int, and the stored one a uint64.
check_stored : ChainCheck → ℕ → Option ℕ → Db → Option ℕ × Db
unfolding set_chain_id
check_stored k chain none db =
    if k.writes then (some chain, set_chain_id db (some (u64 chain))) else (none, db)
check_stored k chain (some stored) db = if stored == u64 chain then (some chain, db) else (none, db)

unfoldable pub validate_chain_id : ChainCheck → Db → Option ℕ × Db
unfolding check_stored get_chain_id
validate_chain_id k db = elim k.node_chain_id [
  | none ↦ (none, db)
  | some chain ↦ if k.reads then check_stored k chain (get_chain_id db) db else (none, db)
]

-- What run opens and closes again.
pub data Resource : Type 0 where
  signals metrics signer store exec_client contract_client : Resource

pub data Step : Type 0 where
  opened closed : Resource → Step
  -- runServices runs
  served : Step

pub data StartError : Type 0 where
  bad_config no_metrics no_signer no_store not_cleared no_exec_client bad_chain : StartError
  no_beacon no_contract services_failed : StartError

-- The end of runServices.
pub data ServicesEnd : Type 0 where
  finished cancelled broken : ServicesEnd

pub record Start : Type 0 where
  pub config_loads : Bool
  pub metrics_set_up : Bool
  pub signer_created : Bool
  pub store_opened : Bool
  pub fresh_start : Bool
  pub clears : Bool
  pub exec_connects : Bool
  pub chain_check : ChainCheck
  pub beacon_connects : Bool
  pub contract_connects : Bool
  pub services_end : ServicesEnd

pub record Ended : Type 0 where
  pub steps : List Step
  pub error : Option StartError
  pub db : Db

abbrev pub fail : StartError → Db → Ended
fail e db = record { steps = []; error = some e; db = db }

-- A resource with its `defer`: it is closed when what follows it has returned.
abbrev pub with_resource : Resource → Ended → Ended
with_resource r rest = record rest { steps = opened r ∷ (rest.steps ++ closed r ∷ []) }

services_error : ServicesEnd → Option StartError
services_error finished = none
services_error cancelled = none
services_error broken = some services_failed

from_contract : Start → Db → Ended
unfolding services_error
from_contract s db =
    if s.contract_connects
    then with_resource contract_client
        (record { steps = served ∷ []; error = services_error s.services_end; db = db })
    else fail no_contract db

from_beacon : Start → Db → Ended
unfolding from_contract
from_beacon s db = if s.beacon_connects then from_contract s db else fail no_beacon db

from_chain : Start → Option ℕ × Db → Ended
unfolding from_beacon
from_chain s (none, db) = fail bad_chain db
from_chain s (some chain, db) = from_beacon s db

from_exec : Start → Db → Ended
unfolding from_chain validate_chain_id
from_exec s db =
    if s.exec_connects
    then with_resource exec_client (from_chain s (validate_chain_id s.chain_check db))
    else fail no_exec_client db

from_clear : Start → Db → Ended
unfolding from_exec clear_all_state
from_clear s db =
    if s.fresh_start
    then if s.clears then from_exec s (clear_all_state db) else fail not_cleared db
    else from_exec s db

from_store : Start → Db → Ended
unfolding from_clear
from_store s db = if s.store_opened then with_resource store (from_clear s db) else fail no_store db

from_signer : Start → Db → Ended
unfolding from_store
from_signer s db =
    if s.signer_created then with_resource signer (from_store s db) else fail no_signer db

from_metrics : Start → Db → Ended
unfolding from_signer
from_metrics s db =
    if s.metrics_set_up then with_resource metrics (from_signer s db) else fail no_metrics db

-- run
unfoldable pub run : Start → Db → Ended
unfolding from_metrics
run s db = with_resource signals (if s.config_loads then from_metrics s db else fail bad_config db)

-- The goroutines of runServices.
pub data Service : Type 0 where
  metrics_server api_server oracle updater : Service

abbrev on_synced : Bool → Bool → List Service
on_synced false with_updater = []
on_synced true with_updater = oracle ∷ (if with_updater then updater ∷ [] else [])

-- runServices: the services that it starts, and the tables behind the initial sync, on the deploy block,
-- the finalized block, and what comes out of the channel of the sync.
unfoldable pub run_services :
    Crypto → Abi → ℕ → Option ℕ → List BatchResult → Bool → Bool → Db → List Service × Db
unfolding sync_to_finalized
run_services c abi deploy_block finalized batches context_done with_updater db =
    let (tables, synced) =
      sync_to_finalized c abi deploy_block finalized batches context_done db.tables in
    (metrics_server ∷ api_server ∷ on_synced synced with_updater, record db { tables = tables })
