-- ===== src/Storage.antt =====
-- storage/storage.go and storage/schema.sql: the tables, and one function for each SQL statement.
-- Identifiers, roots and hashes are the numbers that their bytes spell. Where a statement breaks a
-- constraint of the schema the result is `none`; a failing disk is not modelled.
pub mod Commits
pub mod Clusters
pub mod Encoding
mod Tests
use ssv_oracle.Prelude.{ℕ, Bool, Option, none, List, []}
use ssv_oracle.Storage.Commits.{OracleCommit}
use ssv_oracle.Storage.Clusters.{Tables, no_tables}

-- The database: the tables that the syncer writes, the commits, and the chain ID of
-- sync_progress.
pub record Db : Type 0 where
  pub tables : Tables
  pub commits : List OracleCommit
  pub chain_id : Option ℕ

-- GetChainID and SetChainID.
unfoldable pub get_chain_id : Db → Option ℕ
get_chain_id db = db.chain_id

unfoldable pub set_chain_id : Db → Option ℕ → Db
set_chain_id db id = record db { chain_id = id }

-- ClearAllState, in one transaction.
unfoldable pub clear_all_state : Db → Db
clear_all_state db = record { tables = no_tables; commits = []; chain_id = none }
