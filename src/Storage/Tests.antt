-- ===== src/Storage/Tests.antt =====
-- Runs of the tables oracle_commits and clusters.
use ssv_oracle.Prelude.{ℕ, ◌*◌, ◌≡◌, refl, true, none, some, List, [], ◌∷◌, arith}
use ssv_oracle.Storage.Clusters.{ClusterRow}
use ssv_oracle.Storage.Encoding.{columns_of, scan_cluster_row}
use ssv_oracle.Storage.Encoding.RoundTrip.{scan_cluster_row-columns_of}
use ssv_oracle.Storage.Commits.{confirmed, failed, OracleCommit, commit_of}
use ssv_oracle.Storage.Commits.History.{
  Statement, insert_pending, update_status, execute_all, Becomes, execute_all-Becomes,
}

abbrev row : ℕ → OracleCommit
row e = record {
  target_epoch = e;
  merkle_root = 7;
  reference_block = e * 32;
  cluster_balances = [];
  status = confirmed;
  tx_hash = none;
}

abbrev table : List OracleCommit
table = row 30 ∷ row 10 ∷ row 20 ∷ []

abbrev script : List Statement
script =
    insert_pending 40 9 1280 []
    ∷ update_status 20 failed none
    ∷ update_status 40 confirmed (some 5)
    ∷ []

execute_all-Becomes_example :
    (b : OracleCommit) × (commit_of 20 (execute_all script table) ≡ some b) × Becomes (row 20) b
unfolding commit_of
execute_all-Becomes_example = execute_all-Becomes script 20 table (tt, (tt, (tt, tt))) refl

abbrev cluster_row : ClusterRow
cluster_row = record {
  cluster_id = 5;
  owner_address = 1;
  operator_ids = 7 ∷ 1302 ∷ 0 ∷ [];
  validator_count = 1;
  network_fee_index = 0;
  index = 0;
  is_active = true;
  balance = 12000000000000000000;
}

scan_cluster_row-columns_of_example : scan_cluster_row (columns_of cluster_row) ≡ some cluster_row
scan_cluster_row-columns_of_example =
    scan_cluster_row-columns_of cluster_row (omega arith, (omega arith, (omega arith, tt)))
      (omega arith)
