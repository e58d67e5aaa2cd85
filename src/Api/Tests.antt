-- ===== src/Api/Tests.antt =====
-- Requests on a database of two commits.
use ssv_oracle.Prelude.{
  ℕ, ◌+◌, ◌*◌, ◌%◌, ◌≡◌, refl, none, some, List, [], ◌∷◌, lookup, text, to_lower, text_eq, arith,
}
use ssv_oracle.Merkle.Crypto.{Crypto}
use ssv_oracle.Storage.{Db}
use ssv_oracle.Storage.Clusters.{no_tables}
use ssv_oracle.Storage.Commits.{
  ClusterBalance, OracleCommit, confirmed, commit_of, get_commit_by_block, get_commit_by_epoch,
  prev_epoch, next_epoch,
}
use ssv_oracle.Storage.Encoding.{read_number}
use ssv_oracle.Oracle.Balances.{cluster_map, build_tree}
use ssv_oracle.Oracle.Commit.Roots.{IsSound}
use ssv_oracle.Api.{Request, storage_of, success, resolved, resolve_commit, parse_uint}
use ssv_oracle.Api.Hex.{to_hex32, parse_cluster_id}
use ssv_oracle.Api.Hex.RoundTrip.{parse_cluster_id-to_hex32}
use ssv_oracle.Api.Proof.{handle_get_proof}
use ssv_oracle.Api.Proof.Served.{Serves, handle_get_proof-Serves}
use ssv_oracle.Api.Diff.Patched.{balance_in}
use ssv_oracle.Api.Commit.{CommitResponse, is_full, handle_get_commit}
use ssv_oracle.Api.Commit.Reported.{Reports, handle_get_commit-Reports}

unfoldable toy_hash : List ℕ → ℕ
toy_hash [] = 7
toy_hash (x ∷ xs) = (x + 31 * toy_hash xs) % 1000003

abbrev toy : Crypto
toy = record { keccak256 = toy_hash; pack_leaf = λ id b. id ∷ b ∷ [] }

abbrev entry : ℕ → ℕ → ClusterBalance
entry id balance = record { cluster_id = id; effective_balance = balance }

abbrev row_of : ℕ → List ClusterBalance → OracleCommit
row_of epoch balances = record {
  target_epoch = epoch;
  merkle_root = (build_tree toy balances).root;
  reference_block = epoch * 32;
  cluster_balances = balances;
  status = confirmed;
  tx_hash = some 9;
}

abbrev old : OracleCommit
old = row_of 10 (entry 5 32 ∷ entry 9 64 ∷ [])

abbrev new : OracleCommit
new = row_of 20 (entry 9 96 ∷ entry 2 32 ∷ [])

abbrev db : Db
db = record { tables = no_tables; commits = new ∷ old ∷ []; chain_id = some 1 }

db-IsSound : IsSound toy db
unfolding no_tables lookup commit_of get_commit_by_block
db-IsSound = record {
  consistent = record {
    distinct_events = tt;
    distinct_clusters = tt;
    own_keys = λ id e. absurd (ground arith);
    placed = tt;
  };
  well_formed = (refl, refl, (refl, refl, tt));
  own_roots = (refl, (refl, tt));
}

abbrev request : Request
request = record { cluster_text = to_hex32 9; epoch = text "20"; full = text "True" }

request_commit : resolve_commit (storage_of db) (text "20") ≡ resolved new (some 10) none
unfolding resolve_commit storage_of parse_uint read_number get_commit_by_epoch commit_of prev_epoch
    next_epoch
request_commit = refl

parse_cluster_id-to_hex32_example : parse_cluster_id (to_hex32 9) ≡ some 9
parse_cluster_id-to_hex32_example = parse_cluster_id-to_hex32 9 (omega arith)

handle_get_proof-Serves_example :
    Serves toy 9 new
      (lookup 9 (cluster_map new.cluster_balances []))
      (handle_get_proof toy (storage_of db) request)
handle_get_proof-Serves_example =
    handle_get_proof-Serves toy db request 9 new (some 10) none db-IsSound
      (parse_cluster_id-to_hex32 9 (omega arith)) request_commit

handle_get_commit-Reports_example :
    (resp : CommitResponse) × (handle_get_commit toy (storage_of db) request ≡ success resp)
    × Reports (some 10) resp old new
unfolding is_full to_lower text_eq commit_of balance_in
handle_get_commit-Reports_example =
    handle_get_commit-Reports toy db request new old 10 none db-IsSound refl request_commit refl
      (refl, (refl, tt)) (omega arith, (omega arith, tt)) (omega arith)
