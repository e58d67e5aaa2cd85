-- ===== src/Storage/Commits.antt =====
-- The table oracle_commits of storage/storage.go.
pub mod History
pub mod Queries
use ssv_oracle.Prelude.{
  ℕ, Bool, true, false, ◌||◌, ◌&&◌, Option, none, some, List, [], ◌∷◌, ltb, ◌==◌, if◌then◌else◌,
}

pub data CommitStatus : Type 0 where
  pending confirmed failed : CommitStatus

pub record ClusterBalance : Type 0 where
  pub cluster_id : ℕ
  pub effective_balance : ℕ  -- uint32

pub record OracleCommit : Type 0 where
  pub target_epoch : ℕ
  pub merkle_root : ℕ
  pub reference_block : ℕ
  pub cluster_balances : List ClusterBalance
  pub status : CommitStatus
  pub tx_hash : Option ℕ

-- The row of an epoch; the epoch is the primary key.
unfoldable pub commit_of : ℕ → List OracleCommit → Option OracleCommit
commit_of epoch [] = none
commit_of epoch (c ∷ rest) = if c.target_epoch == epoch then some c else commit_of epoch rest

-- GetCommitByBlock
unfoldable pub get_commit_by_block : ℕ → List OracleCommit → Option OracleCommit
get_commit_by_block block [] = none
get_commit_by_block block (c ∷ rest) =
    if c.reference_block == block then some c else get_commit_by_block block rest

-- InsertPendingCommit: a row of the same epoch stays as it is; another row of the same reference
-- block breaks the UNIQUE constraint.
unfoldable pub insert_pending_commit :
    ℕ → ℕ → ℕ → List ClusterBalance → List OracleCommit → Option (List OracleCommit)
unfolding commit_of get_commit_by_block
insert_pending_commit epoch root block balances table = elim (commit_of epoch table) [
  | some c ↦ some table
  | none ↦ elim (get_commit_by_block block table) [
    | some c ↦ none
    | none ↦ some (
        record {
          target_epoch = epoch;
          merkle_root = root;
          reference_block = block;
          cluster_balances = balances;
          status = pending;
          tx_hash = none;
        }
        ∷ table)
  ]
]

-- COALESCE(?, tx_hash)
abbrev coalesce : Option ℕ → Option ℕ → Option ℕ
coalesce none old = old
coalesce (some h) old = some h

abbrev pub is_pending : CommitStatus → Bool
is_pending pending = true
is_pending confirmed = false
is_pending failed = false

abbrev pub is_confirmed : CommitStatus → Bool
is_confirmed confirmed = true
is_confirmed pending = false
is_confirmed failed = false

abbrev pub with_status : CommitStatus → Option ℕ → OracleCommit → OracleCommit
with_status status hash c = record c { status = status; tx_hash = coalesce hash c.tx_hash }

-- UpdateCommitStatus: only a pending row of the epoch changes.
unfoldable pub update_commit_status :
    ℕ → CommitStatus → Option ℕ → List OracleCommit → List OracleCommit
update_commit_status epoch status hash [] = []
update_commit_status epoch status hash (c ∷ rest) =
    (if c.target_epoch == epoch && is_pending c.status then with_status status hash c else c)
    ∷ update_commit_status epoch status hash rest

abbrev pub newer : OracleCommit → Option OracleCommit → OracleCommit
newer c none = c
newer c (some d) = if ltb c.target_epoch d.target_epoch then d else c

-- GetLatestCommit: the confirmed row with the greatest epoch. InsertPendingCommit always stores
-- balances, so cluster_balances is never NULL.
unfoldable pub get_latest_commit : List OracleCommit → Option OracleCommit
get_latest_commit [] = none
get_latest_commit (c ∷ rest) =
    let later = get_latest_commit rest in
    if is_confirmed c.status then some (newer c later) else later

abbrev pub max_opt : ℕ → Option ℕ → ℕ
max_opt n none = n
max_opt n (some m) = if ltb n m then m else n

abbrev pub min_opt : ℕ → Option ℕ → ℕ
min_opt n none = n
min_opt n (some m) = if ltb m n then m else n

-- SELECT MAX(target_epoch) … WHERE target_epoch < ?
unfoldable pub prev_epoch : ℕ → List OracleCommit → Option ℕ
prev_epoch epoch [] = none
prev_epoch epoch (c ∷ rest) =
    let other = prev_epoch epoch rest in
    if ltb c.target_epoch epoch then some (max_opt c.target_epoch other) else other

-- SELECT MIN(target_epoch) … WHERE target_epoch > ?
unfoldable pub next_epoch : ℕ → List OracleCommit → Option ℕ
next_epoch epoch [] = none
next_epoch epoch (c ∷ rest) =
    let other = next_epoch epoch rest in
    if ltb epoch c.target_epoch then some (min_opt c.target_epoch other) else other

-- GetCommitByEpoch
unfoldable pub get_commit_by_epoch :
    ℕ → List OracleCommit → Option (OracleCommit × Option ℕ × Option ℕ)
unfolding commit_of prev_epoch next_epoch
get_commit_by_epoch epoch table = elim (commit_of epoch table) [
  | none ↦ none
  | some c ↦ some (c, prev_epoch epoch table, next_epoch epoch table)
]
