-- ===== src/Storage/Clusters.antt =====
-- The tables contract_events, clusters, validators and sync_progress of storage/storage.go.
use ssv_oracle.Prelude.{
  ℕ, Bool, true, false, ◌&&◌, Option, none, some, List, [], ◌∷◌, ◌==◌, if◌then◌else◌, Text, lookup,
  sort, insert, ◌++◌, length, batches_from,
}

pub record ContractEvent : Type 0 where
  pub event_type : Text
  pub block_number : ℕ
  pub block_hash : ℕ
  pub block_time : ℕ
  pub transaction_hash : ℕ
  pub transaction_index : ℕ
  pub log_index : ℕ
  pub event_cluster : Option ℕ  -- ClusterID
  pub error : Option Text

pub record ClusterRow : Type 0 where
  pub cluster_id : ℕ
  pub owner_address : ℕ
  pub operator_ids : List ℕ
  pub validator_count : ℕ
  pub network_fee_index : ℕ
  pub index : ℕ
  pub is_active : Bool
  pub balance : ℕ

-- A slice of bytes: its length, and the number it spells.
pub record Bytes : Type 0 where
  pub size : ℕ
  pub value : ℕ

-- ActiveValidator, and a row of the table validators.
pub record Validator : Type 0 where
  pub validator_cluster : ℕ
  pub validator_pubkey : Bytes

pub record Tables : Type 0 where
  pub events : List ContractEvent
  pub clusters : List (ℕ × ClusterRow)
  pub validators : List Validator
  pub last_synced : ℕ

unfoldable pub no_tables : Tables
no_tables = record { events = []; clusters = []; validators = []; last_synced = 0 }

-- Whether a row has the key (block_number, log_index).
unfoldable pub has_event : ℕ → ℕ → List ContractEvent → Bool
has_event block log [] = false
has_event block log (e ∷ rest) =
    if e.block_number == block && e.log_index == log then true else has_event block log rest

-- insertEvent: ON CONFLICT DO NOTHING.
unfoldable pub insert_event : ContractEvent → Tables → Tables
insert_event e t =
    if has_event e.block_number e.log_index t.events then t else record t { events = e ∷ t.events }

-- upsertCluster; encodeOperatorIDs does not fail on a slice of integers.
unfoldable pub upsert_cluster : ClusterRow → Tables → Tables
upsert_cluster row t = record t { clusters = insert row.cluster_id row t.clusters }

unfoldable pub is_pair : ℕ → Bytes → Validator → Bool
is_pair id key v =
    v.validator_cluster == id
    && v.validator_pubkey.size == key.size
    && v.validator_pubkey.value == key.value

unfoldable pub has_validator : ℕ → Bytes → List Validator → Bool
unfolding is_pair
has_validator id key [] = false
has_validator id key (v ∷ rest) = if is_pair id key v then true else has_validator id key rest

abbrev pub pubkey_length : ℕ
pubkey_length = 48

-- The INSERT of insertValidator: nothing on a conflict, and an error where the foreign key has no
-- cluster.
unfoldable pub add_validator : ℕ → Bytes → Tables → Option Tables
unfolding has_validator
add_validator id key t =
    if has_validator id key t.validators then some t else elim (lookup id t.clusters) [
      | none ↦ none
      | some row ↦ some (record t {
        validators = record { validator_cluster = id; validator_pubkey = key } ∷ t.validators;
      })
    ]

-- insertValidator
unfoldable pub insert_validator : ℕ → Bytes → Tables → Option Tables
unfolding add_validator
insert_validator id key t = if key.size == pubkey_length then add_validator id key t else none

unfoldable pub without_validator : ℕ → Bytes → List Validator → List Validator
unfolding is_pair
without_validator id key [] = []
without_validator id key (v ∷ rest) =
    let others = without_validator id key rest in if is_pair id key v then others else v ∷ others

-- deleteValidator
unfoldable pub delete_validator : ℕ → Bytes → Tables → Tables
unfolding without_validator
delete_validator id key t = record t { validators = without_validator id key t.validators }

-- updateLastSyncedBlock
unfoldable pub update_last_synced_block : ℕ → Tables → Tables
update_last_synced_block block t = record t { last_synced = block }

-- getClusterRow
unfoldable pub get_cluster : ℕ → Tables → Option ClusterRow
get_cluster id t = lookup id t.clusters

-- WHERE cluster_id IN (…)
unfoldable pub is_one_of : ℕ → List ℕ → Bool
is_one_of id [] = false
is_one_of id (i ∷ ids) = if i == id then true else is_one_of id ids

-- queryClusterRowsBatch: a row once, however often its identifier is asked for.
unfoldable pub query_cluster_rows_batch : List ℕ → List (ℕ × ClusterRow) → List ClusterRow
unfolding is_one_of
query_cluster_rows_batch ids [] = []
query_cluster_rows_batch ids ((k, row) ∷ rest) =
    let others = query_cluster_rows_batch ids rest in
    if is_one_of k ids then row ∷ others else others

abbrev pub cluster_batch_size : ℕ
cluster_batch_size = 1000

unfoldable pub query_batches : List (List ℕ) → List (ℕ × ClusterRow) → List ClusterRow
unfolding query_cluster_rows_batch
query_batches [] m = []
query_batches (ids ∷ rest) m = query_cluster_rows_batch ids m ++ query_batches rest m

-- getClusterRowsByIDs
unfoldable pub get_cluster_rows_by_ids : List ℕ → Tables → List ClusterRow
unfolding query_batches
get_cluster_rows_by_ids ids t =
    query_batches (batches_from cluster_batch_size (length ids) 0 ids) t.clusters

-- GetFinalizedClusters
unfoldable pub get_finalized_clusters : List ℕ → Tables → List ClusterRow × ℕ
unfolding get_cluster_rows_by_ids
get_finalized_clusters ids t = (get_cluster_rows_by_ids ids t, t.last_synced)

-- deleteCluster; the validators of the cluster go with it (ON DELETE CASCADE).
unfoldable pub without_cluster : ℕ → List (ℕ × ClusterRow) → List (ℕ × ClusterRow)
without_cluster id [] = []
without_cluster id ((k, row) ∷ rest) =
    let others = without_cluster id rest in if k == id then others else (k, row) ∷ others

unfoldable pub without_validators : ℕ → List Validator → List Validator
without_validators id [] = []
without_validators id (v ∷ rest) =
    let others = without_validators id rest in
    if v.validator_cluster == id then others else v ∷ others

unfoldable pub delete_cluster : ℕ → Tables → Tables
unfolding without_cluster without_validators
delete_cluster id t = record t {
  clusters = without_cluster id t.clusters;
  validators = without_validators id t.validators;
}

-- The JOIN of GetActiveValidators: whether a validator's cluster is active.
abbrev pub row_is_active : Option ClusterRow → Bool
row_is_active none = false
row_is_active (some row) = row.is_active

unfoldable pub active_from : List (ℕ × ClusterRow) → List Validator → List Validator
active_from m [] = []
active_from m (v ∷ rest) =
    let others = active_from m rest in
    if row_is_active (lookup v.validator_cluster m) then v ∷ others else others

abbrev pub cluster_key : Validator → ℕ
cluster_key v = v.validator_cluster

abbrev pub pubkey_key : Validator → ℕ
pubkey_key v = v.validator_pubkey.value

-- GetActiveValidators: by cluster, then by key. The sort is stable, and all keys have 48 bytes, so
-- that the order of the bytes is that of the numbers.
unfoldable pub get_active_validators : Tables → List Validator
unfolding active_from
get_active_validators t = sort cluster_key (sort pubkey_key (active_from t.clusters t.validators))

-- ClusterInfo
pub record ClusterInfo : Type 0 where
  pub info_owner : ℕ
  pub info_operators : List ℕ

-- GetAllClusterInfo: one entry per row; the keys are the cluster IDs.
unfoldable pub cluster_infos : List (ℕ × ClusterRow) → List (ℕ × ClusterInfo)
cluster_infos [] = []
cluster_infos ((id, row) ∷ rest) =
    (id, record { info_owner = row.owner_address; info_operators = row.operator_ids })
    ∷ cluster_infos rest

unfoldable pub get_all_cluster_info : Tables → List (ℕ × ClusterInfo)
unfolding cluster_infos
get_all_cluster_info t = cluster_infos t.clusters
