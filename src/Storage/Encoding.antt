-- ===== src/Storage/Encoding.antt =====
-- storage/storage.go: how a cluster row is written into its columns and read back: the operator IDs as
-- a JSON array, the balance as a decimal text, a flag as 0 or 1. The reader of JSON is described for
-- arrays without white space, which is what the writer makes.
pub mod RoundTrip
use ssv_oracle.Prelude.{
  ℕ, ◌+◌, ◌-◌, ◌*◌, Bool, true, false, not, ◌&&◌, Option, none, some, List, [], ◌∷◌, ◌++◌, ltb, leb,
  ◌==◌, if◌then◌else◌, u64_mod, Text,
}
use ssv_oracle.Execution.Errors.{decimal, digits_from}
use ssv_oracle.Storage.Clusters.{ClusterRow}

-- The columns of a row of the table clusters.
pub record Columns : Type 0 where
  pub cluster_id : ℕ
  pub owner_address : ℕ
  pub operator_ids : Text
  pub validator_count : ℕ
  pub network_fee_index : ℕ
  pub idx : ℕ
  pub is_active : ℕ
  pub balance : Text

abbrev pub is_digit : ℕ → Bool
is_digit c = leb 48 c && leb c 57

abbrev pub digit_behind : Option ℕ → ℕ → ℕ
digit_behind none c = c - 48
digit_behind (some n) c = n * 10 + (c - 48)

-- encodeOperatorIDs: json.Marshal of a slice that is not nil.
unfoldable pub more_ids : List ℕ → Text
unfolding decimal
more_ids [] = b']' ∷ []
more_ids (id ∷ ids) = b',' ∷ (decimal id ++ more_ids ids)

unfoldable pub encode_operator_ids : List ℕ → Text
unfolding decimal more_ids
encode_operator_ids [] = b'[' ∷ b']' ∷ []
encode_operator_ids (id ∷ ids) = b'[' ∷ (decimal id ++ more_ids ids)

-- json.Unmarshal behind the opening bracket, with the number of which digits have been read; a number
-- beyond a uint64 is an error.
abbrev pub cons_id : ℕ → Option (List ℕ) → Option (List ℕ)
cons_id n none = none
cons_id n (some ids) = some (n ∷ ids)

unfoldable pub is_closed : Text → Bool
is_closed [] = true
is_closed (c ∷ s) = false

unfoldable pub read_ids : Option ℕ → Text → Option (List ℕ)
unfolding is_closed
read_ids o [] = none
read_ids o (c ∷ s) = elim (is_digit c) [
  | true ↦ elim (ltb (digit_behind o c) u64_mod) [
    | true ↦ read_ids (some (digit_behind o c)) s
    | false ↦ none
  ]
  | false ↦ elim o [
    | none ↦ none
    | some n ↦ elim (c == b',') [
      | true ↦ cons_id n (read_ids none s)
      | false ↦ if c == b']' && is_closed s then some (n ∷ []) else none
    ]
  ]
]

-- decodeOperatorIDs
unfoldable pub decode_operator_ids : Text → Option (List ℕ)
unfolding read_ids is_closed
decode_operator_ids [] = none
decode_operator_ids (c ∷ []) = none
decode_operator_ids (c ∷ d ∷ s) =
    if c == b'['
    then (if d == b']' && is_closed s then some [] else read_ids none (d ∷ s))
    else none

-- big.Int: String, for a number below 10^78, which a uint256 is.
unfoldable pub big_decimal : ℕ → Text
unfolding digits_from
big_decimal n = digits_from 78 n []

-- SetString(_, 10), on digits without a sign or an underscore.
unfoldable pub read_number : Option ℕ → Text → Option ℕ
read_number o [] = o
read_number o (c ∷ s) = elim (is_digit c) [
  | true ↦ read_number (some (digit_behind o c)) s
  | false ↦ none
]

abbrev pub bool_to_int : Bool → ℕ
bool_to_int true = 1
bool_to_int false = 0

abbrev pub int_to_bool : ℕ → Bool
int_to_bool i = not (i == 0)

-- The arguments of the INSERT of upsertCluster.
unfoldable pub columns_of : ClusterRow → Columns
unfolding encode_operator_ids big_decimal
columns_of row = record {
  cluster_id = row.cluster_id;
  owner_address = row.owner_address;
  operator_ids = encode_operator_ids row.operator_ids;
  validator_count = row.validator_count;
  network_fee_index = row.network_fee_index;
  idx = row.index;
  is_active = bool_to_int row.is_active;
  balance = big_decimal row.balance;
}

abbrev pub scanned : Columns → Option (List ℕ) → Option ℕ → Option ClusterRow
scanned c none balance = none
scanned c (some ids) none = none
scanned c (some ids) (some balance) = some (record {
  cluster_id = c.cluster_id;
  owner_address = c.owner_address;
  operator_ids = ids;
  validator_count = c.validator_count;
  network_fee_index = c.network_fee_index;
  index = c.idx;
  is_active = int_to_bool c.is_active;
  balance = balance;
})

-- scanClusterRow
unfoldable pub scan_cluster_row : Columns → Option ClusterRow
unfolding decode_operator_ids read_number
scan_cluster_row c = scanned c (decode_operator_ids c.operator_ids) (read_number none c.balance)
