-- ===== src/Storage/Encoding/RoundTrip.antt =====
-- For the columns of a cluster row: writing and reading back.
use ssv_oracle.Prelude.{
  ℕ, zero, suc, ◌+◌, ◌*◌, ◌/◌, ◌%◌, ◌<◌, ◌≡◌, refl, ap, ◌∙◌, Bool, true, false, Option, none, some,
  List, [], ◌∷◌, ◌++◌, ltb, ◌==◌, u64_mod, lt→ltb, Text, All, Bool-cases, inl, inr, arith, tests,
}
use ssv_oracle.Execution.Errors.{decimal, digits_from}
use ssv_oracle.Storage.Clusters.{ClusterRow}
use ssv_oracle.Storage.Encoding.{
  digit_behind, more_ids, encode_operator_ids, cons_id, is_closed, read_ids, decode_operator_ids,
  big_decimal, read_number, bool_to_int, int_to_bool, columns_of, scan_cluster_row,
}

digits_from-append :
    (fuel n : ℕ) (acc s : Text) → digits_from fuel n acc ++ s ≡ digits_from fuel n (acc ++ s)
unfolding digits_from
digits_from-append zero n acc s = refl
digits_from-append (suc fuel) n acc s =
    ground (arith, digits_from-append fuel (n / 10) ((48 + n % 10) ∷ acc) s)

-- One digit behind the number before it.
read_ids-digit :
    (o : Option ℕ) (d : ℕ) (s : Text)
    → d < 10
    → digit_behind o (48 + d) < u64_mod
    → read_ids o ((48 + d) ∷ s) ≡ read_ids (some (digit_behind o (48 + d))) s
unfolding read_ids
read_ids-digit o d s h k = ground arith

read_number-digit :
    (o : Option ℕ) (d : ℕ) (s : Text)
    → d < 10
    → read_number o ((48 + d) ∷ s) ≡ read_number (some (digit_behind o (48 + d))) s
unfolding read_number
read_number-digit o d s h = ground arith

abbrev pub ten_to : ℕ → ℕ
ten_to zero = 1
ten_to (suc k) = 10 * ten_to k

-- Reading the digits of a number is reading that number.
read_ids-digits_from :
    (fuel n : ℕ) (s : Text)
    → n < ten_to (suc fuel)
    → n < u64_mod
    → read_ids none (digits_from (suc fuel) n s) ≡ read_ids (some n) s
unfolding digits_from
read_ids-digits_from zero n s h k = rw (lt→ltb n 10 (omega (arith, h))) (
    read_ids-digit none n s (omega (arith, h)) (omega (arith, k))
    ∙ ap (λ x. read_ids (some x) s) (omega arith))
read_ids-digits_from (suc fuel) n s h k = elim (Bool-cases (ltb n 10)) [
  | inl y ↦ rw y (
      read_ids-digit none n s (omega (tests, y)) (omega (arith, k))
      ∙ ap (λ x. read_ids (some x) s) (omega arith))
  | inr z ↦ rw z (
      read_ids-digits_from fuel (n / 10) ((48 + n % 10) ∷ s) (omega (arith, h)) (omega (arith, k))
      ∙ read_ids-digit (some (n / 10)) (n % 10) s (omega arith) (omega (arith, k))
      ∙ ap (λ x. read_ids (some x) s) (omega arith))
]

read_number-digits_from :
    (fuel n : ℕ) (s : Text)
    → n < ten_to (suc fuel)
    → read_number none (digits_from (suc fuel) n s) ≡ read_number (some n) s
unfolding digits_from
read_number-digits_from zero n s h =
    rw (lt→ltb n 10 (omega (arith, h))) (
      read_number-digit none n s (omega (arith, h))
      ∙ ap (λ x. read_number (some x) s) (omega arith))
read_number-digits_from (suc fuel) n s h = elim (Bool-cases (ltb n 10)) [
  | inl y ↦ rw y (
      read_number-digit none n s (omega (tests, y))
      ∙ ap (λ x. read_number (some x) s) (omega arith))
  | inr z ↦ rw z (
      read_number-digits_from fuel (n / 10) ((48 + n % 10) ∷ s) (omega (arith, h))
      ∙ read_number-digit (some (n / 10)) (n % 10) s (omega arith)
      ∙ ap (λ x. read_number (some x) s) (omega arith))
]

read_ids-decimal :
    (n : ℕ) (s : Text) → n < u64_mod → read_ids none (decimal n ++ s) ≡ read_ids (some n) s
unfolding decimal
read_ids-decimal n s h =
    ap (read_ids none) (digits_from-append 20 n [] s)
    ∙ read_ids-digits_from 19 n s (omega (arith, h)) h

read_ids-more_ids :
    (n : ℕ) (ids : List ℕ)
    → All (λ id. id < u64_mod) ids
    → read_ids (some n) (more_ids ids) ≡ some (n ∷ ids)
unfolding read_ids more_ids is_closed
read_ids-more_ids n [] h = refl
read_ids-more_ids n (id ∷ ids) h =
    ap (cons_id n) (read_ids-decimal id (more_ids ids) h.0 ∙ read_ids-more_ids id ids h.1)

-- What is read as a first number does not begin with the closing bracket.
decode_operator_ids-read :
    (s : Text) {r : List ℕ} → read_ids none s ≡ some r → decode_operator_ids (b'[' ∷ s) ≡ some r
unfolding decode_operator_ids read_ids
decode_operator_ids-read [] e = ground arith
decode_operator_ids-read (d ∷ s) e = elim (Bool-cases (d == b']')) [
  | inl y ↦ ground (arith, y, e)
  | inr z ↦ rw z e
]

decode-encode_operator_ids :
    (ids : List ℕ)
    → All (λ id. id < u64_mod) ids
    → decode_operator_ids (encode_operator_ids ids) ≡ some ids
unfolding decode_operator_ids encode_operator_ids
decode-encode_operator_ids [] h = refl
decode-encode_operator_ids (id ∷ ids) h =
    decode_operator_ids-read (decimal id ++ more_ids ids)
      (read_ids-decimal id (more_ids ids) h.0 ∙ read_ids-more_ids id ids h.1)

big_decimal-read : (n : ℕ) → n < ten_to 78 → read_number none (big_decimal n) ≡ some n
unfolding big_decimal read_number
big_decimal-read n h = read_number-digits_from 77 n [] h

int_to_bool-bool_to_int : (b : Bool) → int_to_bool (bool_to_int b) ≡ b
int_to_bool-bool_to_int true = refl
int_to_bool-bool_to_int false = refl

-- A cluster row that upsertCluster writes is read back whole by scanClusterRow, where its operator
-- IDs are uint64 and its balance is below 10^78, which every uint256 is.
pub scan_cluster_row-columns_of :
    (row : ClusterRow)
    → All (λ id. id < u64_mod) row.operator_ids
    → row.balance < ten_to 78
    → scan_cluster_row (columns_of row) ≡ some row
unfolding scan_cluster_row columns_of
scan_cluster_row-columns_of row h k =
    rw
      (
        decode-encode_operator_ids row.operator_ids h,
        big_decimal-read row.balance k,
        int_to_bool-bool_to_int row.is_active,
      )
      refl
