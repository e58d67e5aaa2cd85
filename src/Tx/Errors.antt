-- ===== src/Tx/Errors.antt =====
-- txmanager/manager.go: how the text of a node's error is read, and the reason of a revert.
use ssv_oracle.Prelude.{
  ℕ, zero, suc, ◌+◌, ◌/◌, ◌%◌, Bool, true, ◌||◌, ◌&&◌, Option, none, some, List, [], ◌∷◌, ◌++◌, ltb,
  leb, ◌==◌, if◌then◌else◌, length, Text, text, to_lower, text_eq, has_prefix, contains,
}

-- An error of the RPC client: its text, and the revert data where it carries some
-- (ethclient.RevertErrorData).
pub record RpcError : Type 0 where
  pub message : Text
  pub revert_data : Option (List ℕ)

unfoldable pub is_tx_already_known : Text → Bool
is_tx_already_known msg = contains (to_lower msg) (text "already known")

unfoldable pub is_nonce_too_low : Text → Bool
is_nonce_too_low msg = contains (to_lower msg) (text "nonce too low")

unfoldable pub is_insufficient_funds : Text → Bool
is_insufficient_funds msg =
    let s = to_lower msg in
    contains s (text "insufficient funds") || contains s (text "insufficient balance")

unfoldable pub is_underpriced : Text → Bool
is_underpriced msg =
    let s = to_lower msg in
    contains s (text "replacement transaction underpriced")
    || contains s (text "max fee per gas less than block base fee")
    || contains s (text "underpriced")

pub data SendClass : Type 0 where
  sent already_known nonce_too_low insufficient_funds underpriced other : SendClass

-- The order of the cases of the `switch` in SendTransaction; `none` is a nil error.
unfoldable pub classify : Option Text → SendClass
classify none = sent
classify (some msg) =
    if is_tx_already_known msg
    then already_known
    else if is_nonce_too_low msg
    then nonce_too_low
    else if is_insufficient_funds msg
    then insufficient_funds
    else if is_underpriced msg
    then underpriced
    else other

-- IsContractRevert
unfoldable pub is_contract_revert : RpcError → Bool
is_contract_revert e = elim e.revert_data [
  | some d ↦ true
  | none ↦ contains (to_lower e.message) (text "execution reverted:")
]

unfoldable pub hex_digit : ℕ → ℕ
hex_digit d = if ltb d 10 then 48 + d else 87 + d

-- hex.EncodeToString
unfoldable pub hex : List ℕ → Text
unfolding hex_digit
hex [] = []
hex (b ∷ bs) = hex_digit (b / 16) ∷ hex_digit (b % 16) ∷ hex bs

-- The map of error selectors, by the selector's hex text.
unfoldable pub find_selector : Text → List (Text × Text) → Option Text
find_selector k [] = none
find_selector k ((j, name) ∷ m) = if text_eq j k then some name else find_selector k m

abbrev skip_chars : ℕ → Text → Text
skip_chars zero s = s
skip_chars (suc n) [] = []
skip_chars (suc n) (c ∷ s) = skip_chars n s

abbrev first_chars : ℕ → Text → Text
first_chars zero s = []
first_chars (suc n) [] = []
first_chars (suc n) (c ∷ s) = c ∷ first_chars n s

-- decodeErrorSelector
unfoldable pub decode_error_selector : List (Text × Text) → Text → Text
unfolding find_selector
decode_error_selector selectors reason =
    if has_prefix reason (text "0x") && leb 10 (length reason)
    then elim (find_selector (first_chars 8 (skip_chars 2 reason)) selectors) [
      | some name ↦ name
      | none ↦ reason
    ]
    else reason

-- What follows the first occurrence of a pattern: strings.SplitN(s, p, 2)[1].
unfoldable pub after_first : Text → Text → Option Text
after_first p [] = if has_prefix [] p then some [] else none
after_first p (c ∷ s) =
    if has_prefix (c ∷ s) p then some (skip_chars (length p) (c ∷ s)) else after_first p s

abbrev is_space : ℕ → Bool
is_space c = c == 32 || (leb 9 c && leb c 13)

unfoldable pub trim_left : Text → Text
trim_left [] = []
trim_left (c ∷ s) = let rest = trim_left s in if is_space c then rest else c ∷ s

unfoldable pub trim_right : Text → Text
trim_right [] = []
trim_right (c ∷ s) = elim (trim_right s) [
  | [] ↦ (if is_space c then [] else c ∷ [])
  | d ∷ ds ↦ c ∷ d ∷ ds
]

-- The part of ExtractRevertReason on an error text.
reason_of_message : List (Text × Text) → Text → Option Text → Text
unfolding decode_error_selector trim_left trim_right
reason_of_message selectors message none = message
reason_of_message selectors message (some rest) = elim (trim_right (trim_left rest)) [
  | [] ↦ message
  | c ∷ s ↦ decode_error_selector selectors (c ∷ s)
]

-- The part on revert data that abi.UnpackRevert does not decode.
reason_of_selector : List (Text × Text) → List ℕ → Text
unfolding find_selector hex
reason_of_selector selectors d =
    let raw = text "0x" ++ hex d in
    if leb 4 (length d)
    then elim (find_selector (hex (first_chars 4 d)) selectors) [ some name ↦ name | none ↦ raw ]
    else raw

-- ExtractRevertReason. `unpack` is abi.UnpackRevert; `none` is its error.
unfoldable pub extract_revert_reason : (List ℕ → Option Text) → List (Text × Text) → RpcError → Text
unfolding reason_of_message reason_of_selector after_first
extract_revert_reason unpack selectors e =
    let from_message =
      reason_of_message selectors e.message (after_first (text "execution reverted:") e.message) in
    elim e.revert_data [
      | none ↦ from_message
      | some [] ↦ from_message
      | some (b ∷ bs) ↦ elim (unpack (b ∷ bs)) [
        | some reason ↦ reason
        | none ↦ reason_of_selector selectors (b ∷ bs)
      ]
    ]
