-- ===== src/Api/Hex.antt =====
-- parseClusterID and toHex of api/handlers.go, and of encoding/hex what they use.
pub mod RoundTrip
use ssv_oracle.Prelude.{
  ℕ, ◌+◌, ◌-◌, ◌*◌, Bool, true, false, ◌&&◌, Option, none, some, List, [], ◌∷◌, ◌++◌, length, ltb,
  leb, ◌==◌, if◌then◌else◌, Text, text, has_prefix,
}
use ssv_oracle.Merkle.Crypto.{be_bytes}
use ssv_oracle.Tx.Errors.{hex}

-- toHex
unfoldable pub to_hex : List ℕ → Text
unfolding hex
to_hex bs = text "0x" ++ hex bs

-- toHex of an array of 32 bytes.
unfoldable pub to_hex32 : ℕ → Text
unfolding be_bytes to_hex
to_hex32 v = to_hex (be_bytes 32 v)

-- toHexOrEmpty, on a hash of 32 bytes or NULL.
unfoldable pub to_hex_or_empty : Option ℕ → Text
unfolding to_hex32
to_hex_or_empty none = []
to_hex_or_empty (some v) = to_hex32 v

-- The value of a hex digit in either case.
unfoldable pub hex_value : ℕ → Option ℕ
hex_value c =
    if leb 48 c && leb c 57
    then some (c - 48)
    else if leb 97 c && leb c 102
    then some (c - 87)
    else if leb 65 c && leb c 70
    then some (c - 55)
    else none

abbrev pub cons_byte : Option ℕ → Option ℕ → Option (List ℕ) → Option (List ℕ)
cons_byte (some hi) (some lo) (some bs) = some ((hi * 16 + lo) ∷ bs)
cons_byte (some hi) (some lo) none = none
cons_byte (some hi) none o = none
cons_byte none lo o = none

-- hex.DecodeString
unfoldable pub unhex : Text → Option (List ℕ)
unfolding hex_value
unhex [] = some []
unhex (a ∷ []) = none
unhex (a ∷ b ∷ s) = cons_byte (hex_value a) (hex_value b) (unhex s)

-- The number that bytes spell, behind the number of those before them.
unfoldable pub spell : ℕ → List ℕ → ℕ
spell n [] = n
spell n (b ∷ bs) = spell (n * 256 + b) bs

-- id[2:]
abbrev pub behind_prefix : Text → Text
behind_prefix [] = []
behind_prefix (a ∷ []) = []
behind_prefix (a ∷ b ∷ s) = s

abbrev pub spelled : Option (List ℕ) → Option ℕ
spelled none = none
spelled (some bs) = some (spell 0 bs)

-- parseClusterID
unfoldable pub parse_cluster_id : Text → Option ℕ
unfolding has_prefix unhex spell
parse_cluster_id id =
    if length id == 66 && has_prefix id (text "0x")
    then spelled (unhex (behind_prefix id))
    else none
