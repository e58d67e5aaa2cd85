-- ===== src/Api/Hex/RoundTrip.antt =====
-- For parseClusterID and toHex: printing and reading back.
use native.Mathlib.Nat.{div-add-mod, mod-lt, mul-le-mul_right, one-le-pow}
use ssv_oracle.Prelude.{
  ℕ, zero, suc, ◌+◌, ◌*◌, ◌/◌, ◌%◌, ◌^◌, ◌<◌, ◌≡◌, refl, ap, sym, ◌∙◌, true, some, List, [], ◌∷◌,
  length, ◌==◌, has_prefix, All, arith,
}
use ssv_oracle.Merkle.Crypto.{be_bytes}
use ssv_oracle.Tx.Errors.{hex_digit, hex}
use ssv_oracle.Api.Hex.{to_hex, to_hex32, hex_value, unhex, spell, parse_cluster_id}

hex_value-hex_digit : (d : ℕ) → d < 16 → hex_value (hex_digit d) ≡ some d
unfolding hex_value hex_digit
hex_value-hex_digit d h = ground arith

unhex-hex : (bs : List ℕ) → All (λ b. b < 256) bs → unhex (hex bs) ≡ some bs
unfolding unhex hex
unhex-hex [] h = refl
unhex-hex (b ∷ bs) h =
    rw
      (
        hex_value-hex_digit (b / 16) (omega (arith, h.0)),
        hex_value-hex_digit (b % 16) (omega arith),
        unhex-hex bs h.1,
      )
      (ap (λ x. some (x ∷ bs)) (omega arith))

length-hex : (bs : List ℕ) → length (hex bs) ≡ 2 * length bs
unfolding hex
length-hex [] = refl
length-hex (b ∷ bs) = omega (arith, length-hex bs)

length-be_bytes : (w v : ℕ) → length (be_bytes w v) ≡ w
unfolding be_bytes
length-be_bytes zero v = refl
length-be_bytes (suc w) v = ap suc (length-be_bytes w v)

be_bytes_small : (w v : ℕ) → All (λ b. b < 256) (be_bytes w v)
unfolding be_bytes
be_bytes_small zero v = tt
be_bytes_small (suc w) v = (omega arith, be_bytes_small w v)

-- Remainders of one number are one.
remainder_unique : (d k a x y : ℕ) → x < d → y < d → d * k + x ≡ d * a + y → x ≡ y
remainder_unique d zero zero x y p q e = omega (arith, e)
remainder_unique d (suc k) zero x y p q e = absurd (omega (arith, e, q))
remainder_unique d zero (suc a) x y p q e = absurd (omega (arith, e, p))
remainder_unique d (suc k) (suc a) x y p q e = remainder_unique d k a x y p q (omega (arith, e))

byte_room : (b p r : ℕ) → b < 256 → r < p → b * p + r < 256 * p
byte_room b p r h k = omega (arith, mul-le-mul_right {m = b} {n = 255} p (omega (arith, h)), k)

products : (p a b r : ℕ) → 256 * p * a + (b * p + r) ≡ p * (256 * a + b) + r
products p a b r = omega arith

mod_byte : (v p : ℕ) → zero < p → v % (256 * p) ≡ (v / p % 256) * p + v % p
mod_byte v p h =
    let q = v / p in
    let parts = products p (q / 256) (q % 256) (v % p) in
    let whole : p * (256 * (q / 256) + q % 256) + v % p ≡ v =
      ap (λ x. p * x + v % p) (div-add-mod q 256) ∙ div-add-mod v p in
    remainder_unique (256 * p) (v / (256 * p)) (q / 256) (v % (256 * p)) (q % 256 * p + v % p)
      (mod-lt v (omega (arith, h))) (byte_room (q % 256) p (v % p) (omega arith) (mod-lt v h))
      (div-add-mod v (256 * p) ∙ sym (parts ∙ whole))

regroup : (n p b r : ℕ) → (n * 256 + b) * p + r ≡ n * (256 * p) + (b * p + r)
regroup n p b r = omega arith

spell-be_bytes : (w v n : ℕ) → spell n (be_bytes w v) ≡ n * 256 ^ w + v % 256 ^ w
unfolding spell be_bytes
spell-be_bytes zero v n = omega arith
spell-be_bytes (suc w) v n =
    let p = 256 ^ w in
    spell-be_bytes w v (n * 256 + v / p % 256)
    ∙ regroup n p (v / p % 256) (v % p)
    ∙ ap (λ x. n * (256 * p) + x) (sym (mod_byte v p (one-le-pow w 256 (omega arith))))
    ∙ ap (λ x. n * x + v % x) (omega arith)

parse_cluster_id-to_hex :
    (bs : List ℕ)
    → length bs ≡ 32
    → All (λ b. b < 256) bs
    → parse_cluster_id (to_hex bs) ≡ some (spell 0 bs)
unfolding parse_cluster_id to_hex has_prefix
parse_cluster_id-to_hex bs n h =
    let size : (length (to_hex bs) == 66) ≡ true = ground (arith, length-hex bs, n) in
    rw (size, unhex-hex bs h) refl

-- A cluster ID that toHex prints is read back by parseClusterID.
pub parse_cluster_id-to_hex32 : (id : ℕ) → id < 256 ^ 32 → parse_cluster_id (to_hex32 id) ≡ some id
unfolding to_hex32
parse_cluster_id-to_hex32 id h =
    parse_cluster_id-to_hex (be_bytes 32 id) (length-be_bytes 32 id) (be_bytes_small 32 id)
    ∙ ap some (spell-be_bytes 32 id 0 ∙ omega (arith, h))
