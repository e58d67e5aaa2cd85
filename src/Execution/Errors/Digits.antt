-- ===== src/Execution/Errors/Digits.antt =====
-- The category of a failed fetch is read from a text in which block numbers stand.
use mathlib.Core.Bool.{false≢true}
use mathlib.Core.List.{map-append}
use ssv_oracle.Prelude.{
  ℕ, ◌≡◌, ◌≢◌, refl, true, false, [], ◌∷◌, ◌++◌, inl, inr, Bool-cases, Text, text, to_lower,
  has_prefix, contains, arith,
}
use ssv_oracle.Execution.Errors.{uncategorized, categorize, decimal, fetch_error}

has_prefix-append : (s t p : Text) → has_prefix s p ≡ true → has_prefix (s ++ t) p ≡ true
unfolding has_prefix
has_prefix-append s t [] h = refl
has_prefix-append [] t (q ∷ p) h = cc
has_prefix-append (c ∷ s) t (q ∷ p) h = ground (arith, has_prefix-append s t p)

has_prefix_nil : (t p : Text) → has_prefix [] p ≡ true → contains t p ≡ true
unfolding contains
has_prefix_nil [] p h = h
has_prefix_nil (c ∷ t) [] h = refl
has_prefix_nil (c ∷ t) (q ∷ p) h = absurd (false≢true h)

has_prefix-contains : (u q : Text) → has_prefix u q ≡ true → contains u q ≡ true
unfolding contains
has_prefix-contains [] q k = k
has_prefix-contains (c ∷ u) q k = rw k

contains-cons : (c : ℕ) (u q : Text) → contains u q ≡ true → contains (c ∷ u) q ≡ true
unfolding contains
contains-cons c u q k = ground (arith, k)

contains_tail :
    (c : ℕ) (u q : Text)
    → has_prefix (c ∷ u) q ≡ false
    → contains (c ∷ u) q ≡ true
    → contains u q ≡ true
unfolding contains
contains_tail c u q k h = ground arith

contains-append_left : (s t p : Text) → contains s p ≡ true → contains (s ++ t) p ≡ true
contains-append_left [] t p h = has_prefix_nil t p (unfold contains in h)
contains-append_left (c ∷ s) t p h = elim (Bool-cases (has_prefix (c ∷ s) p)) [
  | inl e ↦ has_prefix-contains (c ∷ (s ++ t)) p (has_prefix-append (c ∷ s) t p e)
  | inr e ↦ contains-cons c (s ++ t) p (contains-append_left s t p (contains_tail c s p e h))
]

contains-append_right : (s t p : Text) → contains t p ≡ true → contains (s ++ t) p ≡ true
contains-append_right [] t p h = h
contains-append_right (c ∷ s) t p h = contains-cons c (s ++ t) p (contains-append_right s t p h)

to_lower-append : (s t : Text) → to_lower (s ++ t) ≡ to_lower s ++ to_lower t
unfolding to_lower
to_lower-append s t = map-append _ s t

categorize_429 :
    (err : Text) → contains (to_lower err) (text "429") ≡ true → categorize err ≢ uncategorized
unfolding categorize
categorize_429 err h e = ground arith

-- The text of a failed fetch is taken for a batch-size error whenever the digits of its first block
-- number contain 429, whatever the error was.
pub fetch_error_429 :
    (from_block to_block : ℕ) (inner : Text)
    → contains (to_lower (decimal from_block)) (text "429") ≡ true
    → categorize (fetch_error from_block to_block inner) ≢ uncategorized
unfolding fetch_error
fetch_error_429 from_block to_block inner h =
    categorize_429 (fetch_error from_block to_block inner) (
      rw (to_lower-append, to_lower-append)
        (contains-append_right _ _ _ (contains-append_left (to_lower (decimal from_block)) _ _ h)))
