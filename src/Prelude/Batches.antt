-- ===== src/Prelude/Batches.antt =====
-- A slice cut into batches, as a loop `for i := 0; i < len(xs); i += size` does.
use Prim.Native.Nat.{ℕ, zero, suc, ◌+◌, ◌-◌, ◌≤◌}
use mathlib.Core.Path.{◌≡◌, refl, ap, sym, ◌∙◌}
use mathlib.Core.Logic.{inl, inr}
use mathlib.Core.List.{List, [], ◌∷◌, ◌++◌}
use native.Mathlib.Omega.{arith}
use ssv_oracle.Prelude.Tests.{ltb, if◌then◌else◌, Bool-cases, tests}
use ssv_oracle.Prelude.Lists.{length, take, drop, flat, take-drop, length-drop}

module _ {ℓ} {A : Type ℓ} where
  -- xs[i:end]
  abbrev pub slice : ℕ → ℕ → List A → List A
  slice i end xs = take (end - i) (drop i xs)

  -- The loop, from index i; a pass for each element is enough.
  unfoldable pub batches_from : ℕ → ℕ → ℕ → List A → List (List A)
  batches_from size zero i xs = []
  batches_from size (suc fuel) i xs =
      let n = length xs in
      let end = i + size in
      let rest = batches_from size fuel end xs in
      if ltb i n then slice i (if ltb n end then n else end) xs ∷ rest else []

  drop_nil : (n : ℕ) → drop {A = A} n [] ≡ []
  drop_nil zero = refl
  drop_nil (suc n) = refl

  drop-drop : (i n : ℕ) (xs : List A) → drop n (drop i xs) ≡ drop (i + n) xs
  drop-drop zero n xs = ap (λ k. drop k xs) (omega arith)
  drop-drop (suc i) n [] = drop_nil n ∙ sym (drop_nil (suc i + n))
  drop-drop (suc i) n (x ∷ xs) =
      let one : suc i + n ≡ suc (i + n) = omega arith in
      drop-drop i n xs ∙ ap (λ k. drop k (x ∷ xs)) (sym one)

  take_all : (n : ℕ) (xs : List A) → length xs ≤ n → take n xs ≡ xs
  take_all zero [] h = refl
  take_all zero (x ∷ xs) h = absurd (omega (arith, h))
  take_all (suc n) [] h = refl
  take_all (suc n) (x ∷ xs) h = ap (λ l. x ∷ l) (take_all n xs (omega (arith, h)))

  drop_all : (n : ℕ) (xs : List A) → length xs ≤ n → drop n xs ≡ []
  drop_all zero [] h = refl
  drop_all zero (x ∷ xs) h = absurd (omega (arith, h))
  drop_all (suc n) [] h = refl
  drop_all (suc n) (x ∷ xs) h = drop_all n xs (omega (arith, h))

  append_nil : (xs : List A) → xs ++ [] ≡ xs
  append_nil [] = refl
  append_nil (x ∷ xs) = ap (λ l. x ∷ l) (append_nil xs)

  slice_full :
      (size i : ℕ) (xs : List A)
      → slice i (if ltb (length xs) (i + size) then length xs else i + size) xs
          ++ drop (i + size) xs
        ≡ drop i xs
  slice_full size i xs = elim (Bool-cases (ltb (length xs) (i + size))) [
    | inl y ↦
        let whole = take_all (length xs - i) (drop i xs) (omega (arith, length-drop i xs)) in
        let rest = drop_all (i + size) xs (omega (tests, y)) in
        rw (y, whole, rest) (append_nil (drop i xs))
    | inr z ↦
        let n : i + size - i ≡ size = omega arith in
        rw (z, n)
          (ap (λ l. take size (drop i xs) ++ l) (sym (drop-drop i size xs))
            ∙ take-drop size (drop i xs))
  ]

  -- The batches, one behind the other, are the keys from the index on.
  pub flat-batches_from :
      (size fuel i : ℕ) (keys : List A)
      → 1 ≤ size
      → length keys ≤ i + fuel
      → flat (batches_from size fuel i keys) ≡ drop i keys
  unfolding batches_from
  flat-batches_from size zero i keys p h = sym (drop_all i keys (omega (arith, h)))
  flat-batches_from size (suc fuel) i keys p h = elim (Bool-cases (ltb i (length keys))) [
    | inl y ↦
        let first : List A =
          slice i (if ltb (length keys) (i + size) then length keys else i + size) keys in
        rw y (
          ap (λ l. first ++ l) (flat-batches_from size fuel (i + size) keys p (omega (arith, h, p)))
          ∙ slice_full size i keys)
    | inr z ↦ rw z (sym (drop_all i keys (omega (tests, z))))
  ]
