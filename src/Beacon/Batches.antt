-- ===== src/Beacon/Batches.antt =====
-- For GetValidatorBalances: the keys of the batches.
use mathlib.Core.List.{Perm, Permᴰ}
use mathlib.Core.Logic.{∥∥₁_elim}
use mathlib.Core.Path.{ap₂}
use ssv_oracle.Prelude.{
  ℕ, ◌≡◌, refl, ap, sym, ◌∙◌, Bool, true, false, ◌||◌, List, [], ◌∷◌, ◌++◌, flat, arith,
}
use ssv_oracle.Oracle.Balances.{is_seen}

pub is_seen-append :
    (k : ℕ) (xs ys : List ℕ) → is_seen k (xs ++ ys) ≡ (is_seen k xs || is_seen k ys)
unfolding is_seen
is_seen-append k [] ys = refl
is_seen-append k (x ∷ xs) ys = ground (arith, is_seen-append k xs ys)

is_seen-append_swap :
    (k : ℕ) (xs ys zs : List ℕ) → is_seen k (xs ++ (ys ++ zs)) ≡ is_seen k (ys ++ (xs ++ zs))
is_seen-append_swap k xs ys zs =
    is_seen-append k xs (ys ++ zs)
    ∙ ap (λ t. is_seen k xs || t) (is_seen-append k ys zs)
    ∙ swap (is_seen k xs) (is_seen k ys) (is_seen k zs)
    ∙ ap (λ t. is_seen k ys || t) (sym (is_seen-append k xs zs))
    ∙ sym (is_seen-append k ys (xs ++ zs))
  where
    swap : (a b c : Bool) → (a || (b || c)) ≡ (b || (a || c))
    swap true true c = refl
    swap true false c = refl
    swap false true c = refl
    swap false false c = refl

-- Whether a key is in the batches does not depend on their order.
is_seen-flat_Permᴰ :
    (k : ℕ) {xs ys : List (List ℕ)} → Permᴰ xs ys → is_seen k (flat xs) ≡ is_seen k (flat ys)
is_seen-flat_Permᴰ k Permᴰ.nil = refl
is_seen-flat_Permᴰ k (Permᴰ.cons {a = a} {l₁ = l} {l₂ = m} e p) =
    is_seen-append k a (flat l)
    ∙ ap (λ t. is_seen k a || t) (is_seen-flat_Permᴰ k p)
    ∙ sym (is_seen-append k a (flat m))
    ∙ ap (λ t. is_seen k (t ++ flat m)) e
is_seen-flat_Permᴰ k (Permᴰ.swap {a = a} {b = b} {l = l} e f) =
    is_seen-append_swap k a b (flat l) ∙ ap₂ (λ t u. is_seen k (t ++ (u ++ flat l))) f e
is_seen-flat_Permᴰ k (Permᴰ.trans p q) = is_seen-flat_Permᴰ k p ∙ is_seen-flat_Permᴰ k q

pub is_seen-flat_perm :
    (k : ℕ) {xs ys : List (List ℕ)} → Perm xs ys → is_seen k (flat xs) ≡ is_seen k (flat ys)
is_seen-flat_perm k p = ∥∥₁_elim p (hlevel) (is_seen-flat_Permᴰ k)
