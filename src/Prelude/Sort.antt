-- ===== src/Prelude/Sort.antt =====
-- `sort.Slice` by a numeric key, as insertion sort. On numbers the result depends only on which
-- elements there are.
use Prim.Native.Nat.{ℕ, suc, ◌≤◌}
use mathlib.Core.Path.{◌≡◌, refl, ap, ap₂, ◌∙◌}
use mathlib.Core.Logic.{inl, inr, ∥∥₁_elim}
use mathlib.Core.List.{List, [], ◌∷◌, map, Perm}
use mathlib.Core.List.{Permᴰ}
use native.Mathlib.Omega.{arith}
use mathlib.Core.List.Permᴰ
use ssv_oracle.Prelude.Tests.{leb, leb→le, leb→lt, if◌then◌else◌, Bool-cases}
use ssv_oracle.Prelude.Lists.{All, length}

module _ {ℓ} {A : Type ℓ} (key : A → ℕ) where
  unfoldable pub insert_sorted : A → List A → List A
  insert_sorted x [] = x ∷ []
  insert_sorted x (y ∷ ys) = if leb (key x) (key y) then x ∷ y ∷ ys else y ∷ insert_sorted x ys

  unfoldable pub sort : List A → List A
  unfolding insert_sorted
  sort [] = []
  sort (x ∷ xs) = insert_sorted x (sort xs)

  -- Ascending by key.
  abbrev pub IsSorted : List A → Type 0
  IsSorted [] = Unit
  IsSorted (x ∷ xs) = All (λ y. key x ≤ key y) xs × IsSorted xs

  All-insert_sorted :
      (P : A → Type 0) (x : A) (ys : List A) → P x → All P ys → All P (insert_sorted x ys)
  unfolding insert_sorted
  All-insert_sorted P x [] p h = (p, tt)
  All-insert_sorted P x (y ∷ ys) p h = elim (Bool-cases (leb (key x) (key y))) [
    | inl e ↦ rw e (p, h)
    | inr e ↦ rw e (h.0, All-insert_sorted P x ys p h.1)
  ]

  pub All-sort : (P : A → Type 0) (xs : List A) → All P xs → All P (sort xs)
  unfolding sort
  All-sort P [] h = tt
  All-sort P (x ∷ xs) h = All-insert_sorted P x (sort xs) h.0 (All-sort P xs h.1)

  All-le_trans : (a b : ℕ) (ys : List A) → a ≤ b → All (λ y. b ≤ key y) ys → All (λ y. a ≤ key y) ys
  All-le_trans a b [] h t = tt
  All-le_trans a b (y ∷ ys) h t = (omega arith, All-le_trans a b ys h t.1)

  insert_sorted-IsSorted : (x : A) (ys : List A) → IsSorted ys → IsSorted (insert_sorted x ys)
  unfolding insert_sorted
  insert_sorted-IsSorted x [] h = (tt, tt)
  insert_sorted-IsSorted x (y ∷ ys) h = elim (Bool-cases (leb (key x) (key y))) [
    | inl e ↦ rw e ((leb→le _ _ e, All-le_trans (key x) (key y) ys (leb→le _ _ e) h.0), h)
    | inr e ↦ rw e (
      All-insert_sorted (λ z. key y ≤ key z) x ys (omega (arith, leb→lt _ _ e)) h.0,
      insert_sorted-IsSorted x ys h.1,
    )
  ]

  -- The result is sorted.
  pub sort-IsSorted : (xs : List A) → IsSorted (sort xs)
  unfolding sort
  sort-IsSorted [] = tt
  sort-IsSorted (x ∷ xs) = insert_sorted-IsSorted x (sort xs) (sort-IsSorted xs)

  insert_sorted-Permᴰ : (x : A) (ys : List A) → Permᴰ (insert_sorted x ys) (x ∷ ys)
  unfolding insert_sorted
  insert_sorted-Permᴰ x [] = Permᴰ.refl (x ∷ [])
  insert_sorted-Permᴰ x (y ∷ ys) = elim (Bool-cases (leb (key x) (key y))) [
    | inl e ↦ rw e (Permᴰ.refl (x ∷ y ∷ ys))
    | inr e ↦ rw e (Permᴰ.trans (Permᴰ.cons refl (insert_sorted-Permᴰ x ys)) (Permᴰ.swap refl refl))
  ]

  -- The result has the same elements, as often.
  pub sort-Permᴰ : (xs : List A) → Permᴰ (sort xs) xs
  unfolding sort
  sort-Permᴰ [] = Permᴰ.nil
  sort-Permᴰ (x ∷ xs) =
      Permᴰ.trans (insert_sorted-Permᴰ x (sort xs)) (Permᴰ.cons refl (sort-Permᴰ xs))

  pub length-insert_sorted : (x : A) (ys : List A) → length (insert_sorted x ys) ≡ suc (length ys)
  unfolding insert_sorted
  length-insert_sorted x [] = refl
  length-insert_sorted x (y ∷ ys) = ground (arith, length-insert_sorted x ys)

  pub length-sort : (xs : List A) → length (sort xs) ≡ length xs
  unfolding sort
  length-sort [] = refl
  length-sort (x ∷ xs) = length-insert_sorted x (sort xs) ∙ ap suc (length-sort xs)

abbrev value : ℕ → ℕ
value n = n

-- Ascending order of the numbers themselves.
abbrev pub sort_nat : List ℕ → List ℕ
sort_nat = sort value

insert_sorted_comm :
    (a b : ℕ) (l : List ℕ)
    → insert_sorted value a (insert_sorted value b l)
      ≡ insert_sorted value b (insert_sorted value a l)
unfolding insert_sorted
insert_sorted_comm a b [] = ground arith
insert_sorted_comm a b (c ∷ l) = ground (arith, insert_sorted_comm a b l)

sort_nat-Permᴰ_eq : {xs ys : List ℕ} → Permᴰ xs ys → sort_nat xs ≡ sort_nat ys
unfolding sort
sort_nat-Permᴰ_eq Permᴰ.nil = refl
sort_nat-Permᴰ_eq (Permᴰ.cons e p) = ap₂ (insert_sorted value) e (sort_nat-Permᴰ_eq p)
sort_nat-Permᴰ_eq (Permᴰ.swap {a = a} {b = b} {l = l} e f) =
    insert_sorted_comm a b (sort value l)
    ∙ ap₂ (λ x y. insert_sorted value x (insert_sorted value y (sort value l))) f e
sort_nat-Permᴰ_eq (Permᴰ.trans p q) = sort_nat-Permᴰ_eq p ∙ sort_nat-Permᴰ_eq q

-- Sorting numbers forgets the order in which they came.
pub sort_nat_perm : {xs ys : List ℕ} → Perm xs ys → sort_nat xs ≡ sort_nat ys
sort_nat_perm p = ∥∥₁_elim p (hlevel) sort_nat-Permᴰ_eq

module _ {ℓ} {A : Type ℓ} (key : A → ℕ) where
  map-insert_sorted :
      (x : A) (ys : List A)
      → map key (insert_sorted key x ys) ≡ insert_sorted value (key x) (map key ys)
  unfolding insert_sorted
  map-insert_sorted x [] = refl
  map-insert_sorted x (y ∷ ys) = elim (Bool-cases (leb (key x) (key y))) [
    | inl e ↦ rw e
    | inr e ↦ rw e (ap (λ l. key y ∷ l) (map-insert_sorted x ys))
  ]

  -- The keys of the sorted list are the sorted keys.
  pub map-sort : (xs : List A) → map key (sort key xs) ≡ sort_nat (map key xs)
  unfolding sort
  map-sort [] = refl
  map-sort (x ∷ xs) =
      map-insert_sorted x (sort key xs) ∙ ap (insert_sorted value (key x)) (map-sort xs)
