-- ===== src/Beacon/Merged.antt =====
-- For GetValidatorBalances: the map that the answers of the batches merge into.
use mathlib.Core.List.{Perm}
use ssv_oracle.Prelude.{
  flat-batches_from, flat, ℕ, ◌≡◌, ◌⊎◌, refl, ap, sym, subst, ◌∙◌, true, false, Option, none, some,
  List, [], ◌∷◌, map, length, ◌==◌, ==→≡, ==_refl, lookup, insert, lookup-insert, All, All-map,
  Bool-cases, Option-cases, inl, inr, arith,
}
use ssv_oracle.Storage.Clusters.{Bytes}
use ssv_oracle.Oracle.Balances.{is_seen}
use ssv_oracle.Beacon.{
  balance_fetch_batch_size, batches_of, merge, fetch_all, key_of, get_validator_balances,
}
use ssv_oracle.Oracle.Balances.Seen.{All-is_seen}
use ssv_oracle.Beacon.Batches.{is_seen-append, is_seen-flat_perm}

-- The node answers for a batch with balances that the state has, and with all of them.
abbrev pub AnswersFor : (ℕ → Option ℕ) → List ℕ → List (ℕ × ℕ) → Type 0
AnswersFor state batch rs =
    All (λ (e : ℕ × ℕ). state e.0 ≡ some e.1) rs × All (λ k. state k ≡ lookup k rs) batch

module _ (state : ℕ → Option ℕ) (k : ℕ) where
  -- A map that has for the key what the state has; and one that has it or nothing.
  abbrev Agrees : List (ℕ × ℕ) → Type 0
  Agrees m = lookup k m ≡ state k

  abbrev IsPart : List (ℕ × ℕ) → Type 0
  IsPart m = (lookup k m ≡ none) ⊎ Agrees m

  insert-Agrees_here :
      (j b : ℕ) (m : List (ℕ × ℕ)) → state j ≡ some b → (j == k) ≡ true → Agrees (insert j b m)
  insert-Agrees_here j b m e y = lookup-insert j k b m ∙ rw y (sym e ∙ ap state (==→≡ j k y))

  insert-skip :
      (j b : ℕ) (m : List (ℕ × ℕ)) → (j == k) ≡ false → lookup k (insert j b m) ≡ lookup k m
  insert-skip j b m z = lookup-insert j k b m ∙ rw z refl

  insert-IsPart : (j b : ℕ) (m : List (ℕ × ℕ)) → state j ≡ some b → IsPart m → IsPart (insert j b m)
  insert-IsPart j b m e h = elim (Bool-cases (j == k)) [
    | inl y ↦ inr (insert-Agrees_here j b m e y)
    | inr z ↦ subst (λ x. (x ≡ none) ⊎ (x ≡ state k)) (sym (insert-skip j b m z)) h
  ]

  insert-Agrees : (j b : ℕ) (m : List (ℕ × ℕ)) → state j ≡ some b → Agrees m → Agrees (insert j b m)
  insert-Agrees j b m e h = elim (Bool-cases (j == k)) [
    | inl y ↦ insert-Agrees_here j b m e y
    | inr z ↦ insert-skip j b m z ∙ h
  ]

  abbrev HasEntries : List (ℕ × ℕ) → Type 0
  HasEntries = All (λ (e : ℕ × ℕ). state e.0 ≡ some e.1)

  merge-IsPart : (rs m : List (ℕ × ℕ)) → HasEntries rs → IsPart m → IsPart (merge rs m)
  unfolding merge
  merge-IsPart [] m a h = h
  merge-IsPart ((j, b) ∷ rs) m a h = merge-IsPart rs (insert j b m) a.1 (insert-IsPart j b m a.0 h)

  merge-Agrees : (rs m : List (ℕ × ℕ)) → HasEntries rs → Agrees m → Agrees (merge rs m)
  unfolding merge
  merge-Agrees [] m a h = h
  merge-Agrees ((j, b) ∷ rs) m a h = merge-Agrees rs (insert j b m) a.1 (insert-Agrees j b m a.0 h)

  merge-Agrees_listed :
      (rs m : List (ℕ × ℕ)) {b : ℕ} → HasEntries rs → lookup k rs ≡ some b → Agrees (merge rs m)
  unfolding merge lookup
  merge-Agrees_listed [] m a h = absurd (cc h)
  merge-Agrees_listed ((j, b) ∷ rs) m a h = elim (Bool-cases (j == k)) [
    | inl y ↦ merge-Agrees rs (insert j b m) a.1 (insert-Agrees_here j b m a.0 y)
    | inr z ↦ merge-Agrees_listed rs (insert j b m) a.1 (rw z at h)
  ]

  -- A batch with the key settles it.
  merge-Agrees_asked :
      (batch : List ℕ) (rs m : List (ℕ × ℕ))
      → AnswersFor state batch rs
      → is_seen k batch ≡ true
      → IsPart m
      → Agrees (merge rs m)
  merge-Agrees_asked batch rs m a s h =
      let whole = All-is_seen (λ j. state j ≡ lookup j rs) k batch a.1 s in
      elim (Option-cases (lookup k rs)) [
        | inl n ↦ elim (merge-IsPart rs m a.0 h) [ inl i ↦ i ∙ sym (whole ∙ n) | inr i ↦ i ]
        | inr (b, e) ↦ merge-Agrees_listed rs m a.0 e
      ]

-- Every batch is answered, and rightly.
abbrev pub Answered : (ℕ → Option ℕ) → (List ℕ → Option (List (ℕ × ℕ))) → Type 0
Answered state validators =
    (batch : List ℕ)
    → (rs : List (ℕ × ℕ)) × (validators batch ≡ some rs) × AnswersFor state batch rs

module _ (state : ℕ → Option ℕ) (validators : List ℕ → Option (List (ℕ × ℕ)))
    (all : Answered state validators) where
  merge_all : List (List ℕ) → List (ℕ × ℕ) → List (ℕ × ℕ)
  merge_all [] m = m
  merge_all (batch ∷ rest) m = merge_all rest (merge (all batch).0 m)

  fetch_all-merge_all :
      (bs : List (List ℕ)) (m : List (ℕ × ℕ)) → fetch_all validators bs m ≡ some (merge_all bs m)
  unfolding fetch_all merge_all
  fetch_all-merge_all [] m = refl
  fetch_all-merge_all (batch ∷ rest) m =
      rw (all batch).1 (fetch_all-merge_all rest (merge (all batch).0 m))

  merge_all-Agrees :
      (k : ℕ) (bs : List (List ℕ)) (m : List (ℕ × ℕ))
      → Agrees state k m
      → Agrees state k (merge_all bs m)
  unfolding merge_all
  merge_all-Agrees k [] m h = h
  merge_all-Agrees k (batch ∷ rest) m h =
      merge_all-Agrees k rest (merge (all batch).0 m)
        (merge-Agrees state k (all batch).0 m (all batch).2.0 h)

  merge_all-Agrees_asked :
      (k : ℕ) (bs : List (List ℕ)) (m : List (ℕ × ℕ))
      → is_seen k (flat bs) ≡ true
      → IsPart state k m
      → Agrees state k (merge_all bs m)
  unfolding merge_all is_seen
  merge_all-Agrees_asked k [] m s h = absurd (cc s)
  merge_all-Agrees_asked k (batch ∷ rest) m s h = elim (Bool-cases (is_seen k batch)) [
    | inl y ↦
        merge_all-Agrees k rest (merge (all batch).0 m)
          (merge-Agrees_asked state k batch (all batch).0 m (all batch).2 y h)
    | inr z ↦
        merge_all-Agrees_asked k rest (merge (all batch).0 m)
          (rw z at (sym (is_seen-append k batch (flat rest)) ∙ s))
          (merge-IsPart state k (all batch).0 m (all batch).2.0 h)
  ]

is_seen-key_of : (keys : List Bytes) → All (λ b. is_seen (key_of b) (map key_of keys) ≡ true) keys
unfolding is_seen
is_seen-key_of [] = tt
is_seen-key_of (b ∷ keys) = (
  rw (==_refl b.value) refl,
  All-map (λ x. is_seen (key_of x) (map key_of keys) ≡ true)
      (λ x. is_seen (key_of x) (map key_of (b ∷ keys)) ≡ true)
      (λ x s. seen_behind b.value x.value (map key_of keys) s) keys (is_seen-key_of keys),
)
  where
    seen_behind : (j k : ℕ) (xs : List ℕ) → is_seen k xs ≡ true → is_seen k (j ∷ xs) ≡ true
    seen_behind j k xs s = elim (Bool-cases (j == k)) [ inl y ↦ rw y refl | inr z ↦ rw z s ]

-- Where the node answers every batch with what the state has for its keys, GetValidatorBalances returns a
-- map, which has for each of the keys asked for what the state has: the cuts between the batches and
-- the order in which the calls end do not matter.
pub get_validator_balances-Agrees :
    (state : ℕ → Option ℕ) (validators : List ℕ → Option (List (ℕ × ℕ)))
    (order : List (List ℕ) → List (List ℕ)) (keys : List Bytes)
    → Answered state validators
    → ((batches : List (List ℕ)) → Perm batches (order batches))
    → (balances : List (ℕ × ℕ)) × (get_validator_balances validators order keys ≡ some balances)
      × All (λ (b : Bytes). lookup b.value balances ≡ state b.value) keys
unfolding get_validator_balances batches_of lookup
get_validator_balances-Agrees state validators order [] all perm = ([], refl, tt)
get_validator_balances-Agrees state validators order (key ∷ keys) all perm =
    let ids : List ℕ = map key_of (key ∷ keys) in
    let bs = batches_of ids in
    let whole : flat bs ≡ ids =
      flat-batches_from balance_fetch_batch_size (length ids) 0 ids (omega arith) (omega arith) in
    (
      merge_all state validators all (order bs) [],
      fetch_all-merge_all state validators all (order bs) [],
      All-map (λ b. is_seen (key_of b) ids ≡ true)
          (λ b. lookup b.value (merge_all state validators all (order bs) []) ≡ state b.value)
          (λ b s.
            merge_all-Agrees_asked state validators all b.value (order bs) []
              (sym (is_seen-flat_perm b.value (perm bs)) ∙ ap (is_seen b.value) whole ∙ s)
              (inl refl))
          (key ∷ keys) (is_seen-key_of (key ∷ keys)),
    )
