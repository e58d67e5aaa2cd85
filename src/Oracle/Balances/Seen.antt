-- ===== src/Oracle/Balances/Seen.antt =====
-- Keys that a list has.
use ssv_oracle.Prelude.{ℕ, ◌≡◌, subst, true, List, [], ◌∷◌, ◌==◌, ==→≡, All, Bool-cases, inl, inr}
use ssv_oracle.Oracle.Balances.{is_seen}

-- What holds for all of a list holds for a key that the list has.
pub All-is_seen {ℓ} : (P : ℕ → Type ℓ) (k : ℕ) (xs : List ℕ) → All P xs → is_seen k xs ≡ true → P k
unfolding is_seen
All-is_seen P k [] h e = absurd (cc e)
All-is_seen P k (x ∷ xs) h e = elim (Bool-cases (x == k)) [
  | inl y ↦ subst P (==→≡ x k y) h.0
  | inr z ↦ All-is_seen P k xs h.1 (rw z at e)
]
