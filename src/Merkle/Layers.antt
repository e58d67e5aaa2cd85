-- ===== src/Merkle/Layers.antt =====
-- The path from a position of a layer to the root.
use ssv_oracle.Prelude.{
  ℕ, zero, suc, ◌+◌, ◌-◌, ◌/◌, ◌%◌, ◌≤◌, ◌≡◌, ◌≢◌, refl, ap, ◌∙◌, inl, inr, Bool-cases, some, List,
  [], ◌∷◌, ltb, length, get_elem?, get_elem?-lt, tests, arith,
}
use ssv_oracle.Merkle.Crypto.{Crypto}
use ssv_oracle.Merkle.Tree.{
  hash_pair, hash_level, build_from, last_root, head_or, sibling, proof_from,
}

-- What a verifier computes from a leaf's hash and a proof (OpenZeppelin's processProof): each
-- sibling is hashed with the value so far, the smaller operand first.
unfoldable pub process_proof : Crypto → ℕ → List ℕ → ℕ
process_proof c h [] = h
process_proof c h (s ∷ proof) = process_proof c (hash_pair c h s) proof

-- A pair's hash does not depend on which side is which.
pub hash_pair_comm : (c : Crypto) (a b : ℕ) → hash_pair c a b ≡ hash_pair c b a
unfolding hash_pair
hash_pair_comm c a b = ground arith

module _ (c : Crypto) where
  length-hash_level : (l : List ℕ) → length (hash_level c l) ≡ (length l + 1) / 2
  unfolding hash_level
  length-hash_level [] = omega arith
  length-hash_level (a ∷ []) = omega arith
  length-hash_level (a ∷ b ∷ l) = omega (arith, length-hash_level l)

  sibling-suc-suc : (a b : ℕ) (l : List ℕ) (i : ℕ) → sibling (a ∷ b ∷ l) (suc (suc i)) ≡ sibling l i
  unfolding sibling
  sibling-suc-suc a b l zero =
      let e : suc (suc zero) + 1 ≡ suc (suc 1) = omega arith in rw e (ground arith)
  sibling-suc-suc a b l (suc i) =
      let e : suc (suc (suc i)) + 1 ≡ suc (suc (suc i + 1)) = omega arith in
      let f : suc (suc (suc i)) - 1 ≡ suc (suc i) = omega arith in
      let g : suc i - 1 ≡ i = omega arith in
      let k : suc (suc (suc i)) % 2 ≡ suc i % 2 = omega arith in rw (e, f, g, k) (ground arith)

  -- The sibling exists, and the pair's hash stands at half the index one layer up.
  sibling_step :
      (l : List ℕ) (i : ℕ) (h : ℕ)
      → get_elem? l i ≡ some h
      → (s : ℕ) × (sibling l i ≡ some s)
        × (get_elem? (hash_level c l) (i / 2) ≡ some (hash_pair c h s))
  unfolding sibling hash_level
  sibling_step [] i h e = absurd (ground arith)
  sibling_step (a ∷ []) zero h e = (a, refl, ground arith)
  sibling_step (a ∷ []) (suc i) h e = absurd (ground arith)
  sibling_step (a ∷ b ∷ l) zero h e = (b, ground arith, ground arith)
  sibling_step (a ∷ b ∷ l) (suc zero) h e = (a, refl, ground (arith, hash_pair_comm c a b))
  sibling_step (a ∷ b ∷ l) (suc (suc i)) h e =
      let (s, p, q) = sibling_step l i h e in
      let half : suc (suc i) / 2 ≡ suc (i / 2) = omega arith in
      (s, sibling-suc-suc a b l i ∙ p, rw half q)

  build_from-ne-nil : (f : ℕ) (l : List ℕ) → build_from c f l ≢ []
  unfolding build_from
  build_from-ne-nil zero l = λ e. cc
  build_from-ne-nil (suc f) l = ground arith

  -- A layer below others adds one sibling to the proof.
  proof_from-cons :
      (l : List ℕ) (ls : List (List ℕ)) (i s : ℕ) (rest : List ℕ)
      → ls ≢ []
      → sibling l i ≡ some s
      → proof_from ls (i / 2) ≡ some rest
      → proof_from (l ∷ ls) i ≡ some (s ∷ rest)
  unfolding proof_from
  proof_from-cons l [] i s rest n e r = absurd (n refl)
  proof_from-cons l (m ∷ ls) i s rest n e r = ground arith

  last_root-cons :
      (l : List ℕ) (ls : List (List ℕ)) → ls ≢ [] → last_root c (l ∷ ls) 0 ≡ last_root c ls 0
  unfolding last_root
  last_root-cons l [] n = absurd (n refl)
  last_root-cons l (m ∷ ls) n = refl

  singleton_of_length : (l : List ℕ) (i h : ℕ) → length l ≤ 1 → get_elem? l i ≡ some h → l ≡ h ∷ []
  singleton_of_length [] i h n e = absurd (ground arith)
  singleton_of_length (a ∷ []) zero h n e = ground arith
  singleton_of_length (a ∷ []) (suc i) h n e = absurd (ground arith)
  singleton_of_length (a ∷ b ∷ l) i h n e = absurd (omega arith)

  -- With as much fuel as hashes, the proof loop ends without a panic, and its proof leads from the
  -- hash at the index to the root.
  pub proof_from-build_from :
      (f : ℕ) (l : List ℕ) (i h : ℕ)
      → length l ≤ f
      → get_elem? l i ≡ some h
      → (p : List ℕ) × (proof_from (build_from c f l) i ≡ some p)
        × (last_root c (build_from c f l) 0 ≡ process_proof c h p)
  unfolding build_from proof_from last_root process_proof
  proof_from-build_from zero l i h n e = absurd (omega (arith, get_elem?-lt l i e))
  proof_from-build_from (suc f) l i h n e = elim (Bool-cases (ltb 1 (length l))) [
    | inl more ↦
        let (s, p, q) = sibling_step l i h e in
        let (rest, r, t) =
          proof_from-build_from f (hash_level c l) (i / 2) (hash_pair c h s)
            (omega (tests, length-hash_level l, more)) q in
        let n' = build_from-ne-nil f (hash_level c l) in
        rw more (
          s ∷ rest,
          proof_from-cons l (build_from c f (hash_level c l)) i s rest n' p r,
          last_root-cons l (build_from c f (hash_level c l)) n' ∙ t,
        )
    | inr one ↦
        let only : l ≡ h ∷ [] = singleton_of_length l i h (omega (tests, one)) e in
        rw one ([], refl, ap (λ x. head_or c x 0) only)
  ]
