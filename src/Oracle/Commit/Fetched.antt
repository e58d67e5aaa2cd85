-- ===== src/Oracle/Commit/Fetched.antt =====
-- For fetchBalances: the balances over the beacon client.
use mathlib.Core.List.{Perm}
use ssv_oracle.Prelude.{
  ℕ, ◌≡◌, refl, ap, ◌∙◌, Option, some, List, [], ◌∷◌, map, lookup, All, Bool-cases, inl, inr,
}
use ssv_oracle.Storage.Clusters.{Bytes, Validator}
use ssv_oracle.Oracle.Balances.Seen.{All-is_seen}
use ssv_oracle.Oracle.Balances.{
  is_seen, deduplicate_from, deduplicate_pubkeys, counted, totals_from, balance_entry,
  aggregate_by_cluster,
}
use ssv_oracle.Beacon.{get_validator_balances}
use ssv_oracle.Beacon.Merged.{Answered, get_validator_balances-Agrees}
use ssv_oracle.Oracle.Commit.{Answers, fetch_balances}

-- What holds for the keys of a list without repetitions, and for those seen before, holds for all.
deduplicate_from-All :
    (P : ℕ → Type 0) (seen : List ℕ) (vs : List Validator)
    → All P seen
    → All (λ (b : Bytes). P b.value) (deduplicate_from seen vs)
    → All (λ (v : Validator). P v.validator_pubkey.value) vs
unfolding deduplicate_from
deduplicate_from-All P seen [] s h = tt
deduplicate_from-All P seen (v ∷ vs) s h =
    elim (Bool-cases (is_seen v.validator_pubkey.value seen)) [
      | inl y ↦ (
        All-is_seen P v.validator_pubkey.value seen s y,
        deduplicate_from-All P seen vs s (rw y at h),
      )
      | inr z ↦
          let k = rw z at h in
          (k.0, deduplicate_from-All P (v.validator_pubkey.value ∷ seen) vs (k.0, s) k.1)
    ]

-- Maps that agree on the validators give the same totals.
totals_from-Agrees :
    (a b : List (ℕ × ℕ)) (vs : List Validator) (m : List (ℕ × ℕ))
    → All
        (λ (v : Validator). lookup v.validator_pubkey.value a ≡ lookup v.validator_pubkey.value b)
        vs
    → totals_from a vs m ≡ totals_from b vs m
unfolding totals_from counted
totals_from-Agrees a b [] m h = refl
totals_from-Agrees a b (v ∷ vs) m h = rw h.0 (totals_from-Agrees a b vs _ h.1)

fetch_balances-some :
    (a : Answers) (v : Validator) (vs : List Validator) {balances : List (ℕ × ℕ)}
    → a.balances (deduplicate_pubkeys (v ∷ vs)) ≡ some balances
    → fetch_balances a (v ∷ vs) ≡ some (aggregate_by_cluster (v ∷ vs) balances)
unfolding fetch_balances
fetch_balances-some a v vs e = rw (fetch_balances, e) refl

aggregate_by_cluster-Agrees :
    (a b : List (ℕ × ℕ)) (vs : List Validator)
    → All
        (λ (v : Validator). lookup v.validator_pubkey.value a ≡ lookup v.validator_pubkey.value b)
        vs
    → aggregate_by_cluster vs a ≡ aggregate_by_cluster vs b
unfolding aggregate_by_cluster
aggregate_by_cluster-Agrees a b vs h = ap (map balance_entry) (totals_from-Agrees a b vs [] h)

-- The balances that a commit is made of are those of the beacon node's finalized state `full`: the
-- repeated keys that are left out, the batches, and the order in which their calls end, make no
-- difference, where the node answers every batch with what that state has.
pub fetch_balances-get_validator_balances :
    (full : List (ℕ × ℕ)) (validators : List ℕ → Option (List (ℕ × ℕ)))
    (order : List (List ℕ) → List (List ℕ)) (a : Answers) (vs : List Validator)
    → Answered (λ k. lookup k full) validators
    → ((batches : List (List ℕ)) → Perm batches (order batches))
    → fetch_balances (record a { balances = get_validator_balances validators order }) vs
      ≡ some (aggregate_by_cluster vs full)
unfolding fetch_balances deduplicate_pubkeys aggregate_by_cluster totals_from
fetch_balances-get_validator_balances full validators order a [] all perm = refl
fetch_balances-get_validator_balances full validators order a (v ∷ vs) all perm =
    let (balances, e, h) =
      get_validator_balances-Agrees (λ k. lookup k full) validators order
        (deduplicate_pubkeys (v ∷ vs)) all perm in
    let same = deduplicate_from-All (λ k. lookup k balances ≡ lookup k full) [] (v ∷ vs) tt h in
    fetch_balances-some (record a { balances = get_validator_balances validators order }) v vs e
    ∙ ap some (aggregate_by_cluster-Agrees balances full (v ∷ vs) same)
