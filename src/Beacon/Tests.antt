-- ===== src/Beacon/Tests.antt =====
-- A run of GetValidatorBalances.
use ssv_oracle.Prelude.{ℕ, ◌≡◌, refl, some, List, [], ◌∷◌, lookup, All}
use ssv_oracle.Storage.Clusters.{Bytes}
use ssv_oracle.Beacon.Merged.{Answered}

abbrev state : List (ℕ × ℕ)
state = (11, 40000000000) ∷ (12, 32000000000) ∷ []

abbrev keys : List Bytes
keys = record { size = 48; value = 12 } ∷ record { size = 48; value = 13 } ∷ []

every_key : (batch : List ℕ) → All (λ k. lookup k state ≡ lookup k state) batch
every_key [] = tt
every_key (k ∷ batch) = (refl, every_key batch)

state_answers : Answered (λ k. lookup k state) (λ batch. some state)
unfolding lookup
state_answers batch = (state, refl, ((refl, (refl, tt)), every_key batch))
