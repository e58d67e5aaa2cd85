-- ===== src/Merkle/Tests.antt =====
-- Runs of merkle/ on a small map.
use ssv_oracle.Prelude.{ℕ, ◌+◌, ◌*◌, ◌%◌, ◌≡◌, refl, List, [], ◌∷◌, lookup}
use mathlib.Core.List.Permᴰ
use ssv_oracle.Merkle.Crypto.{Crypto, hash_leaf}
use ssv_oracle.Merkle.Tree.{new_tree, get_proof, ok}
use ssv_oracle.Merkle.Layers.{process_proof}
use ssv_oracle.Merkle.Proofs.{new_tree-get_proof}
use ssv_oracle.Merkle.Order.{new_tree_perm}

unfoldable toy_hash : List ℕ → ℕ
toy_hash [] = 7
toy_hash (x ∷ xs) = (x + 31 * toy_hash xs) % 1000003

abbrev toy : Crypto
toy = record { keccak256 = toy_hash; pack_leaf = λ id b. id ∷ b ∷ [] }

abbrev balances : List (ℕ × ℕ)
balances = (5, 32) ∷ (9, 64) ∷ (2, 96) ∷ []

abbrev balances_moved : List (ℕ × ℕ)
balances_moved = (9, 64) ∷ (5, 32) ∷ (2, 96) ∷ []

new_tree-get_proof_example :
    (p : List ℕ) × (get_proof (new_tree toy balances) 9 ≡ ok p)
    × (process_proof toy (hash_leaf toy 9 64) p ≡ (new_tree toy balances).root)
unfolding lookup
new_tree-get_proof_example = new_tree-get_proof toy balances 9 64 (refl, (refl, (refl, tt))) refl

new_tree_perm_example :
    ((new_tree toy balances).root ≡ (new_tree toy balances_moved).root)
    × ((new_tree toy balances).layers ≡ (new_tree toy balances_moved).layers)
new_tree_perm_example = new_tree_perm toy ∣ Permᴰ.swap refl refl ∣₁
