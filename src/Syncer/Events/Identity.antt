-- ===== src/Syncer/Events/Identity.antt =====
-- For computeClusterID: the order of the operators.
use ssv_oracle.Prelude.{ℕ, ◌≡◌, ap, ◌∙◌, List, ◌++◌, sort_nat_perm}
use mathlib.Core.List.{Perm}
use ssv_oracle.Merkle.Crypto.{Crypto, be_bytes}
use ssv_oracle.Syncer.Events.{
  Event, event_owner, event_operators, id_words, compute_cluster_id, compute_cluster_id_from_event,
}

compute_cluster_id_perm :
    (c : Crypto) (owner : ℕ) {xs ys : List ℕ}
    → Perm xs ys
    → compute_cluster_id c owner xs ≡ compute_cluster_id c owner ys
unfolding compute_cluster_id
compute_cluster_id_perm c owner p =
    ap (λ s. c.keccak256 (be_bytes 20 owner ++ id_words s)) (sort_nat_perm p)

-- Two events of one owner whose operator lists are permutations of each other belong to the same
-- cluster identifier.
pub compute_cluster_id_from_event_perm :
    (c : Crypto) (e f : Event)
    → event_owner e ≡ event_owner f
    → Perm (event_operators e) (event_operators f)
    → compute_cluster_id_from_event c e ≡ compute_cluster_id_from_event c f
unfolding compute_cluster_id_from_event
compute_cluster_id_from_event_perm c e f o p =
    compute_cluster_id_perm c (event_owner e) p
    ∙ ap (λ w. compute_cluster_id c w (event_operators f)) o
