-- ===== src/Syncer/State/Cursor.antt =====
-- For processBatch: the cursor and the number of known events, and the loop over blocks.
use ssv_oracle.Prelude.{
  ℕ, ◌+◌, ◌≡◌, refl, ap, ◌∙◌, inl, inr, Bool, true, false, Option, none, some, List, [], ◌∷◌, ◌++◌,
  Option-cases, arith,
}
use ssv_oracle.Merkle.Crypto.{Crypto}
use ssv_oracle.Storage.Clusters.{
  Tables, Bytes, ContractEvent, insert_event, upsert_cluster, add_validator, insert_validator,
  delete_validator, update_last_synced_block,
}
use ssv_oracle.Execution.Group.{Log, BlockLogs}
use ssv_oracle.Syncer.Events.{
  Event, validator_added, validator_removed, cluster_liquidated, cluster_reactivated,
  cluster_withdrawn, cluster_deposited, cluster_migrated, cluster_balance_updated,
  compute_cluster_id_from_event,
}
use ssv_oracle.Syncer.Parser.{Abi, Parsed, parsed, unknown_event, malformed, parse_log}
use ssv_oracle.Syncer.State.{
  row_of, stored_event, apply_event, process_parsed, process_log, process_logs, process_blocks,
  process_batch,
}

abbrev pub moved : ℕ → Tables → Tables
moved e t = record t { last_synced = e }

abbrev pub moved? : ℕ → Option Tables → Option Tables
moved? e none = none
moved? e (some t) = some (moved e t)

-- A result with another cursor and a number of known events that is greater by `d`.
abbrev pub shifted : ℕ → ℕ → Option (Tables × ℕ) → Option (Tables × ℕ)
shifted e d none = none
shifted e d (some (t, n)) = some (moved e t, n + d)

abbrev pub flagged : ℕ → Option (Tables × Bool) → Option (Tables × Bool)
flagged e none = none
flagged e (some (t, b)) = some (moved e t, b)

insert_event-moved :
    (e : ℕ) (ev : ContractEvent) (t : Tables)
    → insert_event ev (moved e t) ≡ moved e (insert_event ev t)
unfolding insert_event
insert_event-moved e ev t = ground arith

insert_validator-moved :
    (e id : ℕ) (key : Bytes) (t : Tables)
    → insert_validator id key (moved e t) ≡ moved? e (insert_validator id key t)
unfolding insert_validator add_validator
insert_validator-moved e id key t = ground arith

apply_event-moved :
    (e id : ℕ) (ev : Event) (t : Tables)
    → apply_event id ev (moved e t) ≡ moved? e (apply_event id ev t)
unfolding apply_event row_of upsert_cluster delete_validator
apply_event-moved e id (validator_added o ops key s c) t =
    insert_validator-moved e id key (upsert_cluster (row_of id (validator_added o ops key s c)) t)
apply_event-moved e id (validator_removed o ops key c) t = refl
apply_event-moved e id (cluster_liquidated o ops c) t = refl
apply_event-moved e id (cluster_reactivated o ops c) t = refl
apply_event-moved e id (cluster_withdrawn o ops v c) t = refl
apply_event-moved e id (cluster_deposited o ops v c) t = refl
apply_event-moved e id (cluster_migrated o ops a b d c) t = refl
apply_event-moved e id (cluster_balance_updated o ops n b c) t = refl

process_parsed-moved :
    (c : Crypto) (bl : BlockLogs) (log : Log) (p : Parsed) (e : ℕ) (t : Tables)
    → process_parsed c bl log p (moved e t) ≡ flagged e (process_parsed c bl log p t)
unfolding process_parsed
process_parsed-moved c bl log (parsed name ev) e t =
    let id = compute_cluster_id_from_event c ev in
    let row = stored_event bl log name (some id) none in
    let m : apply_event id ev (insert_event row (moved e t))
        ≡ moved? e (apply_event id ev (insert_event row t)) =
      ap (apply_event id ev) (insert_event-moved e row t)
      ∙ apply_event-moved e id ev (insert_event row t) in
    elim (Option-cases (apply_event id ev (insert_event row t))) [
      | inl x ↦ rw (m, x, process_parsed)
      | inr (u, x) ↦ rw (m, x, process_parsed)
    ]
process_parsed-moved c bl log (unknown_event message) e t =
    ap (λ u. some (u, false)) (insert_event-moved e _ t)
process_parsed-moved c bl log malformed e t = refl

module _ (c : Crypto) (abi : Abi) where
  process_logs-shifted :
      (bl : BlockLogs) (logs : List Log) (e d : ℕ) (t : Tables) (n : ℕ)
      → process_logs c abi bl logs (moved e t) (n + d)
        ≡ shifted e d (process_logs c abi bl logs t n)
  unfolding process_logs process_log
  process_logs-shifted bl [] e d t n = refl
  process_logs-shifted bl (log ∷ rest) e d t n =
      let m = process_parsed-moved c bl log (parse_log c abi log) e t in
      elim (Option-cases (process_parsed c bl log (parse_log c abi log) t)) [
        | inl x ↦ rw (m, x, process_logs)
        | inr ((u, true), x) ↦
            let one : n + d + 1 ≡ n + 1 + d = omega arith in
            rw (m, x, process_logs) (rw one (process_logs-shifted bl rest e d u (n + 1)))
        | inr ((u, false), x) ↦ rw (m, x, process_logs) (process_logs-shifted bl rest e d u n)
      ]

  pub process_blocks-shifted :
      (bs : List BlockLogs) (e d : ℕ) (t : Tables) (n : ℕ)
      → process_blocks c abi bs (moved e t) (n + d) ≡ shifted e d (process_blocks c abi bs t n)
  unfolding process_blocks
  process_blocks-shifted [] e d t n = refl
  process_blocks-shifted (bl ∷ rest) e d t n =
      let m = process_logs-shifted bl bl.logs e d t n in
      elim (Option-cases (process_logs c abi bl bl.logs t n)) [
        | inl x ↦ rw (m, x, process_blocks)
        | inr ((u, k), x) ↦ rw (m, x, process_blocks) (process_blocks-shifted rest e d u k)
      ]

  pub process_blocks-append :
      (xs ys : List BlockLogs) (t u : Tables) (n k : ℕ)
      → process_blocks c abi xs t n ≡ some (u, k)
      → process_blocks c abi (xs ++ ys) t n ≡ process_blocks c abi ys u k
  unfolding process_blocks
  process_blocks-append [] ys t u n k h = ground arith
  process_blocks-append (bl ∷ rest) ys t u n k h =
      elim (Option-cases (process_logs c abi bl bl.logs t n)) [
        | inl x ↦ ground (arith, x)
        | inr ((v, j), x) ↦
            rw (x, process_blocks)
              (process_blocks-append rest ys v u j k (rw (x, process_blocks) at h))
      ]

  pub process_batch-process_blocks :
      (e : ℕ) (bs : List BlockLogs) (t u : Tables) (k : ℕ)
      → process_blocks c abi bs t 0 ≡ some (u, k)
      → process_batch c abi e bs t ≡ (moved e u, some k)
  unfolding process_batch update_last_synced_block process_blocks
  process_batch-process_blocks e [] t u k h = ground (arith, h)
  process_batch-process_blocks e (bl ∷ rest) t u k h = rw (h, process_batch)

  pub process_batch-whole :
      (e : ℕ) (bs : List BlockLogs) (t : Tables) (k : ℕ)
      → (process_batch c abi e bs t).1 ≡ some k
      → (u : Tables) × (process_blocks c abi bs t 0 ≡ some (u, k))
        × ((process_batch c abi e bs t).0 ≡ moved e u)
  unfolding process_batch update_last_synced_block process_blocks
  process_batch-whole e [] t k h = (t, ground (arith, h), refl)
  process_batch-whole e (bl ∷ rest) t k h =
      elim (Option-cases (process_blocks c abi (bl ∷ rest) t 0)) [
        | inl x ↦ absurd (ground (arith, x, h))
        | inr ((u, j), x) ↦ (u, ground (arith, x, h), rw (x, process_batch))
      ]
