-- ===== src/Cmd/Releases.antt =====
-- For run: what it opens, closes and serves.
use mathlib.Core.List.{append_assoc}
use ssv_oracle.Prelude.{
  ℕ, ◌≡◌, ◌⊎◌, refl, ap, ◌∙◌, Bool, true, false, Option, none, some, List, [], ◌∷◌, ◌++◌, map,
  if◌then◌else◌, u64, inl, inr,
}
use ssv_oracle.Storage.{Db, get_chain_id, clear_all_state}
use ssv_oracle.Cmd.{
  ChainCheck, validate_chain_id, Resource, signals, metrics, signer, store, exec_client,
  contract_client, Step, opened, closed, served, StartError, Start, Ended, fail, with_resource,
  from_contract, from_beacon, from_chain, from_exec, from_clear, from_store, from_signer,
  from_metrics, run,
}
use ssv_oracle.Cmd.Chain.{IsChecked, validate_chain_id-IsChecked}

-- The resources closed in the reverse of their order.
abbrev pub closings : List Resource → List Step
closings [] = []
closings (r ∷ rest) = closings rest ++ closed r ∷ []

-- The database has the chain ID of the node.
abbrev pub HasChain : ChainCheck → Db → Type 0
HasChain k db = (chain : ℕ) × (k.node_chain_id ≡ some chain) × (get_chain_id db ≡ some (u64 chain))

-- Some first resources of all are opened, and then closed in the reverse order; between the two either
-- nothing happens and the start ends with an error, or all resources are open, the services run, and
-- the database has the chain ID of the node.
pub record IsOrderly (k : ChainCheck) (all : List Resource) (e : Ended) : Type 0 where
  pub held : List Resource
  pub others : List Resource
  pub inner : List Step
  pub first : held ++ others ≡ all
  pub steps : e.steps ≡ map opened held ++ (inner ++ closings held)
  pub how :
      ((inner ≡ []) × ((x : StartError) × (e.error ≡ some x)))
      ⊎ ((inner ≡ served ∷ []) × (others ≡ []) × HasChain k e.db)

fail-IsOrderly :
    (k : ChainCheck) (all : List Resource) (x : StartError) (db : Db) → IsOrderly k all (fail x db)
fail-IsOrderly k all x db = record {
  held = [];
  others = all;
  inner = [];
  first = refl;
  steps = refl;
  how = inl (refl, (x, refl));
}

with_resource-IsOrderly :
    (k : ChainCheck) (all : List Resource) (r : Resource) (e : Ended)
    → IsOrderly k all e
    → IsOrderly k (r ∷ all) (with_resource r e)
with_resource-IsOrderly k all r e h = record {
  held = r ∷ h.held;
  others = h.others;
  inner = h.inner;
  first = ap (λ l. r ∷ l) h.first;
  steps =
      ap (λ l. opened r ∷ (l ++ closed r ∷ [])) h.steps
      ∙ ap (λ l. opened r ∷ l)
          (append_assoc (map opened h.held) (h.inner ++ closings h.held) (closed r ∷ [])
            ∙ ap (λ l. map opened h.held ++ l)
                (append_assoc h.inner (closings h.held) (closed r ∷ [])));
  how = h.how;
}

-- A branch that opens or fails.
if-IsOrderly :
    (k : ChainCheck) (all : List Resource) (b : Bool) (e f : Ended)
    → IsOrderly k all e
    → IsOrderly k all f
    → IsOrderly k all (if b then e else f)
if-IsOrderly k all true e f x y = x
if-IsOrderly k all false e f x y = y

module _ (s : Start) where
  abbrev Orderly : List Resource → Ended → Type 0
  Orderly = IsOrderly s.chain_check

  abbrev step :
      {all : List Resource} (b : Bool) (x : StartError) (db : Db) (e : Ended)
      → Orderly all e
      → Orderly all (if b then e else fail x db)
  step {all} b x db e h =
      if-IsOrderly s.chain_check all b e (fail x db) h (fail-IsOrderly s.chain_check all x db)

  from_contract-Orderly :
      (db : Db) → HasChain s.chain_check db → Orderly (contract_client ∷ []) (from_contract s db)
  unfolding from_contract
  from_contract-Orderly db h = step s.contract_connects _ db _ (
      with_resource-IsOrderly s.chain_check [] contract_client _ (record {
        held = [];
        others = [];
        inner = served ∷ [];
        first = refl;
        steps = refl;
        how = inr (refl, refl, h);
      }))

  from_chain-Orderly :
      (db : Db) (r : Option ℕ × Db)
      → IsChecked s.chain_check db r
      → Orderly (contract_client ∷ []) (from_chain s r)
  unfolding from_chain from_beacon
  from_chain-Orderly db (none, db') h = fail-IsOrderly s.chain_check _ _ db'
  from_chain-Orderly db (some chain, db') h =
      step s.beacon_connects _ db' _ (from_contract-Orderly db' (chain, h.0, h.1))

  from_exec-Orderly : (db : Db) → Orderly (exec_client ∷ contract_client ∷ []) (from_exec s db)
  unfolding from_exec
  from_exec-Orderly db = step s.exec_connects _ db _ (
      with_resource-IsOrderly s.chain_check _ exec_client _ (
        from_chain-Orderly db (validate_chain_id s.chain_check db)
          (validate_chain_id-IsChecked s.chain_check db)))

  from_clear-Orderly : (db : Db) → Orderly (exec_client ∷ contract_client ∷ []) (from_clear s db)
  unfolding from_clear
  from_clear-Orderly db =
      if-IsOrderly s.chain_check _ s.fresh_start _ _
        (step s.clears _ db _ (from_exec-Orderly (clear_all_state db))) (from_exec-Orderly db)

  from_signer-Orderly :
      (db : Db) → Orderly (signer ∷ store ∷ exec_client ∷ contract_client ∷ []) (from_signer s db)
  unfolding from_signer from_store
  from_signer-Orderly db = step s.signer_created _ db _ (
      with_resource-IsOrderly s.chain_check _ signer _ (
        step s.store_opened _ db _
          (with_resource-IsOrderly s.chain_check _ store _ (from_clear-Orderly db))))

  -- Whatever fails of a start, the resources that were opened before are closed, each once and in the
  -- reverse order; the services run only when all are open and the database has the chain ID of the
  -- node, and else the start ends with an error.
  pub run-IsOrderly :
      (db : Db)
      → IsOrderly s.chain_check
          (signals ∷ metrics ∷ signer ∷ store ∷ exec_client ∷ contract_client ∷ [])
          (run s db)
  unfolding run from_metrics
  run-IsOrderly db = with_resource-IsOrderly s.chain_check _ signals _ (
      step s.config_loads _ db _ (
        step s.metrics_set_up _ db _
          (with_resource-IsOrderly s.chain_check _ metrics _ (from_signer-Orderly db))))
