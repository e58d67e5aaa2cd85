-- ===== src/Contract/Updates.antt =====
-- updater/updater.go with contract/client.go: toContractCluster, and processCluster over the client.
use ssv_oracle.Prelude.{
  ℕ, ◌≡◌, ◌≢◌, refl, ap, sym, subst, ◌∙◌, ◌⊎◌, true, false, some, List, ◌==◌, Option-cases,
  Bool-cases, inl, inr, arith,
}
use ssv_oracle.Merkle.Tree.{Leaf, Tree, Error, Result, ok, err, get_proof}
use ssv_oracle.Storage.Clusters.{ClusterRow}
use ssv_oracle.Tx.Receipt.{Receipt}
use ssv_oracle.Tx.Send.{Env, Outcome, confirmed, reverted, failed, Run, send_transaction}
use ssv_oracle.Tx.Send.Results.{IsTruthful, send_transaction-IsAccounted}
use ssv_oracle.Updater.{
  UpdateResult, BalanceResult, balance_of, read_reverted, read_failed, Answer, updated,
  processed_of, submit, with_row, process_cluster,
}
use ssv_oracle.Contract.{
  Cluster, ContractAbi, Client, TxOpts, Submitted, not_packed, submitted, opts_of, env_of, send,
  update_cluster_balance, CallMsg, CallReply, get_cluster_effective_balance, update_result_of,
}

-- toContractCluster
unfoldable pub to_contract_cluster : ClusterRow → Cluster
to_contract_cluster row = record {
  validator_count = row.validator_count;
  network_fee_index = row.network_fee_index;
  index = row.index;
  active = row.is_active;
  balance = row.balance;
}

submit-updated :
    (block : ℕ) (leaf : Leaf) (row : ClusterRow) (proof : List ℕ) (b : BalanceResult)
    (u : UpdateResult)
    → (submit block leaf row proof b u).0 ≡ updated
    → (current : ℕ) × (b ≡ balance_of current)
      × (current ≢ leaf.effective_balance)
      × (u ≡ UpdateResult.confirmed)
unfolding submit
submit-updated block leaf row proof read_failed u h = absurd (cc)
submit-updated block leaf row proof (read_reverted m) u h = absurd (cc)
submit-updated block leaf row proof (balance_of b) u h =
    elim (Bool-cases (b == leaf.effective_balance)) [
      | inl y ↦ absurd (ground (arith, y, h))
      | inr n ↦ (b, refl, (λ e. ground (arith, n, e)), on u (rw n at h))
    ]
  where
    on : (u : UpdateResult) → processed_of u ≡ updated → u ≡ UpdateResult.confirmed
    on UpdateResult.confirmed e = refl
    on (UpdateResult.reverted m) e = absurd (cc)
    on UpdateResult.failed e = absurd (cc)

outcome-confirmed :
    (o : TxOpts) (r : Run)
    → update_result_of (submitted o r) ≡ UpdateResult.confirmed
    → (x : Receipt) × (r.outcome ≡ confirmed x)
unfolding update_result_of
outcome-confirmed o r h = on r.outcome h
  where
    on :
        (x : Outcome)
        → update_result_of (submitted o (record r { outcome = x })) ≡ UpdateResult.confirmed
        → (y : Receipt) × (x ≡ confirmed y)
    on (confirmed x) e = (x, refl)
    on (reverted x m) e = absurd (cc)
    on (failed x) e = absurd (ground (arith, e))

not_packed-confirmed : update_result_of not_packed ≡ UpdateResult.confirmed → ⊥
unfolding update_result_of
not_packed-confirmed h = cc

Result-cases : (r : Result (List ℕ)) → ((p : List ℕ) × (r ≡ ok p)) ⊎ ((e : Error) × (r ≡ err e))
Result-cases (ok p) = inl (p, refl)
Result-cases (err e) = inr (e, refl)

module _ (cl : Client) (abi : ContractAbi) (env : TxOpts → Env) (call : CallMsg → CallReply)
    (block : ℕ) (leaf : Leaf) (t : Tree) (row : ClusterRow) where
  -- The two calls of processCluster for a row, the second one with its proof.
  unfoldable pub read_balance : BalanceResult
  unfolding to_contract_cluster
  read_balance =
      get_cluster_effective_balance cl abi call row.owner_address row.operator_ids
        (to_contract_cluster row)

  unfoldable pub send_update : List ℕ → Submitted
  unfolding to_contract_cluster
  send_update proof =
      update_cluster_balance cl abi env block row.owner_address row.operator_ids
        (to_contract_cluster row) leaf.effective_balance proof

  unfoldable pub update_for : Result (List ℕ) → UpdateResult
  update_for (ok proof) = update_result_of (send_update proof)
  update_for (err e) = UpdateResult.failed

  -- The answers to processCluster where the lookup finds the row and the client does the calls.
  abbrev pub answers : Answer
  answers = record {
    context_done = false;
    lookup = λ id. some (some row);
    current_balance = read_balance;
    update = update_for (get_proof t leaf.cluster_id);
  }

  -- The contract was told the balance of the leaf for the row's cluster: it had another one before, the
  -- call had the tree's proof of the leaf and asked for the protection of the MEV RPCs, and it has a
  -- successful receipt.
  pub record IsUpdated : Type 0 where
    pub before : ℕ
    pub proof : List ℕ
    pub opts : TxOpts
    pub run : Run
    pub receipt : Receipt
    pub differs : (read_balance ≡ balance_of before) × (before ≢ leaf.effective_balance)
    pub proven : get_proof t leaf.cluster_id ≡ ok proof
    pub packed :
        abi.pack_update_cluster_balance block row.owner_address row.operator_ids
          (to_contract_cluster row)
          leaf.effective_balance
          proof
        ≡ some opts.payload
    pub addressed : opts.to ≡ cl.contract_address
    pub protected : opts.mev_protected ≡ true
    pub sent_by : send_update proof ≡ submitted opts run
    pub ended : run.outcome ≡ confirmed receipt
    pub successful : receipt.successful ≡ true

  sent-IsUpdated :
      (before : ℕ) (proof : List ℕ)
      → (read_balance ≡ balance_of before) × (before ≢ leaf.effective_balance)
      → get_proof t leaf.cluster_id ≡ ok proof
      → update_result_of (send_update proof) ≡ UpdateResult.confirmed
      → IsUpdated
  unfolding send_update update_cluster_balance send
  sent-IsUpdated before proof d e h =
      let packs =
        abi.pack_update_cluster_balance block row.owner_address row.operator_ids
          (to_contract_cluster row) leaf.effective_balance proof in
      elim (Option-cases packs) [
        | inl n ↦
            let same : send_update proof ≡ not_packed = rw (n, send) refl in
            absurd (not_packed-confirmed (ap update_result_of (sym same) ∙ h))
        | inr (payload, f) ↦
            let o : TxOpts = record {
              to = cl.contract_address;
              payload = payload;
              mev_protected = true;
            } in
            let r = send_transaction cl.policy (env_of cl (env o)) (opts_of cl o) in
            let same : send_update proof ≡ submitted o r = rw (f, send) refl in
            let (x, ended) = outcome-confirmed o r (ap update_result_of (sym same) ∙ h) in
            record {
              before = before;
              proof = proof;
              opts = o;
              run = r;
              receipt = x;
              differs = d;
              proven = e;
              packed = f;
              addressed = refl;
              protected = refl;
              sent_by = same;
              ended = ended;
              successful =
                  subst IsTruthful ended
                    (send_transaction-IsAccounted cl.policy (env_of cl (env o))
                      (opts_of cl o)).truthful;
            }
      ]

  -- Where processCluster over the client of the contract reports that it updated the balance of a
  -- leaf, the contract had another balance for the cluster of the row, a call with the row's cluster,
  -- the balance of the leaf and the tree's proof of it went to the contract with the MEV protection
  -- asked for, and it has a successful receipt.
  pub process_cluster-IsUpdated : (process_cluster block leaf t answers).0 ≡ updated → IsUpdated
  unfolding process_cluster with_row update_for
  process_cluster-IsUpdated h = elim (Result-cases (get_proof t leaf.cluster_id)) [
    | inr (e, f) ↦ absurd (ground (arith, f, h))
    | inl (proof, f) ↦
        let (before, b, n, u) =
          submit-updated block leaf row proof read_balance
            (update_for (get_proof t leaf.cluster_id)) (rw (f, with_row) at h) in
        sent-IsUpdated before proof (b, n) f (rw (f, update_for) at u)
  ]
