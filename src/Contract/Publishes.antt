-- ===== src/Contract/Publishes.antt =====
-- For CommitRoot and the commit that calls it: what has happened on the chain.
use ssv_oracle.Prelude.{
  ℕ, ◌≡◌, refl, ap, sym, subst, ◌∙◌, true, false, none, some, All, Option-cases, inl, inr, arith,
}
use ssv_oracle.Merkle.Crypto.{Crypto}
use ssv_oracle.Storage.{Db}
use ssv_oracle.Storage.Commits.{commit_of}
use ssv_oracle.Tx.Receipt.{Receipt}
use ssv_oracle.Tx.Send.{Env, Outcome, confirmed, reverted, failed, Run, send_transaction}
use ssv_oracle.Tx.Send.Direct.{IsDirect, send_transaction-IsDirect}
use ssv_oracle.Tx.Send.Results.{IsTruthful, send_transaction-IsAccounted}
use ssv_oracle.Syncer.Parser.{Abi}
use ssv_oracle.Oracle.Commit.{Answers, mined, success, commit}
use ssv_oracle.Oracle.Commit.Confirmed.{IsConfirmed, commit-Confirms}
use ssv_oracle.Contract.{
  ContractAbi, Client, TxOpts, not_packed, submitted, opts_of, env_of, send, commit_root, CallMsg,
  CallReply, get_committed_root, reply_of,
}

-- A transaction of CommitRoot for a root and a block is in the chain: the contract's ABI packed the
-- two, the call went to the contract and never to the MEV RPCs, and it ended with a receipt that says
-- success and has the hash.
pub record IsPublished (cl : Client) (abi : ContractAbi) (env : TxOpts → Env) (root block hash : ℕ)
    : Type 0 where
  pub opts : TxOpts
  pub run : Run
  pub receipt : Receipt
  pub packed : abi.pack_commit_root root block ≡ some opts.payload
  pub addressed : opts.to ≡ cl.contract_address
  pub sent_by : commit_root cl abi env root block ≡ submitted opts run
  pub direct : All IsDirect run.sent
  pub ended : run.outcome ≡ confirmed receipt
  pub successful : receipt.successful ≡ true
  pub of_hash : receipt.tx_hash ≡ hash

outcome-mined :
    (o : TxOpts) (r : Run) (hash : ℕ)
    → reply_of (submitted o r) ≡ mined hash
    → (x : Receipt) × (r.outcome ≡ confirmed x) × (x.tx_hash ≡ hash)
unfolding reply_of
outcome-mined o r hash h = on r.outcome refl
  where
    on :
        (x : Outcome)
        → r.outcome ≡ x
        → (y : Receipt) × (r.outcome ≡ confirmed y) × (y.tx_hash ≡ hash)
    on (confirmed x) e = (x, e, ground (arith, e, h))
    on (reverted x m) e = absurd (ground (arith, e, h))
    on (failed x) e = absurd (ground (arith, e, h))

not_packed-mined : (hash : ℕ) → reply_of not_packed ≡ mined hash → ⊥
unfolding reply_of
not_packed-mined hash h = cc

commit_root-mined :
    (cl : Client) (abi : ContractAbi) (env : TxOpts → Env) (root block hash : ℕ)
    → reply_of (commit_root cl abi env root block) ≡ mined hash
    → IsPublished cl abi env root block hash
unfolding commit_root send
commit_root-mined cl abi env root block hash h =
    elim (Option-cases (abi.pack_commit_root root block)) [
      | inl n ↦
          let same : commit_root cl abi env root block ≡ not_packed = rw (n, send) refl in
          absurd (not_packed-mined hash (ap reply_of (sym same) ∙ h))
      | inr (payload, e) ↦
          let o : TxOpts = record {
            to = cl.contract_address;
            payload = payload;
            mev_protected = false;
          } in
          let r = send_transaction cl.policy (env_of cl (env o)) (opts_of cl o) in
          let same : commit_root cl abi env root block ≡ submitted o r = rw (e, send) refl in
          let (x, ended, of_hash) = outcome-mined o r hash (ap reply_of (sym same) ∙ h) in
          record {
            opts = o;
            run = r;
            receipt = x;
            packed = e;
            addressed = refl;
            sent_by = same;
            direct = send_transaction-IsDirect cl.policy (env_of cl (env o)) (opts_of cl o) refl;
            ended = ended;
            successful =
                subst IsTruthful ended
                  (send_transaction-IsAccounted cl.policy (env_of cl (env o))
                    (opts_of cl o)).truthful;
            of_hash = of_hash;
          }
    ]

-- The answers of the contract to one commit, through the client.
abbrev pub through :
    Client → ContractAbi → (TxOpts → Env) → (CallMsg → CallReply) → ℕ → Answers → Answers
through cl abi env call block a = record a {
  committed_root = get_committed_root cl abi call block;
  reply = λ root. reply_of (commit_root cl abi env root block);
}

-- A commit through the contract's client that reports a transaction has it in the chain: the target's
-- row is confirmed with the transaction's hash, and a transaction that commits exactly the root of
-- the row's balances for the block of the commit was sent to the contract, never over the MEV RPCs,
-- and has a successful receipt with this hash. The target had no row before.
pub commit_publishes :
    (c : Crypto) (sync_abi : Abi) (cl : Client) (abi : ContractAbi) (env : TxOpts → Env)
    (call : CallMsg → CallReply) (a : Answers) (block target hash : ℕ) (db : Db)
    → commit_of target db.commits ≡ none
    → (commit c sync_abi (through cl abi env call block a) block target db).1 ≡ success hash
    → IsConfirmed c target block hash
        (commit c sync_abi (through cl abi env call block a) block target db).0.commits
        (λ root. IsPublished cl abi env root block hash)
commit_publishes c sync_abi cl abi env call a block target hash db free e =
    let x =
      commit-Confirms c (through cl abi env call block a) block target hash sync_abi db free e in
    record {
      row = x.row;
      found = x.found;
      status = x.status;
      tx_hash = x.tx_hash;
      reference_block = x.reference_block;
      merkle_root = x.merkle_root;
      published = commit_root-mined cl abi env x.row.merkle_root block hash x.published;
    }
