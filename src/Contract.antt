-- ===== src/Contract.antt =====
-- contract/client.go: CommitRoot, UpdateClusterBalance and the calls of the views contract. The packing
-- and unpacking of ABI data are arguments; so is what the node answers to a transaction or a call.
pub mod Publishes
pub mod Updates
pub mod Events
pub mod Connect
mod Tests
use ssv_oracle.Prelude.{
  ℕ, Bool, true, false, Option, none, some, List, [], ◌∷◌, if◌then◌else◌, Text, text,
}
use ssv_oracle.Tx.Policy.{TxPolicy}
use ssv_oracle.Tx.Errors.{RpcError, is_contract_revert}
use ssv_oracle.Tx.Send.{
  TxError, gas_reverted, Outcome, confirmed, reverted, failed, Decoder, Env, Opts, Run, reason_of,
  send_transaction,
}
use ssv_oracle.Oracle.Commit.{CommitReply, mined, not_sent}
use ssv_oracle.Oracle.Commit
use ssv_oracle.Updater.{UpdateResult, BalanceResult, balance_of, read_reverted, read_failed}
use ssv_oracle.Updater

-- The SSV cluster struct as used in the contract.
pub record Cluster : Type 0 where
  pub validator_count : ℕ
  pub network_fee_index : ℕ
  pub index : ℕ
  pub active : Bool
  pub balance : ℕ

-- The ABIs of the two contracts; `none` is an error.
pub record ContractAbi : Type 0 where
  pub pack_commit_root : ℕ → ℕ → Option (List ℕ)
  pub pack_get_committed_root : ℕ → Option (List ℕ)
  pub pack_get_effective_balance : ℕ → List ℕ → Cluster → Option (List ℕ)
  pub pack_update_cluster_balance : ℕ → ℕ → List ℕ → Cluster → ℕ → List ℕ → Option (List ℕ)
  pub unpack_committed_root : List ℕ → Option ℕ
  pub unpack_effective_balance : List ℕ → Option ℕ

-- A client, with the policy, the error selectors and the number of the MEV clients of its manager.
pub record Client : Type 0 where
  pub contract_address : ℕ
  pub views_contract_address : ℕ
  pub policy : TxPolicy
  pub decoder : Decoder
  pub mev_clients : ℕ

-- TxOpts; the value is nil and there is no gas limit.
pub record TxOpts : Type 0 where
  pub to : ℕ
  pub payload : List ℕ
  pub mev_protected : Bool

-- A call that could not be packed, or the options and the run of SendTransaction.
pub data Submitted : Type 0 where
  not_packed : Submitted
  submitted : TxOpts → Run → Submitted

abbrev pub opts_of : Client → TxOpts → Opts
opts_of cl o = record {
  gas_limit = 0;
  mev_protected = o.mev_protected;
  mev_clients = cl.mev_clients;
}

-- The manager decodes with the selectors of SetErrorSelectors.
abbrev pub env_of : Client → Env → Env
env_of cl env = record env { decoder = cl.decoder }

-- The call of SendTransaction behind the packing.
unfoldable pub send : Client → (TxOpts → Env) → Bool → Option (List ℕ) → Submitted
send cl env mev none = not_packed
send cl env mev (some payload) =
    let o : TxOpts = record { to = cl.contract_address; payload = payload; mev_protected = mev } in
    submitted o (send_transaction cl.policy (env_of cl (env o)) (opts_of cl o))

-- CommitRoot
unfoldable pub commit_root : Client → ContractAbi → (TxOpts → Env) → ℕ → ℕ → Submitted
unfolding send
commit_root cl abi env root block = send cl env false (abi.pack_commit_root root block)

-- UpdateClusterBalance
unfoldable pub update_cluster_balance :
    Client → ContractAbi → (TxOpts → Env) → ℕ → ℕ → List ℕ → Cluster → ℕ → List ℕ → Submitted
unfolding send
update_cluster_balance cl abi env block owner operators cluster balance proof =
    send cl env true (abi.pack_update_cluster_balance block owner operators cluster balance proof)

-- A call of a contract, and what the node answers.
pub record CallMsg : Type 0 where
  pub to : ℕ
  pub payload : List ℕ

pub data CallReply : Type 0 where
  returned : List ℕ → CallReply
  call_failed : RpcError → CallReply

root_in : ContractAbi → CallReply → Option ℕ
root_in abi (returned result) = abi.unpack_committed_root result
root_in abi (call_failed e) = none

-- GetCommittedRoot; `none` is an error.
unfoldable pub get_committed_root : Client → ContractAbi → (CallMsg → CallReply) → ℕ → Option ℕ
unfolding root_in
get_committed_root cl abi call block = elim (abi.pack_get_committed_root block) [
  | none ↦ none
  | some payload ↦ root_in abi (call (record { to = cl.views_contract_address; payload = payload }))
]

balance_in : Client → ContractAbi → CallReply → BalanceResult
balance_in cl abi (returned result) = elim (abi.unpack_effective_balance result) [
  | none ↦ read_failed
  | some balance ↦ balance_of balance
]
balance_in cl abi (call_failed e) =
    if is_contract_revert e then read_reverted (reason_of cl.decoder e) else read_failed

-- GetClusterEffectiveBalance
unfoldable pub get_cluster_effective_balance :
    Client → ContractAbi → (CallMsg → CallReply) → ℕ → List ℕ → Cluster → BalanceResult
unfolding balance_in
get_cluster_effective_balance cl abi call owner operators cluster =
    elim (abi.pack_get_effective_balance owner operators cluster) [
      | none ↦ read_failed
      | some payload ↦
          balance_in cl abi (call (record { to = cl.views_contract_address; payload = payload }))
    ]

-- What commit and handleCommitError read of the receipt and the error of CommitRoot.
abbrev outcome_reply : Outcome → CommitReply
outcome_reply (confirmed r) = mined r.tx_hash
outcome_reply (reverted r reason) = CommitReply.reverted (some r.tx_hash)
outcome_reply (failed (gas_reverted reason)) = CommitReply.reverted none
outcome_reply (failed e) = not_sent none

unfoldable pub reply_of : Submitted → CommitReply
reply_of not_packed = not_sent none
reply_of (submitted o r) = outcome_reply r.outcome

-- What processCluster and processAllClusters read of those of UpdateClusterBalance.
abbrev outcome_result : Outcome → UpdateResult
outcome_result (confirmed r) = UpdateResult.confirmed
outcome_result (reverted r reason) = UpdateResult.reverted reason
outcome_result (failed (gas_reverted reason)) = UpdateResult.reverted reason
outcome_result (failed e) = UpdateResult.failed

unfoldable pub update_result_of : Submitted → UpdateResult
update_result_of not_packed = UpdateResult.failed
update_result_of (submitted o r) = outcome_result r.outcome
