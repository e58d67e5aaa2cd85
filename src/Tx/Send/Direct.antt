-- ===== src/Tx/Send/Direct.antt =====
-- For SendTransaction without the MEV protection.
use ssv_oracle.Prelude.{
  ◌≡◌, refl, ℕ, Bool, false, Option, List, Text, Bool-cases, inl, inr, All, pos_part, arith,
}
use ssv_oracle.Tx.Policy.{TxPolicy}
use ssv_oracle.Tx.Send.{
  Tx, to_node, route_of, Env, Opts, LoopState, cancel_with, start_state, send_transaction,
}
use ssv_oracle.Tx.Send.Rule.{Rule, attempts_rule, send_transaction_rule}

-- Handed to the node, and not to the MEV RPCs.
abbrev pub IsDirect : Tx → Type 0
IsDirect t = t.route ≡ to_node

-- What the loop keeps.
abbrev StaysDirect : LoopState → Type 0
StaysDirect s = (s.mev ≡ false) × All IsDirect s.sent

route_of-direct :
    (mev : Bool) (replies : List (Option Text)) → mev ≡ false → route_of mev replies ≡ to_node
unfolding route_of
route_of-direct mev replies h = rw h refl

module _ (p : TxPolicy) (env : Env) (nonce gas limit : ℕ) where
  IsDirect-Rule : Rule p env nonce gas (λ k s. StaysDirect s) (λ r. All IsDirect r.sent) limit
  unfolding cancel_with
  IsDirect-Rule = record {
    finish = λ k s o m v h. v.1;
    give_up = λ k s e m v h. elim (Bool-cases env.cancel_signs) [
      | inl signs ↦ rw signs (refl, v.1)
      | inr not ↦ rw not v.1
    ];
    bump = λ k a s f v e. v;
    leave = λ k s v. (refl, v.1);
    publish = λ k s l v. v;
    send = λ k n s v. (v.0, (route_of-direct _ _ v.0, v.1));
  }

-- Without the protection no transaction of a call goes to the MEV RPCs.
pub send_transaction-IsDirect :
    (p : TxPolicy) (env : Env) (opts : Opts)
    → opts.mev_protected ≡ false
    → All IsDirect (send_transaction p env opts).sent
send_transaction-IsDirect p env opts h =
    send_transaction_rule p env opts (λ r. All IsDirect r.sent) (λ e g. tt)
      λ gas nonce fees m s.
        attempts_rule p env nonce gas _ _ (pos_part p.max_attempts)
          (IsDirect-Rule p env nonce gas (pos_part p.max_attempts)) 0 (pos_part p.max_attempts) 1
          (start_state opts fees) (omega arith) (ground (arith, h), tt)
