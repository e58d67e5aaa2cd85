-- ===== src/Tx/Send/Results.antt =====
-- How many transactions one call of SendTransaction sends, and what it reports.
use ssv_oracle.Prelude.{
  ℕ, suc, ◌+◌, ◌≤◌, ◌≡◌, refl, true, false, ◌&&◌, List, [], ◌∷◌, if◌then◌else◌, pos_part, length,
  Bool-cases, inl, inr, arith,
}
use ssv_oracle.Tx.Policy.{TxPolicy}
use ssv_oracle.Tx.Send.{
  Tx, TxError, Outcome, confirmed, reverted, failed, Env, Opts, LoopState, Run, cancel_with,
  start_state, send_transaction,
}
use ssv_oracle.Tx.Send.Rule.{Rule, gives_up, IsHonest, attempts_rule, send_transaction_rule}

-- How many of the transactions are cancellations.
unfoldable pub cancellations : List Tx → ℕ
cancellations [] = 0
cancellations (t ∷ rest) = let n = cancellations rest in if t.cancels then suc n else n

abbrev pub IsTruthful : Outcome → Type 0
IsTruthful (confirmed r) = r.successful ≡ true
IsTruthful (reverted r reason) = r.successful ≡ false
IsTruthful (failed e) = Unit

-- The account of one call.
pub record IsAccounted (p : TxPolicy) (env : Env) (r : Run) : Type 0 where
  pub bounded : length r.sent ≤ pos_part p.max_attempts + cancellations r.sent
  pub cancelled : cancellations r.sent ≡ (if gives_up r.outcome && env.cancel_signs then 1 else 0)
  pub truthful : IsTruthful r.outcome

abbrev Counted : ℕ → LoopState → Type 0
Counted k s = (length s.sent ≡ k) × (cancellations s.sent ≡ 0)

IsHonest-gives_up : (o : Outcome) → IsHonest o → (gives_up o ≡ false) × IsTruthful o
unfolding gives_up
IsHonest-gives_up (confirmed r) h = (refl, h)
IsHonest-gives_up (reverted r m) h = (refl, h)
IsHonest-gives_up (failed e) h = (h, tt)

module _ (p : TxPolicy) (env : Env) (nonce gas : ℕ) where
  give_up-IsAccounted :
      (k : ℕ) (s : LoopState) (e : TxError)
      → k ≤ pos_part p.max_attempts
      → Counted k s
      → gives_up (failed e) ≡ true
      → IsAccounted p env (cancel_with p env nonce gas s e)
  unfolding cancel_with cancellations
  give_up-IsAccounted k s e m c h = elim (Bool-cases env.cancel_signs) [
    | inl signs ↦ record {
      bounded = rw signs (omega (arith, c));
      cancelled = rw (h, signs) (omega (arith, c));
      truthful = tt;
    }
    | inr not ↦ record {
      bounded = rw not (omega (arith, c));
      cancelled = rw (h, not) (omega (arith, c));
      truthful = tt;
    }
  ]

  finish-IsAccounted :
      (k : ℕ) (s : LoopState) (o : Outcome)
      → k ≤ pos_part p.max_attempts
      → Counted k s
      → IsHonest o
      → IsAccounted p env (record { sent = s.sent; outcome = o })
  finish-IsAccounted k s o m c h =
      let (g, t) = IsHonest-gives_up o h in
      record { bounded = omega (arith, c); cancelled = rw g (omega (arith, c)); truthful = t }

  account-Rule : Rule p env nonce gas Counted (IsAccounted p env) (pos_part p.max_attempts)
  unfolding cancellations
  account-Rule = record {
    finish = finish-IsAccounted;
    give_up = give_up-IsAccounted;
    bump = λ k a s f v e. v;
    leave = λ k s v. v;
    publish = λ k s l v. v;
    send = λ k n s v. (omega (arith, v), v.1);
  }

-- One call of SendTransaction sends at most MaxAttempts transactions and one cancellation more; it
-- sends a cancellation, exactly one, when it gives up (maximum gas price, or attempts exhausted) and
-- can sign it, and otherwise none; and it reports success only for a receipt that says success, and
-- a revert only for one that does not.
pub send_transaction-IsAccounted :
    (p : TxPolicy) (env : Env) (opts : Opts) → IsAccounted p env (send_transaction p env opts)
unfolding cancellations
send_transaction-IsAccounted p env opts =
    send_transaction_rule p env opts (IsAccounted p env)
      (λ e h. record { bounded = omega arith; cancelled = rw h refl; truthful = tt })
      λ gas nonce fees m s.
        attempts_rule p env nonce gas Counted (IsAccounted p env) (pos_part p.max_attempts)
          (account-Rule p env nonce gas) 0 (pos_part p.max_attempts) 1 (start_state opts fees)
          (omega arith) (refl, refl)
