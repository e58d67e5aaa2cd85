-- ===== src/Tx/Send/Rule.antt =====
-- The induction rule of the loop of SendTransaction. `P k` is an invariant of the loop's variables
-- after `k` sends, and `Q` holds of what the loop returns.
use ssv_oracle.Prelude.{
  ℕ, zero, suc, ◌+◌, ◌≤◌, ◌≡◌, refl, ◌==◌, Bool, true, false, Option, none, some, ◌∷◌, List,
  if◌then◌else◌, pos_part, arith,
}
use ssv_oracle.Tx.Policy.{TxPolicy}
use ssv_oracle.Tx.Fees.{
  Fees, Suggestion, suggested, rpc_failed, base_fee_exceeds_max, suggest_gas_fees,
  bump_or_resuggest,
}
use ssv_oracle.Tx.Errors.{
  SendClass, sent, already_known, nonce_too_low, insufficient_funds, underpriced, other,
}
use ssv_oracle.Tx.Receipt.{
  Receipt, Wait, mined, timed_out, block_number_failed, cancelled, wait_for_receipt,
}
use ssv_oracle.Tx.Send.{
  Tx, TxError, Attempt, Env, LoopState, Run, Next, stop, go, Outcome, confirmed, reverted, failed,
  max_gas_reached, max_attempts_exhausted, context_done, nonce_low, no_funds, send_failed,
  sign_failed, stop_with, cancel_with, after_bump, bump_round, retry_round, after_wait,
  after_nonce_too_low, await_round, send_round, round, attempts, handle_receipt, find_mined, Opts,
  route_of, start_state, fail, gas_failure, fees_failed, base_fee_over_max, nonce_failed,
  with_nonce, with_fees, with_gas, estimate_gas, send_transaction,
}

-- Whether the manager gave up on a transaction and so tried to cancel it.
unfoldable pub gives_up : Outcome → Bool
gives_up (failed max_gas_reached) = true
gives_up (failed max_attempts_exhausted) = true
gives_up _ = false

-- A receipt is reported by its own status, and giving up is no other error.
abbrev pub IsHonest : Outcome → Type 0
IsHonest (confirmed r) = r.successful ≡ true
IsHonest (reverted r reason) = r.successful ≡ false
IsHonest (failed e) = gives_up (failed e) ≡ false

handle_receipt-IsHonest :
    (env : Env) (a : Attempt) (r : Receipt) → IsHonest (handle_receipt env.decoder a r)
unfolding handle_receipt
handle_receipt-IsHonest env a r = ground arith

-- What the rule asks for.
pub record Rule (p : TxPolicy) (env : Env) (nonce gas : ℕ) (P : ℕ → LoopState → Type 0)
    (Q : Run → Type 0) (limit : ℕ) : Type 0 where
  pub finish :
      (k : ℕ) (s : LoopState) (o : Outcome)
      → k ≤ limit
      → P k s
      → IsHonest o
      → Q (record { sent = s.sent; outcome = o })
  pub give_up :
      (k : ℕ) (s : LoopState) (e : TxError)
      → k ≤ limit
      → P k s
      → gives_up (failed e) ≡ true
      → Q (cancel_with p env nonce gas s e)
  pub bump :
      (k : ℕ) (a : Attempt) (s : LoopState) (f : Fees)
      → P k s
      → bump_or_resuggest p a.fee_view s.fees ≡ some f
      → P k (record s { fees = f })
  pub leave : (k : ℕ) (s : LoopState) → P k s → P k (record s { mev = false })
  pub publish : (k : ℕ) (s : LoopState) (l : List Tx) → P k s → P k (record s { published = l })
  pub send :
      (k n : ℕ) (s : LoopState)
      → P k s
      → P (suc k) (record s {
        sent =
            record {
              nonce = nonce;
              gas = gas;
              fees = s.fees;
              route = route_of s.mev (env.attempt n).mev_replies;
              cancels = false;
            }
            ∷ s.sent;
      })

module _ (p : TxPolicy) (env : Env) (nonce gas : ℕ) (P : ℕ → LoopState → Type 0) (Q : Run → Type 0)
    (limit : ℕ) (rule : Rule p env nonce gas P Q limit) where
  -- After `k` sends.
  abbrev Good : ℕ → Next → Type 0
  Good k (stop r) = Q r
  Good k (go s) = P k s

  after_bump-Good :
      (k : ℕ) (a : Attempt) (s : LoopState) (o : Option Fees)
      → k ≤ limit
      → P k s
      → bump_or_resuggest p a.fee_view s.fees ≡ o
      → Good k (after_bump p env nonce gas s o)
  unfolding after_bump
  after_bump-Good k a s none m v e = rule.give_up k s max_gas_reached m v (unfold gives_up in refl)
  after_bump-Good k a s (some f) m v e = rule.bump k a s f v e

  bump_round-Good :
      (k : ℕ) (a : Attempt) (s : LoopState)
      → k ≤ limit
      → P k s
      → Good k (bump_round p env nonce gas a s)
  unfolding bump_round
  bump_round-Good k a s m v = after_bump-Good k a s (bump_or_resuggest p a.fee_view s.fees) m v refl

  stop_with-Good :
      (k : ℕ) (s : LoopState) (o : Outcome)
      → k ≤ limit
      → P k s
      → IsHonest o
      → Good k (stop_with p env nonce gas s o)
  unfolding stop_with
  stop_with-Good = rule.finish

  Good-if : (k : ℕ) (b : Bool) (m n : Next) → Good k m → Good k n → Good k (if b then m else n)
  Good-if k true m n x y = x
  Good-if k false m n x y = y

  stop_failed-Good :
      (k : ℕ) (s : LoopState) (e : TxError)
      → k ≤ limit
      → P k s
      → gives_up (failed e) ≡ false
      → Good k (stop_with p env nonce gas s (failed e))
  stop_failed-Good k s e = stop_with-Good k s (failed e)

  retry_round-Good :
      (k : ℕ) (a : Attempt) (last : Bool) (s : LoopState)
      → k ≤ limit
      → P k s
      → Good k (retry_round p env nonce gas a last s)
  unfolding retry_round gives_up
  retry_round-Good k a last s m v =
      Good-if k a.context_done_in_wait _ _ (stop_failed-Good k s context_done m v refl) (
        Good-if k last (go s) _ v
          (bump_round-Good k a (record s { mev = false }) m (rule.leave k s v)))

  after_wait-Good :
      (k : ℕ) (a : Attempt) (last : Bool) (s : LoopState) (w : Wait)
      → k ≤ limit
      → P k s
      → Good k (after_wait p env nonce gas a last s w)
  unfolding after_wait gives_up
  after_wait-Good k a last s (mined r) m v =
      stop_with-Good k s (handle_receipt env.decoder a r) m v (handle_receipt-IsHonest env a r)
  after_wait-Good k a last s cancelled m v = stop_failed-Good k s context_done m v refl
  after_wait-Good k a last s timed_out m v = retry_round-Good k a last s m v
  after_wait-Good k a last s block_number_failed m v = retry_round-Good k a last s m v

  after_nonce_too_low-Good :
      (k : ℕ) (a : Attempt) (s : LoopState) (o : Option Receipt)
      → k ≤ limit
      → P k s
      → Good k (after_nonce_too_low p env nonce gas a s o)
  unfolding after_nonce_too_low gives_up
  after_nonce_too_low-Good k a s none m v = stop_failed-Good k s nonce_low m v refl
  after_nonce_too_low-Good k a s (some r) m v =
      stop_with-Good k s (handle_receipt env.decoder a r) m v (handle_receipt-IsHonest env a r)

  publish-Good :
      (k : ℕ) (a : Attempt) (last : Bool) (s : LoopState) (l : List Tx)
      → k ≤ limit
      → P k s
      → Good k (await_round p env nonce gas a last (record s { published = l }))
  unfolding await_round
  publish-Good k a last s l m v =
      after_wait-Good k a last (record s { published = l })
        (wait_for_receipt p a.start_block a.polls) m (rule.publish k s l v)

  send_round-Good :
      (k : ℕ) (a : Attempt) (last : Bool) (s : LoopState) (t : Tx) (c : SendClass)
      → k ≤ limit
      → P k s
      → Good k (send_round p env nonce gas a last s t c)
  unfolding send_round gives_up
  send_round-Good k a last s t sent m v = publish-Good k a last s _ m v
  send_round-Good k a last s t already_known m v = publish-Good k a last s _ m v
  send_round-Good k a last s t nonce_too_low m v =
      after_nonce_too_low-Good k a s (find_mined a s.published) m v
  send_round-Good k a last s t insufficient_funds m v = stop_failed-Good k s no_funds m v refl
  send_round-Good k a last s t underpriced m v = bump_round-Good k a s m v
  send_round-Good k a last s t other m v =
      Good-if k last _ _ (stop_failed-Good k s send_failed m v refl)
        (Good-if k a.context_done_in_delay _ (go s) (stop_failed-Good k s context_done m v refl) v)

  -- A round sends once, or ends the loop before it sends.
  abbrev GoodAfter : ℕ → Next → Type 0
  GoodAfter k (stop r) = Q r
  GoodAfter k (go s) = P (suc k) s

  GoodAfter-if :
      (k : ℕ) (b : Bool) (m n : Next)
      → GoodAfter k m
      → GoodAfter k n
      → GoodAfter k (if b then m else n)
  GoodAfter-if k true m n x y = x
  GoodAfter-if k false m n x y = y

  Good-GoodAfter : (k : ℕ) (n : Next) → Good (suc k) n → GoodAfter k n
  Good-GoodAfter k (stop r) g = g
  Good-GoodAfter k (go s) g = g

  round-Good :
      (k n : ℕ) (last : Bool) (s : LoopState)
      → suc k ≤ limit
      → P k s
      → GoodAfter k (round p env nonce gas (env.attempt n) last s)
  unfolding round gives_up
  round-Good k n last s m v =
      let a = env.attempt n in
      GoodAfter-if k a.signs _ _
        (Good-GoodAfter k _ (send_round-Good (suc k) a last _ _ _ m (rule.send k n s v)))
        (rule.finish k s (failed sign_failed) (omega arith) v refl)

  attempts_continue :
      (k left n : ℕ) (x : Next)
      → ((s : LoopState) → P (suc k) s → Q (attempts p env nonce gas left (n + 1) s))
      → GoodAfter k x
      → Q (elim x [ stop r ↦ r | go s ↦ attempts p env nonce gas left (n + 1) s ])
  attempts_continue k left n (stop r) rec g = g
  attempts_continue k left n (go s) rec g = rec s g

  -- With as many attempts left as the limit allows, the loop ends in `Q`.
  pub attempts_rule :
      (k left n : ℕ) (s : LoopState)
      → k + left ≡ limit
      → P k s
      → Q (attempts p env nonce gas left n s)
  unfolding attempts gives_up
  attempts_rule k zero n s e v = rule.give_up k s max_attempts_exhausted (omega arith) v refl
  attempts_rule k (suc left) n s e v =
      attempts_continue k left n (round p env nonce gas (env.attempt n) (left == 0) s)
        (λ s' w. attempts_rule (suc k) left (n + 1) s' (omega arith) w)
        (round-Good k n (left == 0) s (omega arith) v)

-- SendTransaction fails before its loop with nothing sent, or returns what the loop returns for the
-- nonce of the node, the suggested fees and a gas limit.
module _ (p : TxPolicy) (env : Env) (opts : Opts) (Q : Run → Type 0)
    (on_failure : (e : TxError) → gives_up (failed e) ≡ false → Q (fail e))
    (on_loop : (gas nonce : ℕ) (fees : Fees)
      → env.nonce ≡ some nonce
      → suggest_gas_fees p env.fee_view ≡ suggested fees
      → Q (attempts p env nonce gas (pos_part p.max_attempts) 1 (start_state opts fees))) where
  with_nonce_rule :
      (gas : ℕ) (fees : Fees) (o : Option ℕ)
      → suggest_gas_fees p env.fee_view ≡ suggested fees
      → env.nonce ≡ o
      → Q (with_nonce p env opts gas fees o)
  unfolding with_nonce gives_up
  with_nonce_rule gas fees none s e = on_failure nonce_failed refl
  with_nonce_rule gas fees (some nonce) s e = on_loop gas nonce fees e s

  with_fees_rule :
      (gas : ℕ) (x : Suggestion)
      → suggest_gas_fees p env.fee_view ≡ x
      → Q (with_fees p env opts gas x)
  unfolding with_fees gives_up
  with_fees_rule gas rpc_failed s = on_failure fees_failed refl
  with_fees_rule gas base_fee_exceeds_max s = on_failure base_fee_over_max refl
  with_fees_rule gas (suggested fees) s = with_nonce_rule gas fees env.nonce s refl

  gas_failure-gives_up : gives_up (failed (gas_failure env)) ≡ false
  unfolding gives_up
  gas_failure-gives_up = ground arith

  with_gas_rule : (o : Option ℕ) → Q (with_gas p env opts o)
  unfolding with_gas
  with_gas_rule none = on_failure (gas_failure env) gas_failure-gives_up
  with_gas_rule (some gas) = with_fees_rule gas (suggest_gas_fees p env.fee_view) refl

  pub send_transaction_rule : Q (send_transaction p env opts)
  unfolding send_transaction
  send_transaction_rule = with_gas_rule (estimate_gas p env opts)
