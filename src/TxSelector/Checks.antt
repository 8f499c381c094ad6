-- ===== src/TxSelector/Checks.antt =====
-- What is known of a transaction that `processL2Txs` (v2/txselector/txselector.go) selects.
use hermez_node.Prelude.{
  ◌≡◌, ◌≤◌, refl, Bool, true, false, not, inl, inr, ◌⊎◌, none, some, Option, ltb, ltb→le, ◌&&◌,
  arith, ==_iff, ◌==◌,
}
use mathlib.Core.Path.{subst}
use hermez_node.Prelude.Int.{ℤ, pos, ◌+ℤ◌, ◌≤ℤ◌, ltb_ℤ, ltb_ℤ_false}
use hermez_node.Prelude.Result.{Result, ok, err}
use hermez_node.Common.Account.{Account}
use hermez_node.Common.Fee.{calc_fee_amount}
use hermez_node.Common.PoolL2Tx.{PoolL2Tx}
use hermez_node.Common.Tx.{exit, same_type}
use hermez_node.StateDb.{get_account}
use hermez_node.TxProcessor.State.{State}
use hermez_node.TxProcessor.Enough.{check_enough_balance}
use hermez_node.TxSelector.{
  PoolTx, Env, sender_not_enough_balance, no_current_nonce, unsupported_max_num_batch, exit_amount,
}
use hermez_node.TxSelector.Loop.{
  Loop, Step, required, gets, pure, stop_if, go, stop, put_aside, discard, Check, ◌>>=◌, ◌>>◌,
  check_tx, check_sender, ensure_coord_account, ensure_receiver, run_l2, select_tx, is_too_late,
  is_empty_exit, with_token, next_batch_num,
}
use hermez_node.TxSelector.Frames.{SameTx, Framed, select_tx-Framed}

-- The two parts of a sequence that goes on.
bind_go :
    {A B : Type 0} (m : Check A) (f : A → Check B) (l l' : Loop) (b : B)
    → (m >>= f) l ≡ go b l'
    → (a : A) × (k : Loop) × (m l ≡ go a k) × (f a k ≡ go b l')
bind_go {A} m f l l' b h = by_step (m l) h
  where
    by_step :
        (s : Step A)
        → (elim s [ go a k ↦ f a k | stop x k ↦ stop x k ]) ≡ go b l'
        → (a : A) × (k : Loop) × (s ≡ go a k) × (f a k ≡ go b l')
    by_step (go a k) e = (a, k, refl, e)
    by_step (stop x k) e = absurd (ground arith)

-- The sender pays: it is there, its nonce is the transaction's, and it has the amount and the fee.
pub record CanPay (t : PoolTx) (s : State) : Type 0 where
  pub sender : Account
  pub fee : ℤ
  pub found : get_account t.l2.from_idx s.db ≡ ok sender
  pub current_nonce : t.l2.nonce ≡ sender.nonce
  pub has_fee : calc_fee_amount t.l2.amount t.l2.fee ≡ ok fee
  pub enough : t.l2.amount +ℤ fee ≤ℤ sender.balance

-- the answer of CheckEnoughBalance, given the account and the fee
abbrev answer_of : PoolL2Tx → Account → Result ℤ → Bool × Option ℤ × Option ℤ
answer_of tx a r = elim r [
  | err _ ↦ (false, none, none)
  | ok fee ↦ (not (ltb_ℤ a.balance (tx.amount +ℤ fee)), some a.balance, some (tx.amount +ℤ fee))
]

-- CheckEnoughBalance says yes only where there is a fee, and enough for it and the amount.
enough_of :
    (tx : PoolL2Tx) (a : Account) (s : State)
    → get_account tx.from_idx s.db ≡ ok a
    → (check_enough_balance tx s).0 ≡ true
    → (fee : ℤ) × (calc_fee_amount tx.amount tx.fee ≡ ok fee) × (tx.amount +ℤ fee ≤ℤ a.balance)
unfolding check_enough_balance
enough_of tx a s found e =
    by_fee (calc_fee_amount tx.amount tx.fee) refl (rw (found, check_enough_balance) at e)
  where
    by_fee :
        (r : Result ℤ)
        → calc_fee_amount tx.amount tx.fee ≡ r
        → (answer_of tx a r).0 ≡ true
        → (fee : ℤ) × (calc_fee_amount tx.amount tx.fee ≡ ok fee) × (tx.amount +ℤ fee ≤ℤ a.balance)
    by_fee (err w) q h = absurd (ground arith)
    by_fee (ok fee) q h = (fee, q, ltb_ℤ_false a.balance (tx.amount +ℤ fee) (ground arith))

-- The tests of `check_sender` on an account that is there.
tested :
    (t t' : PoolTx) (l l' : Loop) (a : Account) (b c : Bool)
    → (balance total : Option ℤ)
    → ((stop_if
            (not b)
            (put_aside (sender_not_enough_balance balance total) (with_token a.token_id t))
          >> (stop_if
                (not c)
                (put_aside (no_current_nonce t.l2.nonce a.nonce) (with_token a.token_id t))
              >> pure (with_token a.token_id t)))
        l)
      ≡ go t' l'
    → (b ≡ true) × (c ≡ true)
tested t t' l l' a true true balance total e = (refl, refl)
tested t t' l l' a true false balance total e = absurd (ground arith)
tested t t' l l' a false c balance total e = absurd (ground arith)

check_sender_go : (t t' : PoolTx) (l l' : Loop) → check_sender t l ≡ go t' l' → CanPay t l.tp
unfolding check_sender
check_sender_go t t' l l' e = by_sender (get_account t.l2.from_idx l.tp.db) refl e
  where
    by_sender :
        (r : Result Account)
        → get_account t.l2.from_idx l.tp.db ≡ r
        → ((required (λ _. r) >>= λ a.
              gets (λ (k : Loop). check_enough_balance (with_token a.token_id t).l2 k.tp) >>= λ p.
              stop_if
                (not p.0)
                (put_aside (sender_not_enough_balance p.1 p.2) (with_token a.token_id t))
              >> (stop_if
                    (not (t.l2.nonce == a.nonce))
                    (put_aside (no_current_nonce t.l2.nonce a.nonce) (with_token a.token_id t))
                  >> pure (with_token a.token_id t)))
            l)
          ≡ go t' l'
        → CanPay t l.tp
    by_sender (err w) q h = absurd (ground arith)
    by_sender (ok a) q h =
        let p = check_enough_balance (with_token a.token_id t).l2 l.tp in
        let (rich, next) = tested t t' l l' a p.0 (t.l2.nonce == a.nonce) p.1 p.2 h in
        let (fee, has_fee, enough) = enough_of (with_token a.token_id t).l2 a l.tp q rich in
        record {
          sender = a;
          fee = fee;
          found = q;
          current_nonce = (==_iff t.l2.nonce a.nonce).0 next;
          has_fee = has_fee;
          enough = enough;
        }

check_tx_go :
    (t : PoolTx) (l k : Loop) {u : Unit {0}}
    → check_tx t l ≡ go u k
    → (is_too_late t l.tp ≡ false) × (is_empty_exit t ≡ false) × (k ≡ l)
unfolding check_tx
check_tx_go t l k e = by_tests (is_too_late t l.tp) (is_empty_exit t) e
  where
    by_tests :
        (b c : Bool)
        → ((stop_if b (discard unsupported_max_num_batch t) >> stop_if c (discard exit_amount t)) l)
          ≡ go tt k
        → (b ≡ false) × (c ≡ false) × (k ≡ l)
    by_tests true c h = absurd (ground arith)
    by_tests false true h = absurd (ground arith)
    by_tests false false h = (refl, refl, ground arith)

-- A transaction that a round selects can be paid for by its sender in the state that the round
-- starts with: the sender's account is there, its nonce is that of the transaction, and its balance
-- covers the amount and the fee. Its maximal batch number, if it has one, is not passed by the next
-- batch, and it is no exit of nothing; and the selected transaction is the given one, by identifier
-- and group.
pub select_tx-CanPay :
    (env : Env) (t t' : PoolTx) (l l' : Loop)
    → select_tx env t l ≡ go t' l'
    → CanPay t l.tp
      × ((t.l2.max_num_batch ≡ 0) ⊎ (next_batch_num l.tp ≤ t.l2.max_num_batch))
      × ((same_type t.l2.tx_type exit ≡ false) ⊎ (ltb_ℤ (pos 0) t.l2.amount ≡ true))
      × SameTx t t'
unfolding select_tx
select_tx-CanPay env t t' l l' e =
    let (a, k, checked, next) =
      bind_go (check_tx t)
        (λ _. check_sender t >>= λ u.
          ensure_coord_account env u >> (ensure_receiver env u >> run_l2 env u))
        l l' t' e in
    let (in_time, some_exit, same) = check_tx_go t l k checked in
    let (u, m, paid, rest) =
      bind_go (check_sender t)
        (λ u. ensure_coord_account env u >> (ensure_receiver env u >> run_l2 env u)) k l' t' next in
    (
      subst (λ (z : Loop). CanPay t z.tp) same (check_sender_go t u k m paid),
      by_batch (t.l2.max_num_batch == 0) refl in_time,
      by_exit (same_type t.l2.tx_type exit) refl some_exit,
      by_frame (select_tx env t l) (select_tx-Framed env t l) e,
    )
  where
    by_batch :
        (b : Bool)
        → (t.l2.max_num_batch == 0) ≡ b
        → (not b && ltb t.l2.max_num_batch (next_batch_num l.tp)) ≡ false
        → (t.l2.max_num_batch ≡ 0) ⊎ (next_batch_num l.tp ≤ t.l2.max_num_batch)
    by_batch true q h = inl ((==_iff t.l2.max_num_batch 0).0 q)
    by_batch false q h = inr (ltb→le t.l2.max_num_batch (next_batch_num l.tp) h)

    by_exit :
        (b : Bool)
        → same_type t.l2.tx_type exit ≡ b
        → (b && not (ltb_ℤ (pos 0) t.l2.amount)) ≡ false
        → (same_type t.l2.tx_type exit ≡ false) ⊎ (ltb_ℤ (pos 0) t.l2.amount ≡ true)
    by_exit false q h = inl q
    by_exit true q h = inr (ground arith)

    by_frame : (m : Step PoolTx) → Framed t l (SameTx t) m → m ≡ go t' l' → SameTx t t'
    by_frame (go u k) f q = ground (arith, f.0)
    by_frame (stop x k) f q = absurd (ground arith)
