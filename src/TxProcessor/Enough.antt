-- ===== src/TxProcessor/Enough.antt =====
-- v2/txprocessor/txprocessor.go: CheckEnoughBalance, which the tx selector asks before it selects an L2
-- transaction.
use hermez_node.Prelude.{
  ℕ, ◌+◌, ◌%◌, ◌^◌, ◌≡◌, refl, ap, ◌∙◌, ◌⊎◌, inl, inr, Bool, true, false, not, Bool-cases, Option,
  none, some, if◌then◌else◌,
}
use hermez_node.Prelude.Int.{ℤ, pos, ◌+ℤ◌, ◌-ℤ◌, ltb_ℤ, int_laws}
use hermez_node.Prelude.Dict.{Dict}
use hermez_node.Prelude.Result.{Error, ok, err, not_enough_balance, Result-cases}
use hermez_node.Common.Account.{Account}
use hermez_node.Common.Fee.{calc_fee_amount}
use hermez_node.Common.PoolL2Tx
use hermez_node.Common.PoolL2Tx.{PoolL2Tx}
use hermez_node.StateDb.{get_account}
use hermez_node.TxProcessor.State.{State}
use hermez_node.TxProcessor.Monad.{◌>>◌, pure}
use hermez_node.TxProcessor.Apply.{sub_balance, debit, pay_fee}

-- `CheckEnoughBalance`; the two numbers beside are nil where there is no account or no fee.
unfoldable pub check_enough_balance : PoolL2Tx → State → Bool × Option ℤ × Option ℤ
check_enough_balance tx s = elim (get_account tx.from_idx s.db) [
  | err _ ↦ (false, none, none)
  | ok acc ↦ elim (calc_fee_amount tx.amount tx.fee) [
    | err _ ↦ (false, none, none)
    | ok fee ↦
        let fee_and_amount = tx.amount +ℤ fee in
        (not (ltb_ℤ acc.balance fee_and_amount), some acc.balance, some fee_and_amount)
  ]
]

-- The sender after the debit.
abbrev pub debited : PoolL2Tx → ℤ → Account → Account
debited tx fee acc =
    sub_balance (tx.amount +ℤ fee) (record acc { nonce = (acc.nonce + 1) % 2 ^ 64 })

ltb_ℤ-sub : (a b : ℤ) → ltb_ℤ (a -ℤ b) (pos 0) ≡ ltb_ℤ a b
ltb_ℤ-sub a b = grind int_laws

check_enough_balance_lem :
    (tx : PoolL2Tx) (acc : Account) (fee : ℤ) (s : State)
    → get_account tx.from_idx s.db ≡ ok acc
    → calc_fee_amount tx.amount tx.fee ≡ ok fee
    → (check_enough_balance tx s).0 ≡ not (ltb_ℤ acc.balance (tx.amount +ℤ fee))
unfolding check_enough_balance
check_enough_balance_lem tx acc fee s e f = rw (check_enough_balance, e, f) refl

debit_lem :
    (c : Dict ℕ) (tx : PoolL2Tx) (acc : Account) (fee : ℤ) (s : State)
    → calc_fee_amount tx.amount tx.fee ≡ ok fee
    → debit c (PoolL2Tx.generic_tx tx) acc s ≡ (
        if ltb_ℤ acc.balance (tx.amount +ℤ fee)
        then (err not_enough_balance, s)
        else (pay_fee c acc.token_id fee >> pure (debited tx fee acc)) s)
unfolding debit
debit_lem c tx acc fee s f = elim (Bool-cases (ltb_ℤ acc.balance (tx.amount +ℤ fee))) [
  | inl short ↦
      let test = ltb_ℤ-sub acc.balance (tx.amount +ℤ fee) ∙ short in rw (f, test, short) refl
  | inr enough ↦
      let test = ltb_ℤ-sub acc.balance (tx.amount +ℤ fee) ∙ enough in rw (f, test, enough) refl
]

-- CheckEnoughBalance foretells the debit of the sender's account in applyTransfer and applyExit: where it
-- says yes, there is a fee, and the debit comes to paying that fee and taking amount and fee; where it
-- says no, the debit fails and changes nothing.
pub check_enough_balance-debit :
    (c : Dict ℕ) (tx : PoolL2Tx) (acc : Account) (s : State)
    → get_account tx.from_idx s.db ≡ ok acc
    → (((check_enough_balance tx s).0 ≡ true)
        × ((fee : ℤ) × (calc_fee_amount tx.amount tx.fee ≡ ok fee)
            × (debit c (PoolL2Tx.generic_tx tx) acc s
                ≡ (pay_fee c acc.token_id fee >> pure (debited tx fee acc)) s)))
      ⊎ (((check_enough_balance tx s).0 ≡ false)
          × ((e : Error) × (debit c (PoolL2Tx.generic_tx tx) acc s ≡ (err e, s))))
unfolding check_enough_balance debit
check_enough_balance-debit c tx acc s e = elim (Result-cases (calc_fee_amount tx.amount tx.fee)) [
  | inl (fee, f) ↦ elim (Bool-cases (ltb_ℤ acc.balance (tx.amount +ℤ fee))) [
    | inl short ↦ inr (
      check_enough_balance_lem tx acc fee s e f ∙ ap not short,
      (not_enough_balance, debit_lem c tx acc fee s f ∙ rw short refl),
    )
    | inr enough ↦ inl (
      check_enough_balance_lem tx acc fee s e f ∙ ap not enough,
      (fee, f, debit_lem c tx acc fee s f ∙ rw enough refl),
    )
  ]
  | inr (x, f) ↦ inr (rw (check_enough_balance, e, f) refl, (x, rw (debit, f) refl))
]
