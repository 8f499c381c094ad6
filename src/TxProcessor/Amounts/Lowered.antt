-- ===== src/TxProcessor/Amounts/Lowered.antt =====
-- What computeEffectiveAmounts (v2/txprocessor/txprocessor.go) may change.
use hermez_node.Prelude.{
  ◌≡◌, refl, ◌⊎◌, inl, inr, Bool, true, false, not, ◌==◌, if◌then◌else◌, arith,
}
use hermez_node.Prelude.Int.{pos}
use hermez_node.Prelude.Result.{Result, ok, err}
use hermez_node.Common.Account.{Account}
use hermez_node.Common.L1Tx.{L1Tx}
use hermez_node.StateDb.{StateDb, get_account}
use hermez_node.TxProcessor.Amounts.{
  compute_effective_amounts, sender_amounts, receiver_amounts, create_transfer_amounts,
  full_amounts, zero_amount, zero_amounts,
}

-- A transaction as another one up to its effective amounts, each of which is the other's or 0.
pub record Lowered (tx e : L1Tx) : Type 0 where
  pub amount : (e.effective_amount ≡ tx.effective_amount) ⊎ (e.effective_amount ≡ pos 0)
  pub deposit :
      (e.effective_deposit_amount ≡ tx.effective_deposit_amount)
      ⊎ (e.effective_deposit_amount ≡ pos 0)
  pub rest : e ≡ record tx {
    effective_amount = e.effective_amount;
    effective_deposit_amount = e.effective_deposit_amount;
  }

unchanged : (tx : L1Tx) → Lowered tx tx
unchanged tx = record { amount = inl refl; deposit = inl refl; rest = refl }

no_amount : (tx : L1Tx) → Lowered tx (zero_amount tx)
no_amount tx = record { amount = inr refl; deposit = inl refl; rest = refl }

no_amounts : (tx : L1Tx) → Lowered tx (zero_amounts tx)
no_amounts tx = record { amount = inr refl; deposit = inr refl; rest = refl }

-- A test between two lowered transactions.
Lowered-if :
    (b : Bool) (tx x y : L1Tx) → Lowered tx x → Lowered tx y → Lowered tx (if b then x else y)
Lowered-if true tx x y p q = p
Lowered-if false tx x y p q = q

Lowered-elim :
    (r : Result Account) (tx x : L1Tx) (f : Account → L1Tx)
    → Lowered tx x
    → ((a : Account) → Lowered tx (f a))
    → Lowered tx (elim r [ err _ ↦ x | ok a ↦ f a ])
Lowered-elim (ok a) tx x f p q = q a
Lowered-elim (err e) tx x f p q = p

create_transfer_amounts-Lowered :
    (db : StateDb) (tx : L1Tx) → Lowered tx (create_transfer_amounts db tx)
unfolding create_transfer_amounts
create_transfer_amounts-Lowered db tx = Lowered-if _ tx _ _ (no_amount tx) (
    Lowered-elim (get_account tx.to_idx db) tx _ _ (no_amounts tx)
      (λ a. Lowered-if _ tx _ _ (no_amount tx) (unchanged tx)))

Lowered-trans : (tx x y : L1Tx) → Lowered tx x → Lowered x y → Lowered tx y
Lowered-trans tx x y p q = record {
  amount = ground (arith, p.amount, q.amount);
  deposit = ground (arith, p.deposit, q.deposit);
  rest = rw (q.rest, p.rest) refl;
}

receiver_amounts-Lowered :
    (db : StateDb) (sender : Account) (tx : L1Tx) → Lowered tx (receiver_amounts db sender tx)
unfolding receiver_amounts
receiver_amounts-Lowered db sender tx = Lowered-if _ tx _ _ (unchanged tx) (
    Lowered-elim (get_account tx.to_idx db) tx _ _ (no_amounts tx)
      (λ a. Lowered-if _ tx _ _ (no_amount tx) (Lowered-if _ tx _ _ (no_amount tx) (unchanged tx))))

sender_amounts-Lowered : (db : StateDb) (tx : L1Tx) → Lowered tx (sender_amounts db tx)
unfolding sender_amounts
sender_amounts-Lowered db tx =
    Lowered-elim (get_account tx.from_idx db) tx _ _ (no_amounts tx) (λ sender.
      Lowered-if _ tx _ _ (no_amounts tx) (Lowered-if _ tx _ _ (no_amount tx) (addressed sender)))
  where
    addressed :
        (sender : Account)
        → Lowered tx (
            receiver_amounts db sender
              (if not (tx.from_eth_addr == sender.eth_addr) then zero_amount tx else tx))
    addressed sender =
        Lowered-trans tx _ _ (Lowered-if _ tx _ _ (no_amount tx) (unchanged tx))
          (receiver_amounts-Lowered db sender _)

-- Whatever the state, computeEffectiveAmounts leaves every field of the transaction but the two
-- effective amounts as it was, and makes each of these the amount that the transaction asks for or 0.
pub compute_effective_amounts-Lowered :
    (db : StateDb) (tx : L1Tx) → Lowered (full_amounts tx) (compute_effective_amounts db tx)
unfolding compute_effective_amounts
compute_effective_amounts-Lowered db tx =
    Lowered-if _ (full_amounts tx) _ _ (no_amounts (full_amounts tx)) (
      Lowered-if _ (full_amounts tx) _ _ (unchanged (full_amounts tx)) (
        Lowered-if _ (full_amounts tx) _ _ (create_transfer_amounts-Lowered db (full_amounts tx))
          (sender_amounts-Lowered db (full_amounts tx))))
