-- ===== src/TxProcessor/Steps.antt =====
-- What a successful step of a method of the TxProcessor has done to the state.
use hermez_node.Prelude.{
  ℕ, ◌+◌, ◌%◌, ◌^◌, ◌≡◌, refl, true, false, none, some, arith, Option-cases, inl, inr, ◌⊎◌,
}
use hermez_node.Prelude.Int.{ℤ, pos, ◌+ℤ◌, ◌≤ℤ◌}
use hermez_node.Prelude.Dict.{Dict, lookup, insert}
use hermez_node.Prelude.Result.{Result, Error, ok, err, Result-cases}
use hermez_node.Common.Account.{Account}
use hermez_node.Common.Tx.{Tx}
use hermez_node.Common.Fee.{calc_fee_amount}
use hermez_node.StateDb.{stored_at, get_account, update_account, create_account, get_in_tree}
use hermez_node.StateDb.Writes.{update_account_ok, set_idx_keeps, create_account_ok}
use hermez_node.TxProcessor.State.{State}
pub use hermez_node.Prelude.Action.{bind_ok, bind_from, bind_err}
use hermez_node.TxProcessor.Apply.{get, update, create, sub_balance, debit, pay_fee}

-- A successful read of an account.
pub get_ok :
    (i : ℕ) (s : State) (a : Account) (s' : State)
    → get i s ≡ (ok a, s')
    → (s' ≡ s)
      × (found : Account) × (lookup i s.db.accounts ≡ some found)
      × (a ≡ record found { idx = i })
unfolding get_account get_in_tree
get_ok i s a s' h = elim (Option-cases (lookup i s.db.accounts)) [
  | inl missing ↦ ground arith
  | inr (found, e) ↦ (ground arith, found, e, ground arith)
]

-- A successful write of an account changes its entry in the tree, and the map of updated accounts.
pub record Written (i : ℕ) (a : Account) (s s' : State) : Type 0 where
  pub accounts : s'.db.accounts ≡ insert i (stored_at i a) s.db.accounts
  pub current_idx : s'.db.current_idx ≡ s.db.current_idx
  pub addr_bjj : s'.db.addr_bjj ≡ s.db.addr_bjj
  pub exit_tree : s'.exit_tree ≡ s.exit_tree
  pub accumulated_fees : s'.accumulated_fees ≡ s.accumulated_fees
  pub collected_fees : s'.collected_fees ≡ s.collected_fees
  pub config : s'.config ≡ s.config

pub update_ok : (i : ℕ) (a : Account) (s s' : State) → update i a s ≡ (ok tt, s') → Written i a s s'
update_ok i a s s' h = elim (Result-cases (update_account i a s.db)) [
  | inl (db, e) ↦ ground (arith, update_account_ok i a s.db db e)
  | inr (x, e) ↦ ground arith
]

-- A successful creation finds no entry and makes one.
pub record Created (i : ℕ) (a : Account) (s s' : State) : Type 0 where
  pub absent : lookup i s.db.accounts ≡ none
  pub accounts : s'.db.accounts ≡ insert i (stored_at i a) s.db.accounts
  pub current_idx : s'.db.current_idx ≡ s.db.current_idx
  pub exit_tree : s'.exit_tree ≡ s.exit_tree
  pub config : s'.config ≡ s.config

pub create_ok : (i : ℕ) (a : Account) (s s' : State) → create i a s ≡ (ok tt, s') → Created i a s s'
create_ok i a s s' h = elim (Result-cases (create_account i a s.db)) [
  | inl (db, e) ↦ ground (
    arith,
    create_account_ok i a s.db db e,
    set_idx_keeps i a.eth_addr a.bjj a.token_id
        (record (s.db) { accounts = insert i (stored_at i a) s.db.accounts }) db
        (create_account_ok i a s.db db e).2,
  )
  | inr (x, e) ↦ ground arith
]

-- The debit of an L1 transaction takes the amount, which the balance covers, and nothing else.
pub debit_l1_ok :
    (c : Dict ℕ) (tx : Tx) (acc : Account) (s : State) (a : Account) (s' : State)
    → tx.is_l1 ≡ true
    → debit c tx acc s ≡ (ok a, s')
    → (s' ≡ s) × (a ≡ sub_balance tx.amount acc) × (pos 0 ≤ℤ a.balance)
unfolding debit
debit_l1_ok c tx acc s a s' l1 h = ground arith

ok_pair : (p : Result (Unit {0}) × State) → (p ≡ (ok tt, p.1)) ⊎ ((e : Error) × (p ≡ (err e, p.1)))
ok_pair (ok u, s) = inl refl
ok_pair (err e, s) = inr (e, refl)

-- Paying the fee of an L2 transaction changes only the maps of fees.
pub record FeesOnly (s s' : State) : Type 0 where
  pub db : s'.db ≡ s.db
  pub exit_tree : s'.exit_tree ≡ s.exit_tree
  pub config : s'.config ≡ s.config
  pub updated_accounts : s'.updated_accounts ≡ s.updated_accounts

pay_fee_ok :
    (c : Dict ℕ) (token : ℕ) (fee : ℤ) (s : State) (s' : State)
    → pay_fee c token fee s ≡ (ok tt, s')
    → FeesOnly s s'
unfolding pay_fee
pay_fee_ok c token fee s s' h = ground arith

-- The debit of an L2 transaction takes amount and fee, which the balance covers, and counts the
-- nonce up.
pub debit_l2_ok :
    (c : Dict ℕ) (tx : Tx) (acc : Account) (s : State) (a : Account) (s' : State)
    → tx.is_l1 ≡ false
    → debit c tx acc s ≡ (ok a, s')
    → (fee : ℤ) × (calc_fee_amount tx.amount tx.fee ≡ ok fee)
      × (pay_fee c acc.token_id fee s ≡ (ok tt, s'))
      × FeesOnly s s'
      × (a ≡ sub_balance (tx.amount +ℤ fee) (record acc { nonce = (acc.nonce + 1) % 2 ^ 64 }))
      × (pos 0 ≤ℤ a.balance)
unfolding debit
debit_l2_ok c tx acc s a s' l2 h = elim (Result-cases (calc_fee_amount tx.amount tx.fee)) [
  | inl (fee, e) ↦
      let paid : pay_fee c acc.token_id fee s ≡ (ok tt, s') = l2_paid fee e in
      (fee, e, paid, pay_fee_ok c acc.token_id fee s s' paid, ground arith, ground arith)
  | inr (x, e) ↦ ground arith
]
  where
    l2_paid :
        (fee : ℤ)
        → calc_fee_amount tx.amount tx.fee ≡ ok fee
        → pay_fee c acc.token_id fee s ≡ (ok tt, s')
    l2_paid fee e = ground (arith, ok_pair (pay_fee c acc.token_id fee s))
