-- ===== src/TxProcessor/Apply.antt =====
-- v2/txprocessor/txprocessor.go: createAccount, updateAccount and the apply* methods.
use hermez_node.Prelude.{
  ℕ, ◌+◌, ◌%◌, ◌^◌, Bool, true, false, ◌==◌, if◌then◌else◌, Option, none, some,
}
use hermez_node.Prelude.Int.{ℤ, pos, ◌+ℤ◌, ◌-ℤ◌, ltb_ℤ, is_zero}
use hermez_node.Prelude.Dict.{Dict, lookup, insert}
use hermez_node.Prelude.Result.{
  Result, Error, ok, err, not_enough_balance, no_coord_idx, out_of_range, not_found,
}
use hermez_node.Common.Account.{Account}
use hermez_node.Common.Fee.{calc_fee_amount}
use hermez_node.Common.Tx.{Tx}
use hermez_node.Common.L1Tx.{L1Tx}
use hermez_node.StateDb.{
  Accounts, get_account, create_account, update_account, set_current_idx, get_in_tree,
  create_in_tree, update_in_tree,
}
use hermez_node.TxProcessor.State.{State, is_synchronizer}
use hermez_node.TxProcessor.Monad.{Action, ◌>>=◌, ◌>>◌, pure, throw_if, read, gets, modify, on_db}

-- `updatedAccounts[idx] = account`, under a synchronizer
abbrev pub note_updated : ℕ → Account → State → State
note_updated i a s =
    if is_synchronizer s.config.mode
    then record s { updated_accounts = insert i (record a { idx = i }) s.updated_accounts }
    else s

-- `TxProcessor.createAccount` and `TxProcessor.updateAccount`
abbrev pub create : ℕ → Account → Action (Unit {0})
create i a = do modify (note_updated i a); on_db (create_account i a)

abbrev pub update : ℕ → Account → Action (Unit {0})
update i a = do modify (note_updated i a); on_db (update_account i a)

abbrev pub get : ℕ → Action Account
get i = read (λ s. get_account i s.db)

abbrev pub add_balance : ℤ → Account → Account
add_balance x a = record a { balance = a.balance +ℤ x }

abbrev pub sub_balance : ℤ → Account → Account
sub_balance x a = record a { balance = a.balance -ℤ x }

-- `Balance.Cmp(big.NewInt(0)) == -1`
abbrev pub check_balance : Account → Action (Unit {0})
check_balance a = throw_if (ltb_ℤ a.balance (pos 0)) not_enough_balance

abbrev pub new_account : L1Tx → Account
new_account tx = record {
  idx = 0;
  token_id = tx.token_id;
  batch_num = 0;
  bjj = tx.from_bjj;
  eth_addr = tx.from_eth_addr;
  nonce = 0;
  balance = tx.effective_deposit_amount;
}

abbrev pub bump_current_idx : Action (Unit {0})
bump_current_idx = modify (λ s. record s { db = set_current_idx (s.db.current_idx + 1) s.db })

-- `applyCreateAccount`
unfoldable pub apply_create_account : L1Tx → Action (Unit {0})
apply_create_account tx = do
  current ← gets (λ s. s.db.current_idx)
  create (current + 1) (new_account tx)
  bump_current_idx

-- `applyDeposit`; where a transfer follows and the receiver is the sender, the receiver is the
-- account as just updated.
unfoldable pub apply_deposit : L1Tx → Bool → Action (Unit {0})
apply_deposit tx with_transfer = do
  found ← get tx.from_idx
  let sender = sub_balance tx.effective_amount (add_balance tx.effective_deposit_amount found)
  check_balance sender
  update tx.from_idx sender
  if with_transfer
      then (do
        receiver ← if tx.to_idx == tx.from_idx then pure sender else get tx.to_idx
        update tx.to_idx (add_balance tx.effective_amount receiver))
      else pure tt

-- `applyCreateAccountDepositTransfer`
unfoldable pub apply_create_account_deposit_transfer : L1Tx → Action (Unit {0})
apply_create_account_deposit_transfer tx = do
  current ← gets (λ s. s.db.current_idx)
  let sender = sub_balance tx.effective_amount (new_account tx)
  check_balance sender
  create (current + 1) sender
  receiver ← if tx.to_idx == current + 1 then pure sender else get tx.to_idx
  update tx.to_idx (add_balance tx.effective_amount receiver)
  bump_current_idx

-- A number in a map, 0 where the key is missing.
abbrev pub amount_at : ℕ → Dict ℤ → ℤ
amount_at k d = elim (lookup k d) [ none ↦ pos 0 | some x ↦ x ]

abbrev pub accumulate : ℕ → ℤ → State → State
accumulate i fee s = record s {
  accumulated_fees = insert i (amount_at i s.accumulated_fees +ℤ fee) s.accumulated_fees;
}

-- `collected.Add(collected, fee)`, through a nil pointer where the token is missing
abbrev pub collect : ℕ → ℤ → Action (Unit {0})
collect token fee s = elim (lookup token s.collected_fees) [
  | none ↦ (err out_of_range, s)
  | some c ↦ (ok tt, record s { collected_fees = insert token (c +ℤ fee) s.collected_fees })
]

abbrev pub get_coord : ℕ → Action Account
get_coord i = read (λ s. elim (get_account i s.db) [ ok a ↦ ok a | err _ ↦ err no_coord_idx ])

-- The fee of an L2 transaction goes to the coordinator's account for the token, if there is one.
unfoldable pub pay_fee : Dict ℕ → ℕ → ℤ → Action (Unit {0})
pay_fee coord_idxs_map token fee = elim (lookup token coord_idxs_map) [
  | none ↦ pure tt
  | some coord_idx ↦ (do
    coord ← get_coord coord_idx
    modify (accumulate coord.idx fee)
    if (← gets (λ s. is_synchronizer s.config.mode)) then collect coord.token_id fee else pure tt)
]

-- The sender's part of applyTransfer and applyExit: the account as it will be stored.
unfoldable pub debit : Dict ℕ → Tx → Account → Action Account
debit coord_idxs_map tx acc =
    if tx.is_l1
    then (do let debited = sub_balance tx.amount acc; check_balance debited; pure debited)
    else (do
      fee ← read (λ _. calc_fee_amount tx.amount tx.fee)
      let debited = sub_balance (tx.amount +ℤ fee) (record acc { nonce = (acc.nonce + 1) % 2 ^ 64 })
      check_balance debited
      pay_fee coord_idxs_map acc.token_id fee
      pure debited)

-- `applyTransfer`
unfoldable pub apply_transfer : Dict ℕ → Tx → ℕ → Action (Unit {0})
unfolding debit
apply_transfer coord_idxs_map tx aux_to_idx = do
  let to_idx = if aux_to_idx == 0 then tx.to_idx else aux_to_idx
  found ← get tx.from_idx
  sender ← debit coord_idxs_map tx found
  update tx.from_idx sender
  receiver ← if to_idx == tx.from_idx then pure sender else get to_idx
  update to_idx (add_balance tx.amount receiver)

-- The exit's account, and whether its leaf is new.
abbrev pub Exit : Type 0
Exit = Option (Account × Bool)

abbrev pub exit_account : Tx → Account → Account
exit_account tx acc = record acc { idx = 0; batch_num = 0; nonce = 0; balance = tx.amount }

abbrev pub put_exit : Result Accounts → Account → Bool → Action Exit
put_exit r a is_new s = elim r [
  | ok exits ↦ (ok (some (a, is_new)), record s { exit_tree = some exits })
  | err e ↦ (err e, s)
]

-- `tracerr.Unwrap(err) == db.ErrNotFound`
abbrev pub is_not_found : Error → Bool
is_not_found not_found = true
is_not_found _ = false

abbrev pub add_exit : Tx → Account → Accounts → Action Exit
add_exit tx acc exits s = elim (get_in_tree tx.from_idx exits) [
  | ok found ↦
      let total = add_balance tx.amount found in
      put_exit (update_in_tree s.db.accepts_bjj tx.from_idx total exits) total false s
  | err e ↦
      let fresh = exit_account tx acc in
      if is_not_found e
      then put_exit (create_in_tree s.db.accepts_bjj tx.from_idx fresh exits) fresh true s
      else (err e, s)
]

-- `applyExit`; `original_amount` is the amount before the effective amounts were computed.
unfoldable pub apply_exit : Dict ℕ → Tx → ℤ → Action Exit
unfolding debit
apply_exit coord_idxs_map tx original_amount = do
  found ← get tx.from_idx
  acc ← debit coord_idxs_map tx found
  update tx.from_idx acc
  tree ← gets (λ s. s.exit_tree)
  elim tree [
    | none ↦ pure none
    | some exits ↦ if is_zero original_amount then pure none else add_exit tx acc exits
  ]
