-- ===== src/TxProcessor/Amounts.antt =====
-- v2/txprocessor/txprocessor.go, computeEffectiveAmounts: which part of an L1 transaction counts.
pub mod Lowered
pub mod Checks
use hermez_node.Prelude.{ℕ, Bool, true, false, not, leb, ◌==◌, ◌&&◌, ◌||◌, if◌then◌else◌}
use hermez_node.Prelude.Int.{ℤ, pos, ◌+ℤ◌, ltb_ℤ}
use hermez_node.Prelude.Result.{Result, ok, err}
use hermez_node.Common.Ids.{user_threshold}
use hermez_node.Common.Tx.{same_type, create_account_deposit}
use hermez_node.Common.Account.{Account}
use hermez_node.Common.L1Tx.{L1Tx}
use hermez_node.StateDb.{StateDb, get_account}

abbrev pub zero_amount : L1Tx → L1Tx
zero_amount tx = record tx { effective_amount = pos 0 }

abbrev pub zero_amounts : L1Tx → L1Tx
zero_amounts tx = record tx { effective_amount = pos 0; effective_deposit_amount = pos 0 }

-- The checks of CreateAccountDepositTransfer.
unfoldable pub create_transfer_amounts : StateDb → L1Tx → L1Tx
create_transfer_amounts db tx =
    if ltb_ℤ tx.deposit_amount tx.amount then zero_amount tx else elim (get_account tx.to_idx db) [
      | err _ ↦ zero_amounts tx
      | ok receiver ↦ if not (tx.token_id == receiver.token_id) then zero_amount tx else tx
    ]

-- The checks of the receiver, for a sender that has passed.
unfoldable pub receiver_amounts : StateDb → Account → L1Tx → L1Tx
receiver_amounts db sender tx =
    if tx.to_idx == 1 || tx.to_idx == 0 then tx else elim (get_account tx.to_idx db) [
      | err _ ↦ zero_amounts tx
      | ok receiver ↦
          if not (sender.token_id == receiver.token_id)
          then zero_amount tx
          else if not (tx.token_id == receiver.token_id)
          then zero_amount tx
          else tx
    ]

-- The checks of the sender: its token, its balance with the deposit, and its address. After a
-- wrong address the checks go on.
unfoldable pub sender_amounts : StateDb → L1Tx → L1Tx
sender_amounts db tx = elim (get_account tx.from_idx db) [
  | err _ ↦ zero_amounts tx
  | ok sender ↦
      if not (tx.token_id == sender.token_id)
      then zero_amounts tx
      else if ltb_ℤ (sender.balance +ℤ tx.effective_deposit_amount) tx.amount
      then zero_amount tx
      else receiver_amounts db sender
          (if not (tx.from_eth_addr == sender.eth_addr) then zero_amount tx else tx)
]

-- The amounts before any check.
abbrev pub full_amounts : L1Tx → L1Tx
full_amounts tx = record tx {
  effective_amount = tx.amount;
  effective_deposit_amount = tx.deposit_amount;
}

-- `computeEffectiveAmounts`
unfoldable pub compute_effective_amounts : StateDb → L1Tx → L1Tx
compute_effective_amounts db tx =
    if not tx.user_origin
    then zero_amounts tx
    else if same_type tx.tx_type create_account_deposit
    then full_amounts tx
    else if leb user_threshold tx.to_idx && tx.from_idx == 0
    then create_transfer_amounts db (full_amounts tx)
    else sender_amounts db (full_amounts tx)
