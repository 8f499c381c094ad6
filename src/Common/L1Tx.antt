-- ===== src/Common/L1Tx.antt =====
-- v2/common/l1tx.go: an L1 transaction and its type. Addresses and keys are numbers (Common.Account).
-- A *big.Int field is an integer: the pointers are taken as non-nil; the one branch on a nil
-- EffectiveAmount (BytesDataAvailability) writes what it writes for the amount 0.
pub mod Types
pub mod Codec
use hermez_node.Prelude.{ℕ, Bool, true, false, Option, leb, ◌==◌, if◌then◌else◌}
use hermez_node.Prelude.Int.{ℤ, pos, pos_part, neg_part}
use hermez_node.Prelude.Result.{Result, ok, err, invalid_idx}
use hermez_node.Common.Ids.{user_threshold, low64}
use hermez_node.Common.Tx.{
  TxType, Tx, create_account_deposit, create_account_deposit_transfer, deposit, force_exit,
  force_transfer, deposit_transfer,
}

pub record L1Tx : Type 0 where
  pub to_forge_l1_txs_num : Option ℕ
  pub position : ℕ
  pub user_origin : Bool
  pub from_idx : ℕ
  pub effective_from_idx : ℕ
  pub from_eth_addr : ℕ
  pub from_bjj : ℕ
  pub to_idx : ℕ
  pub token_id : ℕ
  pub amount : ℤ
  pub effective_amount : ℤ
  pub deposit_amount : ℤ
  pub effective_deposit_amount : ℤ
  pub eth_block_num : ℕ
  pub tx_type : TxType
  pub batch_num : Option ℕ

-- The type that `L1Tx.SetType` finds, or its error.
unfoldable pub type_of : (from_idx to_idx : ℕ) (deposit_amount : ℤ) → Result TxType
type_of from_idx to_idx deposit_amount =
    if from_idx == 0
    then if to_idx == 0
      then ok create_account_deposit
      else if leb user_threshold to_idx
      then ok create_account_deposit_transfer
      else err invalid_idx
    else if leb user_threshold from_idx
    then if to_idx == 0
      then ok deposit
      else if to_idx == 1
      then ok force_exit
      else if leb user_threshold to_idx
      then if low64 deposit_amount == 0 then ok force_transfer else ok deposit_transfer
      else err invalid_idx
    else err invalid_idx

-- `L1Tx.SetType`
unfoldable pub set_type : L1Tx → Result L1Tx
unfolding type_of
set_type tx = elim (type_of tx.from_idx tx.to_idx tx.deposit_amount) [
  | ok t ↦ ok (record tx { tx_type = t })
  | err e ↦ err e
]

-- `L1Tx.Tx`, the fields that the processor reads. An L1 transaction has no fee.
abbrev pub generic_tx : L1Tx → Tx
generic_tx tx = record {
  is_l1 = true;
  tx_type = tx.tx_type;
  from_idx = tx.from_idx;
  to_idx = tx.to_idx;
  amount = tx.effective_amount;
  token_id = tx.token_id;
  fee = 0;
}
