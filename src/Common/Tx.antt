-- ===== src/Common/Tx.antt =====
-- v2/common/tx.go: the types of transactions, and the generic transaction which the processor
-- applies.
use hermez_node.Prelude.{ℕ, Bool, ◌==◌}
use hermez_node.Prelude.Int.{ℤ}

-- `TxType`, a string. `unset` is the empty string and `other` any string that is no constant.
pub data TxType : Type 0 where
  exit transfer deposit create_account_deposit create_account_deposit_transfer : TxType
  deposit_transfer force_transfer force_exit transfer_to_eth_addr transfer_to_bjj : TxType
  unset other : TxType

abbrev type_code : TxType → ℕ
type_code exit = 1
type_code transfer = 2
type_code deposit = 3
type_code create_account_deposit = 4
type_code create_account_deposit_transfer = 5
type_code deposit_transfer = 6
type_code force_transfer = 7
type_code force_exit = 8
type_code transfer_to_eth_addr = 9
type_code transfer_to_bjj = 10
type_code unset = 0
type_code other = 11

-- `==` on two types, of which one is a constant
abbrev pub same_type : TxType → TxType → Bool
same_type a b = type_code a == type_code b

-- The fields of `Tx` that the processor reads. `fee` is the selector of an L2 transaction.
pub record Tx : Type 0 where
  pub is_l1 : Bool
  pub tx_type : TxType
  pub from_idx : ℕ
  pub to_idx : ℕ
  pub amount : ℤ
  pub token_id : ℕ
  pub fee : ℕ
