-- ===== src/Common/PoolL2Tx.antt =====
-- v2/common/pooll2tx.go: an L2 transaction of the pool, and its type.
pub mod Types
pub mod Codec
use hermez_node.Prelude.{ℕ, Bool, true, false, not, leb, ◌==◌, ◌&&◌, if◌then◌else◌}
use hermez_node.Prelude.Int.{ℤ}
use hermez_node.Prelude.Result.{Result, ok, err, wrong_type}
use hermez_node.Common.Ids.{user_threshold}
use hermez_node.Common.Tx.{TxType, Tx, transfer, exit, transfer_to_bjj, transfer_to_eth_addr}

pub record PoolL2Tx : Type 0 where
  pub from_idx : ℕ
  pub to_idx : ℕ
  pub aux_to_idx : ℕ
  pub to_eth_addr : ℕ
  pub to_bjj : ℕ
  pub token_id : ℕ
  pub amount : ℤ
  pub fee : ℕ
  pub nonce : ℕ
  pub max_num_batch : ℕ
  pub rq_from_idx : ℕ
  pub rq_to_idx : ℕ
  pub rq_to_eth_addr : ℕ
  pub rq_to_bjj : ℕ
  pub rq_token_id : ℕ
  pub rq_amount : ℤ
  pub rq_fee : ℕ
  pub rq_nonce : ℕ
  pub rq_offset : ℕ
  pub tx_type : TxType

-- `EmptyBJJComp`, `EmptyAddr` and `FFAddr`
abbrev pub empty_bjj_comp : ℕ
empty_bjj_comp = 0

abbrev pub empty_addr : ℕ
empty_addr = 0

abbrev pub ff_addr : ℕ
ff_addr = 0xffffffffffffffffffffffffffffffffffffffff

-- The type that `PoolL2Tx.SetType` finds, or its error.
unfoldable pub type_of : (to_idx to_bjj to_eth_addr : ℕ) → Result TxType
type_of to_idx to_bjj to_eth_addr =
    let is_addr_empty = to_bjj == empty_bjj_comp && to_eth_addr == empty_addr in
    if leb user_threshold to_idx
    then ok transfer
    else if is_addr_empty && to_idx == 1
    then ok exit
    else if to_idx == 0
    then if not (to_bjj == empty_bjj_comp) && to_eth_addr == ff_addr
      then ok transfer_to_bjj
      else if not (to_eth_addr == ff_addr)
          && not (to_eth_addr == empty_addr)
          && to_bjj == empty_bjj_comp
      then ok transfer_to_eth_addr
      else err wrong_type
    else err wrong_type

-- `PoolL2Tx.SetType`
unfoldable pub set_type : PoolL2Tx → Result PoolL2Tx
unfolding type_of
set_type tx = elim (type_of tx.to_idx tx.to_bjj tx.to_eth_addr) [
  | ok t ↦ ok (record tx { tx_type = t })
  | err e ↦ err e
]

-- `PoolL2Tx.Tx`, the fields that the processor reads
abbrev pub generic_tx : PoolL2Tx → Tx
generic_tx tx = record {
  is_l1 = false;
  tx_type = tx.tx_type;
  from_idx = tx.from_idx;
  to_idx = tx.to_idx;
  amount = tx.amount;
  token_id = tx.token_id;
  fee = tx.fee;
}
