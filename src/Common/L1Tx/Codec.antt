-- ===== src/Common/L1Tx/Codec.antt =====
-- v2/common/l1tx.go: the byte forms of an L1 transaction.
pub mod RoundTrip
use hermez_node.Prelude.{
  ℕ, ◌+◌, ◌-◌, ◌*◌, ◌/◌, ◌%◌, ◌^◌, List, [], ◌∷◌, ◌++◌, Bool, true, false, not, ltb, ◌==◌,
  if◌then◌else◌, none, length, drop, take,
}
use hermez_node.Prelude.Int.{ℤ, pos}
use hermez_node.Prelude.Result.{
  Result, ok, err, ◌>>=◌, ◌>>◌, fail_if, bad_length, coordinator_origin, user_origin,
}
use hermez_node.Bytes.{be, from_be, copy_at, zeros, slice, swap_endianness}
use hermez_node.Common.Ids.{idx_bytes, idx_from_bytes, token_id_bytes, token_id_from_bytes}
use hermez_node.Common.Float40.{float40_bytes, float40_from_bytes, float40_big_int, new_float40}
use hermez_node.Common.Account.{field_of}
use hermez_node.Common.PoolL2Tx.{empty_bjj_comp}
use hermez_node.Common.Tx.{TxType}
use hermez_node.Common.L1Tx.{L1Tx}

-- `RollupConstL1UserTotalBytes` and `RollupConstL1CoordinatorTotalBytes`
abbrev pub l1_user_total_bytes : ℕ
l1_user_total_bytes = 78

abbrev pub l1_coordinator_total_bytes : ℕ
l1_coordinator_total_bytes = 101

-- `SignatureConstantBytes`
abbrev pub signature_constant_bytes : List ℕ
signature_constant_bytes = 198 ∷ 11 ∷ 230 ∷ 15 ∷ []

-- `NewFloat40(amount)` and `Bytes()`
abbrev pub amount_bytes : ℤ → Result (List ℕ)
amount_bytes amount = new_float40 amount >>= float40_bytes

-- `TxCompressedData` of an L1Tx; `chain_id` is a uint16.
unfoldable pub tx_compressed_data : L1Tx → ℕ → Result ℕ
unfolding token_id_bytes be copy_at
tx_compressed_data tx chain_id = do
  let b1 = copy_at 7 (zeros 29) (token_id_bytes tx.token_id)
  to_idx_bytes ← idx_bytes tx.to_idx
  let b2 = copy_at 11 b1 to_idx_bytes
  from_idx_bytes ← idx_bytes tx.from_idx
  let b3 = copy_at 17 b2 from_idx_bytes
  let b4 = copy_at 23 b3 (be 2 chain_id)
  ok (from_be (copy_at 25 b4 signature_constant_bytes))

-- `BytesGeneric`
unfoldable pub bytes_generic : L1Tx → Result (List ℕ)
unfolding token_id_bytes be copy_at swap_endianness
bytes_generic tx = do
  let b1 = copy_at 0 (zeros 78) (be 20 tx.from_eth_addr)
  let b2 =
      if not (tx.from_bjj == empty_bjj_comp)
      then copy_at 20 b1 (swap_endianness (be 32 tx.from_bjj))
      else b1
  from_idx_bytes ← idx_bytes tx.from_idx
  let b3 = copy_at 52 b2 from_idx_bytes
  deposit_amount_bytes ← amount_bytes tx.deposit_amount
  let b4 = copy_at 58 b3 deposit_amount_bytes
  amount_b ← amount_bytes tx.amount
  let b5 = copy_at 63 b4 amount_b
  let b6 = copy_at 68 b5 (token_id_bytes tx.token_id)
  to_idx_bytes ← idx_bytes tx.to_idx
  ok (copy_at 72 b6 to_idx_bytes)

-- `BytesUser`
unfoldable pub bytes_user : L1Tx → Result (List ℕ)
unfolding bytes_generic
bytes_user tx = do fail_if (not tx.user_origin) coordinator_origin; bytes_generic tx

-- `BytesCoordinatorTx`
unfoldable pub bytes_coordinator_tx : L1Tx → List ℕ → Result (List ℕ)
unfolding token_id_bytes be copy_at swap_endianness slice
bytes_coordinator_tx tx compressed_signature_bytes = do
  fail_if tx.user_origin user_origin
  v ← slice 64 65 compressed_signature_bytes
  s ← slice 32 64 compressed_signature_bytes
  r ← slice 0 32 compressed_signature_bytes
  let b1 = copy_at 0 (zeros 101) v
  let b2 = copy_at 1 b1 s
  let b3 = copy_at 33 b2 r
  let b4 = copy_at 65 b3 (swap_endianness (be 32 tx.from_bjj))
  ok (copy_at 97 b4 (token_id_bytes tx.token_id))

-- A transaction with the fields that a decoder sets, and the zero values of Go in the others.
abbrev pub decoded :
    (origin : Bool) (from_idx to_idx from_eth_addr from_bjj token_id : ℕ)
    (amount deposit_amount : ℤ)
    → L1Tx
decoded origin from_idx to_idx from_eth_addr from_bjj token_id amount deposit_amount = record {
  to_forge_l1_txs_num = none;
  position = 0;
  user_origin = origin;
  from_idx = from_idx;
  effective_from_idx = 0;
  from_eth_addr = from_eth_addr;
  from_bjj = from_bjj;
  to_idx = to_idx;
  token_id = token_id;
  amount = amount;
  effective_amount = pos 0;
  deposit_amount = deposit_amount;
  effective_deposit_amount = pos 0;
  eth_block_num = 0;
  tx_type = TxType.unset;
  batch_num = none;
}

-- `L1UserTxFromBytes`
unfoldable pub l1_user_tx_from_bytes : List ℕ → Result L1Tx
unfolding swap_endianness from_be
l1_user_tx_from_bytes b = do
  fail_if (not (length b == l1_user_total_bytes)) bad_length
  let from_eth_addr = from_be (field_of 0 20 b)
  let from_bjj = from_be (swap_endianness (field_of 20 52 b))
  from_idx ← idx_from_bytes (field_of 52 58 b)
  deposit_amount ← float40_big_int (float40_from_bytes (field_of 58 63 b))
  amount ← float40_big_int (float40_from_bytes (field_of 63 68 b))
  token_id ← token_id_from_bytes (field_of 68 72 b)
  to_idx ← idx_from_bytes (field_of 72 78 b)
  ok (decoded true from_idx to_idx from_eth_addr from_bjj token_id amount deposit_amount)
