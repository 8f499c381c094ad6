-- ===== src/Common/PoolL2Tx/Codec.antt =====
-- v2/common/pooll2tx.go: the compressed forms of an L2 transaction, which are hashed and signed.
-- babyjub.UnpackSignY and poseidon.Hash are not in the repository and enter as parameters. The pointers
-- Amount and RqAmount are taken as non-nil: nil stands for the amount 0 in both compressed forms.
pub mod Layout
use hermez_node.Prelude.{ℕ, List, [], ◌∷◌, Bool, true, false, not, ◌==◌, if◌then◌else◌}
use hermez_node.Prelude.Int.{ℤ}
use hermez_node.Prelude.Result.{Result, ok, err, ◌>>=◌, ◌>>◌}
use hermez_node.Bytes.{be, from_be, copy_at, zeros}
use hermez_node.Common.Ids.{idx_bytes, nonce_bytes, token_id_bytes}
use hermez_node.Common.PoolL2Tx.{PoolL2Tx, empty_bjj_comp}
use hermez_node.Common.L1Tx.Codec.{signature_constant_bytes, amount_bytes}

-- `TxCompressedDataEmpty`
unfoldable pub tx_compressed_data_empty : ℕ → ℕ
unfolding be copy_at
tx_compressed_data_empty chain_id =
    let b1 = copy_at 23 (zeros 29) (be 2 chain_id) in
    from_be (copy_at 25 b1 signature_constant_bytes)

module _ (unpack_sign_y : ℕ → Bool × ℕ) where
  -- `TxCompressedData`
  unfoldable pub tx_compressed_data : PoolL2Tx → ℕ → Result ℕ
  unfolding token_id_bytes be copy_at
  tx_compressed_data tx chain_id = do
    let to_bjj_sign = if (unpack_sign_y tx.to_bjj).0 then 1 else 0
    let b1 = copy_at 0 (zeros 29) (to_bjj_sign ∷ [])
    let b2 = copy_at 1 b1 (tx.fee ∷ [])
    nonce_b ← nonce_bytes tx.nonce
    let b3 = copy_at 2 b2 nonce_b
    let b4 = copy_at 7 b3 (token_id_bytes tx.token_id)
    to_idx_bytes ← idx_bytes tx.to_idx
    let b5 = copy_at 11 b4 to_idx_bytes
    from_idx_bytes ← idx_bytes tx.from_idx
    let b6 = copy_at 17 b5 from_idx_bytes
    let b7 = copy_at 23 b6 (be 2 chain_id)
    ok (from_be (copy_at 25 b7 signature_constant_bytes))

  -- `TxCompressedDataV2`
  unfoldable pub tx_compressed_data_v2 : PoolL2Tx → Result ℕ
  unfolding token_id_bytes be copy_at
  tx_compressed_data_v2 tx = do
    amount_float40_bytes ← amount_bytes tx.amount
    let to_bjj_sign =
        if not (tx.to_bjj == empty_bjj_comp)
        then (if (unpack_sign_y tx.to_bjj).0 then 1 else 0)
        else 0
    let b1 = copy_at 0 (zeros 28) (to_bjj_sign ∷ [])
    let b2 = copy_at 1 b1 (tx.fee ∷ [])
    nonce_b ← nonce_bytes tx.nonce
    let b3 = copy_at 2 b2 nonce_b
    let b4 = copy_at 7 b3 (token_id_bytes tx.token_id)
    let b5 = copy_at 11 b4 amount_float40_bytes
    to_idx_bytes ← idx_bytes tx.to_idx
    let b6 = copy_at 16 b5 to_idx_bytes
    from_idx_bytes ← idx_bytes tx.from_idx
    ok (from_be (copy_at 22 b6 from_idx_bytes))

  -- `RqTxCompressedDataV2`
  unfoldable pub rq_tx_compressed_data_v2 : PoolL2Tx → Result ℕ
  unfolding token_id_bytes be copy_at
  rq_tx_compressed_data_v2 tx = do
    amount_float40_bytes ← amount_bytes tx.rq_amount
    let rq_to_bjj_sign =
        if not (tx.rq_to_bjj == empty_bjj_comp)
        then (if (unpack_sign_y tx.rq_to_bjj).0 then 1 else 0)
        else 0
    let b1 = copy_at 0 (zeros 28) (rq_to_bjj_sign ∷ [])
    let b2 = copy_at 1 b1 (tx.rq_fee ∷ [])
    nonce_b ← nonce_bytes tx.rq_nonce
    let b3 = copy_at 2 b2 nonce_b
    let b4 = copy_at 7 b3 (token_id_bytes tx.rq_token_id)
    let b5 = copy_at 11 b4 amount_float40_bytes
    to_idx_bytes ← idx_bytes tx.rq_to_idx
    let b6 = copy_at 16 b5 to_idx_bytes
    from_idx_bytes ← idx_bytes tx.rq_from_idx
    ok (from_be (copy_at 22 b6 from_idx_bytes))

  -- `HashToSign`, with the hash of babyjub's Poseidon
  unfoldable pub hash_to_sign : (List ℕ → Result ℕ) → PoolL2Tx → ℕ → Result ℕ
  unfolding tx_compressed_data rq_tx_compressed_data_v2 be copy_at
  hash_to_sign poseidon_hash tx chain_id = do
    to_compressed_data ← tx_compressed_data tx chain_id
    amount_float40_bytes ← amount_bytes tx.amount
    let e1_b1 = copy_at 0 (zeros 29) (be 4 tx.max_num_batch)
    let e1_b2 = copy_at 4 e1_b1 amount_float40_bytes
    let e1 = from_be (copy_at 9 e1_b2 (be 20 tx.to_eth_addr))
    let rq_to_eth_addr = tx.rq_to_eth_addr
    let to_bjj_y = (unpack_sign_y tx.to_bjj).1
    rq_data ← rq_tx_compressed_data_v2 tx
    let rq_to_bjj_y = (unpack_sign_y tx.rq_to_bjj).1
    poseidon_hash (to_compressed_data ∷ e1 ∷ to_bjj_y ∷ rq_data ∷ rq_to_eth_addr ∷ rq_to_bjj_y ∷ [])
