-- ===== src/Common/PoolL2Tx/Codec/Layout.antt =====
-- The layout of the compressed forms of v2/common/pooll2tx.go.
use hermez_node.Prelude.{
  ℕ, ◌+◌, ◌*◌, ◌^◌, ◌<◌, ◌≡◌, refl, ap, [], ◌∷◌, ◌++◌, Bool, if◌then◌else◌, arith,
}
use hermez_node.Prelude.Result.{ok}
use hermez_node.Bytes.{be, from_be, copy_at}
use hermez_node.Common.Ids.{token_id_bytes}
use hermez_node.Common.Ids.RoundTrip.{idx_bytes_lem, nonce_bytes_lem}
use hermez_node.Common.PoolL2Tx.{PoolL2Tx}
use hermez_node.Common.PoolL2Tx.Codec.{
  tx_compressed_data, tx_compressed_data_v2, rq_tx_compressed_data_v2,
}

-- The transaction that a transaction requests: the Rq fields in the place of its own.
abbrev pub requested : PoolL2Tx → PoolL2Tx
requested tx = record tx {
  from_idx = tx.rq_from_idx;
  to_idx = tx.rq_to_idx;
  to_eth_addr = tx.rq_to_eth_addr;
  to_bjj = tx.rq_to_bjj;
  token_id = tx.rq_token_id;
  amount = tx.rq_amount;
  fee = tx.rq_fee;
  nonce = tx.rq_nonce;
}

module _ (unpack_sign_y : ℕ → Bool × ℕ) where
  -- RqTxCompressedDataV2 is TxCompressedDataV2 of the requested transaction, on values and on errors.
  pub rq_tx_compressed_data_v2_lem :
      (tx : PoolL2Tx)
      → rq_tx_compressed_data_v2 unpack_sign_y tx
        ≡ tx_compressed_data_v2 unpack_sign_y (requested tx)
  unfolding rq_tx_compressed_data_v2 tx_compressed_data_v2
  rq_tx_compressed_data_v2_lem tx = refl

  -- The number that TxCompressedData spells: the fields at the bit offsets of its specification.
  abbrev pub layout : PoolL2Tx → ℕ → ℕ
  layout tx chain_id =
      (if (unpack_sign_y tx.to_bjj).0 then 1 else 0) * 2 ^ 224
      + tx.fee * 2 ^ 216
      + tx.nonce * 2 ^ 176
      + tx.token_id * 2 ^ 144
      + tx.to_idx * 2 ^ 96
      + tx.from_idx * 2 ^ 48
      + chain_id * 2 ^ 32
      + 0xc60be60f

  spelled :
      (sign fee nonce token to from chain : ℕ)
      → nonce < 2 ^ 40
      → token < 2 ^ 32
      → to < 2 ^ 48
      → from < 2 ^ 48
      → chain < 2 ^ 16
      → from_be (
          sign
          ∷ fee
          ∷ (be 5 nonce
              ++ be 4 token
              ++ be 6 to
              ++ be 6 from
              ++ be 2 chain
              ++ 198 ∷ 11 ∷ 230 ∷ 15 ∷ []))
        ≡ sign * 2 ^ 224
          + fee * 2 ^ 216
          + nonce * 2 ^ 176
          + token * 2 ^ 144
          + to * 2 ^ 96
          + from * 2 ^ 48
          + chain * 2 ^ 32
          + 0xc60be60f
  unfolding be from_be
  spelled sign fee nonce token to from chain hn ht hto hf hc = omega arith

  -- For a transaction whose nonce, token and two Idx fit their fields, and a chain id of 16 bits,
  -- TxCompressedData gives the sum of the fields, each shifted to its bit offset, and of the
  -- signature constant.
  pub tx_compressed_data_lem :
      (tx : PoolL2Tx) (chain_id : ℕ)
      → tx.nonce < 2 ^ 40
      → tx.token_id < 2 ^ 32
      → tx.to_idx < 2 ^ 48
      → tx.from_idx < 2 ^ 48
      → chain_id < 2 ^ 16
      → tx_compressed_data unpack_sign_y tx chain_id ≡ ok (layout tx chain_id)
  unfolding tx_compressed_data token_id_bytes be copy_at
  tx_compressed_data_lem tx chain_id hn ht hto hf hc =
      rw (nonce_bytes_lem tx.nonce hn, idx_bytes_lem tx.to_idx hto, idx_bytes_lem tx.from_idx hf)
        (ap ok
          (spelled _ tx.fee tx.nonce tx.token_id tx.to_idx tx.from_idx chain_id hn ht hto hf hc))
