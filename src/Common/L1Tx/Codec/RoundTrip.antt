-- ===== src/Common/L1Tx/Codec/RoundTrip.antt =====
-- Round trips of the byte forms of v2/common/l1tx.go.
use mathlib.Core.List.{reverse-reverse}
use hermez_node.Prelude.{
  ℕ, ◌^◌, ◌<◌, ◌≡◌, refl, sym, ap, ◌∙◌, true, arith, List, Bool-cases, inl, inr, ◌==◌, not,
  if◌then◌else◌, ◌++◌,
}
use hermez_node.Prelude.Int.{ℤ, pos}
use hermez_node.Prelude.Result.{ok}
use hermez_node.Bytes.{be, from_be, swap_endianness, copy_at, zeros}
use hermez_node.Common.PoolL2Tx.{empty_bjj_comp}
use hermez_node.Bytes.Laws.{from_be-be_of_lt}
use hermez_node.Common.Ids.{token_id_bytes, token_id_from_bytes}
use hermez_node.Common.Ids.RoundTrip.{
  idx_bytes_lem, idx_from_bytes-be, token_id_from_bytes-token_id_bytes,
}
use hermez_node.Common.Float40.{float40_from_bytes, float40_big_int, new_float40}
use hermez_node.Common.Float40.RoundTrip.{float40_bytes_lem, float40_big_int-new_float40, be_5_read}
use hermez_node.Common.L1Tx.{L1Tx}
use hermez_node.Common.L1Tx.Codec.{
  bytes_generic, bytes_user, l1_user_tx_from_bytes, decoded, amount_bytes,
}

-- The five bytes of an amount, and what they decode to.
amount_bytes_lem :
    (a x : ℕ)
    → new_float40 (pos a) ≡ ok x
    → (amount_bytes (pos a) ≡ ok (be 5 x))
      × (float40_big_int (float40_from_bytes (be 5 x)) ≡ ok (pos a))
amount_bytes_lem a x h =
    let (lt, back) = float40_big_int-new_float40 a x h in
    (
      rw h (float40_bytes_lem x lt),
      ap float40_big_int (be_5_read x ∙ from_be-be_of_lt 5 x (omega arith)) ∙ back,
    )

-- The bytes of the key: swapped, or zeros for the empty key.
abbrev bjj_bytes : ℕ → List ℕ
bjj_bytes bjj = if not (bjj == empty_bjj_comp) then swap_endianness (be 32 bjj) else zeros 32

-- The 78 bytes.
abbrev user_bytes : L1Tx → ℕ → ℕ → List ℕ
user_bytes tx deposit amount =
    be 20 tx.from_eth_addr
    ++ bjj_bytes tx.from_bjj
    ++ be 6 tx.from_idx
    ++ be 5 deposit
    ++ be 5 amount
    ++ be 4 tx.token_id
    ++ be 6 tx.to_idx

bytes_generic_lem :
    (tx : L1Tx) (deposit amount : ℕ)
    → tx.from_idx < 2 ^ 48
    → tx.to_idx < 2 ^ 48
    → amount_bytes tx.deposit_amount ≡ ok (be 5 deposit)
    → amount_bytes tx.amount ≡ ok (be 5 amount)
    → bytes_generic tx ≡ ok (user_bytes tx deposit amount)
unfolding bytes_generic be copy_at swap_endianness token_id_bytes
bytes_generic_lem tx deposit amount hf ht hd ha =
    elim (Bool-cases (tx.from_bjj == empty_bjj_comp)) [
      | inl none_given ↦
          rw (idx_bytes_lem tx.from_idx hf, idx_bytes_lem tx.to_idx ht, hd, ha, none_given) refl
      | inr given ↦
          rw (idx_bytes_lem tx.from_idx hf, idx_bytes_lem tx.to_idx ht, hd, ha, given) refl
    ]

bjj_bytes_back : (bjj : ℕ) → bjj < 2 ^ 256 → from_be (swap_endianness (bjj_bytes bjj)) ≡ bjj
unfolding swap_endianness from_be
bjj_bytes_back bjj h = elim (Bool-cases (bjj == empty_bjj_comp)) [
  | inl none_given ↦ rw none_given (ground arith)
  | inr given ↦ rw given (rw (reverse-reverse (be 32 bjj)) (from_be-be_of_lt 32 bjj (omega arith)))
]

token_id_be : (t : ℕ) → t < 2 ^ 32 → token_id_from_bytes (be 4 t) ≡ ok t
unfolding token_id_bytes
token_id_be t h = token_id_from_bytes-token_id_bytes t h

-- Reading the 78 bytes, field by field.
decode :
    (addr from deposit amount token to bjj : ℕ) (d a : ℤ)
    → addr < 2 ^ 160
    → bjj < 2 ^ 256
    → from < 2 ^ 48
    → to < 2 ^ 48
    → token < 2 ^ 32
    → float40_big_int (float40_from_bytes (be 5 deposit)) ≡ ok d
    → float40_big_int (float40_from_bytes (be 5 amount)) ≡ ok a
    → l1_user_tx_from_bytes (
        be 20 addr
        ++ bjj_bytes bjj
        ++ be 6 from
        ++ be 5 deposit
        ++ be 5 amount
        ++ be 4 token
        ++ be 6 to)
      ≡ ok (decoded true from to addr bjj token a d)
unfolding l1_user_tx_from_bytes be swap_endianness
decode addr from deposit amount token to bjj d a haddr hbjj hf hto ht hd ha =
    elim (Bool-cases (bjj == empty_bjj_comp)) [
      | inl none_given ↦ rw (
        none_given,
        from_be-be_of_lt 20 addr haddr,
        idx_from_bytes-be from hf,
        hd,
        ha,
        idx_from_bytes-be to hto,
        token_id_be token ht,
        key_read none_given,
      )
      | inr given ↦ rw (
        given,
        from_be-be_of_lt 20 addr haddr,
        idx_from_bytes-be from hf,
        hd,
        ha,
        idx_from_bytes-be to hto,
        token_id_be token ht,
        from_be-be_of_lt 32 bjj hbjj,
      )
    ]
  where
    key_read : (bjj == empty_bjj_comp) ≡ true → from_be (zeros 32) ≡ bjj
    key_read h = ground arith

-- An L1 transaction of a user whose fields fit their bytes and whose amounts are numbers that
-- NewFloat40 takes is written by BytesUser, and L1UserTxFromBytes reads back sender, receiver,
-- address, key, token, amount and deposit, for the empty key too.
pub l1_user_tx_from_bytes-bytes_user :
    (tx : L1Tx) (a d x y : ℕ)
    → tx.user_origin ≡ true
    → tx.from_eth_addr < 2 ^ 160
    → tx.from_bjj < 2 ^ 256
    → tx.from_idx < 2 ^ 48
    → tx.to_idx < 2 ^ 48
    → tx.token_id < 2 ^ 32
    → tx.amount ≡ pos a
    → tx.deposit_amount ≡ pos d
    → new_float40 (pos a) ≡ ok x
    → new_float40 (pos d) ≡ ok y
    → (b : List ℕ) × (bytes_user tx ≡ ok b)
      × (l1_user_tx_from_bytes b
          ≡ ok (
              decoded true tx.from_idx tx.to_idx tx.from_eth_addr tx.from_bjj tx.token_id tx.amount
                tx.deposit_amount))
unfolding bytes_user
l1_user_tx_from_bytes-bytes_user tx a d x y user haddr hbjj hf hto ht ea ed fa fd =
    let (wa, ra) = amount_bytes_lem a x fa in
    let (wd, rd) = amount_bytes_lem d y fd in
    (
      user_bytes tx y x,
      rw user (bytes_generic_lem tx y x hf hto (ap amount_bytes ed ∙ wd) (ap amount_bytes ea ∙ wa)),
      decode tx.from_eth_addr tx.from_idx y x tx.token_id tx.to_idx tx.from_bjj tx.deposit_amount
          tx.amount haddr hbjj hf hto ht (rd ∙ ap ok (sym ed)) (ra ∙ ap ok (sym ea)),
    )
