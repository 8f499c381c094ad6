-- ===== src/Common/Ids/RoundTrip.antt =====
-- The byte forms of Idx, Nonce (v2/common/account.go) and TokenID (v2/common/token.go) against their
-- readers.
use hermez_node.Prelude.{
  lt_or_le, ◌⊎◌, inl, inr, ℕ, ◌^◌, ◌<◌, ◌≤◌, ◌≡◌, ◌∙◌, ap, List, All, arith, length,
}
use hermez_node.Prelude.Int.{pos}
use hermez_node.Prelude.Result.{ok, err, idx_overflow}
use hermez_node.Bytes.{IsByte, be, from_be, copy_at}
use hermez_node.Bytes.Laws.{from_be-be_of_lt, be-from_be, from_be-lt, copy-zeros}
use hermez_node.Common.Ids.{
  idx_bytes, idx_from_bytes, nonce_bytes, nonce_from_bytes, token_id_bytes, token_id_from_bytes,
  batch_num_bytes, batch_num_from_bytes, idx_from_big_int, max_idx_value,
}

pub idx_bytes_lem : (i : ℕ) → i < 2 ^ 48 → idx_bytes i ≡ ok (be 6 i)
unfolding idx_bytes
idx_bytes_lem i h = ground arith

pub idx_bytes_overflow : (i : ℕ) → 2 ^ 48 ≤ i → idx_bytes i ≡ err idx_overflow
unfolding idx_bytes
idx_bytes_overflow i h = ground arith

pub idx_from_bytes-be : (i : ℕ) → i < 2 ^ 48 → idx_from_bytes (be 6 i) ≡ ok i
unfolding idx_from_bytes be
idx_from_bytes-be i h = ap ok (unfold from_be be in (from_be-be_of_lt 6 i (omega arith)))

-- An Idx of 48 bits survives its bytes, and a larger one is refused.
pub idx_from_bytes-idx_bytes :
    (i : ℕ)
    → ((i < 2 ^ 48) × ((b : List ℕ) × (idx_bytes i ≡ ok b) × (idx_from_bytes b ≡ ok i)))
      ⊎ ((2 ^ 48 ≤ i) × (idx_bytes i ≡ err idx_overflow))
idx_from_bytes-idx_bytes i = elim (lt_or_le i (2 ^ 48)) [
  | inl h ↦ inl (h, (be 6 i, idx_bytes_lem i h, idx_from_bytes-be i h))
  | inr h ↦ inr (h, idx_bytes_overflow i h)
]

pub nonce_bytes_lem : (n : ℕ) → n < 2 ^ 40 → nonce_bytes n ≡ ok (be 5 n)
unfolding nonce_bytes
nonce_bytes_lem n h = ground arith

pub nonce_from_bytes-be : (n : ℕ) → n < 2 ^ 40 → nonce_from_bytes (be 5 n) ≡ n
unfolding nonce_from_bytes be
nonce_from_bytes-be n h = unfold from_be be in (from_be-be_of_lt 5 n (omega arith))

pub token_id_from_bytes-token_id_bytes :
    (t : ℕ) → t < 2 ^ 32 → token_id_from_bytes (token_id_bytes t) ≡ ok t
unfolding token_id_from_bytes token_id_bytes be
token_id_from_bytes-token_id_bytes t h =
    ap ok (unfold from_be be in (from_be-be_of_lt 4 t (omega arith)))

idx_from_bytes_lem : (b : List ℕ) → length b ≡ 6 → idx_from_bytes b ≡ ok (from_be b)
unfolding idx_from_bytes from_be copy_at
idx_from_bytes_lem b len = rw (len, copy-zeros 6 b len)

-- Six bytes are read as an Idx below 2^48 whose bytes are those six.
pub idx_bytes-idx_from_bytes :
    (b : List ℕ)
    → length b ≡ 6
    → All IsByte b
    → (i : ℕ) × (idx_from_bytes b ≡ ok i) × (i < 2 ^ 48) × (idx_bytes i ≡ ok b)
idx_bytes-idx_from_bytes b len bytes =
    (from_be b, idx_from_bytes_lem b len, below, idx_bytes_lem (from_be b) below ∙ ap ok again)
  where
    below : from_be b < 2 ^ 48
    below = rw len at (from_be-lt b bytes)

    again : be 6 (from_be b) ≡ b
    again = rw len at (be-from_be b bytes)

-- IdxFromBigInt lets every number between 2^63 and 2^64 pass, though all exceed its maximum: the
-- check compares the signed word, which is negative there.
pub idx_from_big_int_unchecked :
    (n : ℕ) → 2 ^ 63 ≤ n → n < 2 ^ 64 → (idx_from_big_int (pos n) ≡ ok n) × (max_idx_value < n)
unfolding idx_from_big_int
idx_from_big_int_unchecked n lo hi = ground arith

pub batch_num_from_bytes-batch_num_bytes :
    (n : ℕ) → n < 2 ^ 64 → batch_num_from_bytes (batch_num_bytes n) ≡ ok n
unfolding batch_num_from_bytes batch_num_bytes be
batch_num_from_bytes-batch_num_bytes n h = ap ok (unfold from_be be in (from_be-be_of_lt 8 n h))
