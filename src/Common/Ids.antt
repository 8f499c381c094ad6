-- ===== src/Common/Ids.antt =====
-- The numbers Idx, Nonce (v2/common/account.go), TokenID (v2/common/token.go) and BatchNum
-- (v2/common/batch.go) and their byte forms. Each is a number: an Idx and a Nonce of 64 bits, a TokenID of 32, a BatchNum below 2^63.
pub mod RoundTrip
use hermez_node.Prelude.{
  ℕ, ◌-◌, ◌%◌, ◌^◌, ◌+◌, Bool, false, List, drop, length, ltb, not, ◌==◌, if◌then◌else◌,
}
use hermez_node.Prelude.Int.{ℤ, pos, negsuc}
use hermez_node.Prelude.Result.{
  Result, ok, err, idx_overflow, nonce_overflow, num_overflow, bad_length,
}
use hermez_node.Bytes.{be, from_be, copy, copy_at, zeros}

abbrev pub max_nonce_value : ℕ
max_nonce_value = 0xffffffffff

abbrev pub max_idx_value : ℕ
max_idx_value = 0xffffffffffff

abbrev pub user_threshold : ℕ
user_threshold = 256

-- `Idx.Bytes`
unfoldable pub idx_bytes : ℕ → Result (List ℕ)
unfolding be copy
idx_bytes idx =
    if ltb max_idx_value idx then err idx_overflow else ok (copy (zeros 6) (drop 2 (be 8 idx)))

-- `IdxFromBytes`
unfoldable pub idx_from_bytes : List ℕ → Result ℕ
unfolding from_be copy_at
idx_from_bytes b =
    if not (length b == 6) then err bad_length else ok (from_be (copy_at 2 (zeros 8) b))

-- `b.Int64()`: the low 64 bits of the magnitude, under the sign, read as a signed word.
abbrev signed64 : ℕ → ℤ
signed64 w = if ltb w (2 ^ 63) then pos w else negsuc (2 ^ 64 - w - 1)

-- `uint64(b.Int64())`
abbrev pub low64 : ℤ → ℕ
low64 (pos n) = n % 2 ^ 64
low64 (negsuc n) = (2 ^ 64 - (n + 1) % 2 ^ 64) % 2 ^ 64

abbrev pub int64 : ℤ → ℤ
int64 b = signed64 (low64 b)

abbrev above_max_idx : ℤ → Bool
above_max_idx (pos n) = ltb max_idx_value n
above_max_idx (negsuc n) = false

-- `IdxFromBigInt`
unfoldable pub idx_from_big_int : ℤ → Result ℕ
idx_from_big_int b = if above_max_idx (int64 b) then err num_overflow else ok (low64 b)

-- `Nonce.Bytes`
unfoldable pub nonce_bytes : ℕ → Result (List ℕ)
unfolding be copy
nonce_bytes n =
    if ltb max_nonce_value n then err nonce_overflow else ok (copy (zeros 5) (drop 3 (be 8 n)))

-- `NonceFromBytes`, of a [5]byte
unfoldable pub nonce_from_bytes : List ℕ → ℕ
unfolding from_be copy_at
nonce_from_bytes b = from_be (copy_at 3 (zeros 8) b)

-- `TokenID.Bytes`
unfoldable pub token_id_bytes : ℕ → List ℕ
unfolding be
token_id_bytes t = be 4 t

-- `TokenIDFromBytes`
unfoldable pub token_id_from_bytes : List ℕ → Result ℕ
unfolding from_be
token_id_from_bytes b = if not (length b == 4) then err bad_length else ok (from_be b)

-- `TokenIDFromBigInt`: `TokenID(b.Int64())` keeps the low 32 bits.
unfoldable pub token_id_from_big_int : ℤ → ℕ
token_id_from_big_int b = low64 b % 2 ^ 32

-- `BatchNum.Bytes` (v2/common/batch.go); an int64 that is not negative
unfoldable pub batch_num_bytes : ℕ → List ℕ
unfolding be
batch_num_bytes n = be 8 n

-- `BatchNumFromBytes`
unfoldable pub batch_num_from_bytes : List ℕ → Result ℕ
unfolding from_be
batch_num_from_bytes b = if not (length b == 8) then err bad_length else ok (from_be b)
