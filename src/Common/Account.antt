-- ===== src/Common/Account.antt =====
-- v2/common/account.go: an account and the 128 bytes of its leaf. A [20]byte address and a [32]byte
-- compressed key are the numbers that their bytes spell in big-endian order. The functions of
-- babyjub and of the field check, which are not in the repository, are parameters.
pub mod RoundTrip
use hermez_node.Prelude.{
  ℕ, ◌+◌, ◌-◌, ◌^◌, List, [], ◌∷◌, Bool, true, false, not, ltb, leb, ◌==◌, ◌||◌, if◌then◌else◌,
  take, drop,
}
use hermez_node.Prelude.Int.{ℤ, pos, pos_part, neg_part}
use hermez_node.Prelude.Result.{Result, ok, err, ◌>>=◌, ◌>>◌, fail_if, num_overflow, not_in_ff}
use hermez_node.Bytes.{be, from_be, copy_at, zeros}
use hermez_node.Common.Ids.{
  max_nonce_value, nonce_bytes, nonce_from_bytes, token_id_bytes, token_id_from_bytes,
}

pub record Account : Type 0 where
  pub idx : ℕ
  pub token_id : ℕ
  pub batch_num : ℕ
  pub bjj : ℕ
  pub eth_addr : ℕ
  pub nonce : ℕ
  pub balance : ℤ

-- `|b|`, the number that `b.Bytes()` spells
abbrev pub magnitude : ℤ → ℕ
magnitude b = pos_part b + neg_part b

-- `len(a.Balance.Bytes()) > maxBalanceBytes`
abbrev pub balance_too_long : ℤ → Bool
balance_too_long b = leb (2 ^ 192) (magnitude b)

-- `b[i:j]` of an array that is long enough
abbrev pub field_of : ℕ → ℕ → List ℕ → List ℕ
field_of i j b = take (j - i) (drop i b)

module _ (unpack_sign_y : ℕ → Bool × ℕ) where
  -- `Account.Bytes`. The bytes of a big.Int, without leading zeros, at the end of a zeroed field of
  -- 32 are its 32 bytes with them.
  unfoldable pub account_bytes : Account → Result (List ℕ)
  unfolding nonce_bytes token_id_bytes be copy_at
  account_bytes a = do
    fail_if (ltb max_nonce_value a.nonce) num_overflow
    fail_if (balance_too_long a.balance) num_overflow
    nonce_b ← nonce_bytes a.nonce
    let b1 = copy_at 28 (zeros 128) (token_id_bytes a.token_id)
    let b2 = copy_at 23 b1 nonce_b
    let (pk_sign, pk_y) = unpack_sign_y a.bjj
    let b3 = if pk_sign then copy_at 22 b2 (1 ∷ []) else b2
    let b4 = copy_at 32 b3 (be 32 (magnitude a.balance))
    let b5 = copy_at 64 b4 (be 32 pk_y)
    ok (copy_at 108 b5 (be 20 a.eth_addr))

module _ (pack_sign_y : Bool → ℕ → ℕ) (in_field : ℕ → Bool) where
  -- `AccountFromBytes`, of a [128]byte
  unfoldable pub account_from_bytes : List ℕ → Result Account
  account_from_bytes b = do
    token_id ← token_id_from_bytes (field_of 28 32 b)
    let nonce = nonce_from_bytes (field_of 23 28 b)
    let sign = from_be (field_of 22 23 b) == 1
    let balance = from_be (field_of 40 64 b)
    fail_if (not (from_be (field_of 32 40 b) == 0)) num_overflow
    let ay = from_be (field_of 64 96 b)
    let public_key_comp = pack_sign_y sign ay
    let eth_addr = from_be (field_of 108 128 b)
    fail_if (not (in_field balance)) not_in_ff
    fail_if (not (in_field ay)) not_in_ff
    ok (record {
      idx = 0;
      token_id = token_id;
      batch_num = 0;
      bjj = public_key_comp;
      eth_addr = eth_addr;
      nonce = nonce;
      balance = pos balance;
    })
