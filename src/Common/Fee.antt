-- ===== src/Common/Fee.antt =====
-- v2/common/fee.go: the fee of a transfer from its amount and an 8-bit fee selector. Percentage,
-- which computes with float64 and is not used by CalcFeeAmount, is not modelled.
pub mod Table
pub mod Amount
use hermez_node.Prelude.{
  ℕ, zero, suc, ◌+◌, ◌*◌, ◌/◌, ◌^◌, Bool, Option, none, some, leb, ltb, if◌then◌else◌, get_elem?,
}
use hermez_node.Prelude.Int.{ℤ, pos, negsuc, pos_part, neg_part}
use hermez_node.Prelude.Result.{Result, ok, err, fee_overflow, out_of_range}
use Table.{fee_factor_lsh60}

-- `new(big.Int).Mul(a, k)` for a non-negative k
abbrev pub scale : ℤ → ℕ → ℤ
scale (pos n) k = pos (n * k)
scale (negsuc n) zero = pos 0
scale (negsuc n) (suc k) = negsuc (n * suc k + k)

-- `a.Rsh(a, k)`, which rounds down
abbrev pub shift_right : ℤ → ℕ → ℤ
shift_right (pos n) k = pos (n / 2 ^ k)
shift_right (negsuc n) k = negsuc (n / 2 ^ k)

-- `a.BitLen() > k`
abbrev pub longer_than : ℕ → ℤ → Bool
longer_than k a = leb (2 ^ k) (pos_part a + neg_part a)

abbrev pub check_bits : ℤ → Result ℤ
check_bits fee = if longer_than 128 fee then err fee_overflow else ok fee

-- `CalcFeeAmount`; a selector is below 256, so the index is in range.
pub fee_with_factor : ℤ → ℕ → Option ℕ → Result ℤ
fee_with_factor amount fee_sel none = err out_of_range
fee_with_factor amount fee_sel (some factor) =
    let fee_amount = scale amount factor in
    check_bits (if ltb fee_sel 192 then shift_right fee_amount 60 else fee_amount)

unfoldable pub calc_fee_amount : ℤ → ℕ → Result ℤ
unfolding fee_with_factor
calc_fee_amount amount fee_sel = fee_with_factor amount fee_sel (get_elem? fee_factor_lsh60 fee_sel)
