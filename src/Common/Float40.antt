-- ===== src/Common/Float40.antt =====
-- v2/common/float40.go: amounts as 5 bits of exponent over 35 bits of mantissa. A Float40 (a
-- uint64) is a number; masks with 2^k - 1 are written `% 2 ^ k`.
pub mod RoundTrip
pub mod Floor
use Prim.Native.Nat.{bit_and}
use mathlib.Core.Logic.{dite}
use mathlib.Core.WellFounded.{Acc}
use native.Mathlib.Decide.{dec_le}
use hermez_node.Prelude.{
  ℕ, zero, suc, ◌+◌, ◌-◌, ◌*◌, ◌/◌, ◌%◌, ◌^◌, ◌<◌, ◌≤◌, List, [], ◌∷◌, drop, ltb, leb, ◌==◌,
  if◌then◌else◌, arith,
}
use hermez_node.Prelude.Int.{ℤ, pos, negsuc}
use hermez_node.Prelude.Order.{lt_wf}
use hermez_node.Prelude.Result.{
  Result, ok, err, ◌>>=◌, ◌>>◌, fail_if, float40_overflow, float40_e31,
  float40_not_enough_precission, out_of_range,
}
use hermez_node.Bytes.{be, from_be, copy, copy_at, zeros}

abbrev pub max_float40_value : ℕ
max_float40_value = 0xffffffffff

abbrev pub thres : ℕ
thres = 0x0800000000

-- `Float40.Bytes`
unfoldable pub float40_bytes : ℕ → Result (List ℕ)
unfolding be copy
float40_bytes f40 =
    if ltb max_float40_value f40
    then err float40_overflow
    else ok (copy (zeros 5) (drop 3 (be 8 f40)))

-- `Float40FromBytes`
unfoldable pub float40_from_bytes : List ℕ → ℕ
unfolding from_be copy_at
float40_from_bytes b = from_be (copy_at 3 (zeros 8) b)

-- The exponent: `f40Bytes[0] & 0xF8 >> 3`, where Go's `&` and `>>` bind alike, from the left.
abbrev pub first_bits : List ℕ → Result ℕ
first_bits [] = err out_of_range
first_bits (b ∷ _) = ok (bit_and b 0xF8 / 2 ^ 3)

-- `Float40.BigInt`
unfoldable pub float40_big_int : ℕ → Result ℤ
unfolding float40_bytes
float40_big_int f40 = do
  let f40_uint64 = f40 % 2 ^ 40
  f40_bytes ← float40_bytes f40
  e ← first_bits f40_bytes
  let m = f40_uint64 % 2 ^ 35
  ok (pos (m * 10 ^ e))

pub tenth_shrinks : (m : ℕ) → thres ≤ m → m / 10 < m
tenth_shrinks m h = omega arith

-- The loop of `NewFloat40`: drops trailing decimal zeros while the mantissa is too large.
pub drop_zeros : (m e : ℕ) → Acc ◌<◌ m → ℕ × ℕ
drop_zeros m e (Acc.intro _ smaller) =
    dite (dec_le thres m)
      (λ h.
        let rest = drop_zeros (m / 10) (e + 1) (smaller _ (tenth_shrinks m h)) in
        if m % 10 == 0 then rest else (m, e))
      (λ _. (m, e))

-- The loop of `NewFloat40Floor`: drops decimal digits while the mantissa is too large.
pub drop_digits : (m e : ℕ) → Acc ◌<◌ m → ℕ × ℕ
drop_digits m e (Acc.intro _ smaller) =
    dite (dec_le thres m) (λ h. drop_digits (m / 10) (e + 1) (smaller _ (tenth_shrinks m h)))
      (λ _. (m, e))

-- `m + e * thres` as a uint64
abbrev pub compose : ℕ → ℕ → ℕ
compose m e = (m + e * thres) % 2 ^ 64

-- The checks of `NewFloat40` after its loop.
abbrev pub finish : ℕ × ℕ → Result ℕ
finish (m, e) = do
  fail_if (ltb 31 e) float40_e31
  fail_if (leb thres m) float40_not_enough_precission
  ok (compose m e)

-- A negative number is below `thres`, so no loop runs, and `Uint64` takes the low 64 bits of its
-- magnitude.
abbrev pub negative_uint64 : ℕ → ℕ
negative_uint64 n = (n + 1) % 2 ^ 64

-- `NewFloat40`
unfoldable pub new_float40 : ℤ → Result ℕ
unfolding drop_zeros lt_wf dec_le
new_float40 (pos f) = finish (drop_zeros f 0 (lt_wf.apply f))
new_float40 (negsuc n) = ok (negative_uint64 n)

-- The check of `NewFloat40Floor` after its loop.
abbrev pub finish_floor : ℕ × ℕ → Result ℕ
finish_floor (m, e) = do fail_if (ltb 31 e) float40_e31; ok (compose m e)

-- `NewFloat40Floor`
unfoldable pub new_float40_floor : ℤ → Result ℕ
unfolding drop_digits lt_wf dec_le
new_float40_floor (pos f) = finish_floor (drop_digits f 0 (lt_wf.apply f))
new_float40_floor (negsuc n) = ok (negative_uint64 n)
