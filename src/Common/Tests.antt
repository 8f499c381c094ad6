-- ===== src/Common/Tests.antt =====
-- Runs of the code of v2/common on concrete values, and its theorems there.
use hermez_node.Prelude.{ℕ, ◌+◌, ◌*◌, ◌-◌, ◌^◌, ◌/◌, ◌<◌, ◌≤◌, ◌≡◌, ◌⊎◌, refl, List, [], ◌∷◌, arith}
use hermez_node.Prelude.Int.{pos, ◌≤ℤ◌}
use hermez_node.Prelude.Result.{ok, err, idx_overflow, float40_overflow}
use hermez_node.Common.Ids.{idx_bytes, idx_from_bytes, idx_from_big_int, max_idx_value}
use hermez_node.Common.Ids.RoundTrip.{idx_from_bytes-idx_bytes, idx_from_big_int_unchecked}
use hermez_node.Common.Float40.{
  float40_bytes, float40_from_bytes, float40_big_int, new_float40, new_float40_floor,
}
use hermez_node.Common.Float40.RoundTrip.{
  float40_from_bytes-float40_bytes, float40_big_int-new_float40, new_float40_total,
}
use hermez_node.Common.Float40.Floor.{
  float40_big_int-new_float40_floor, new_float40_floor-new_float40,
}
use hermez_node.Common.Fee.{calc_fee_amount}
use hermez_node.Common.Fee.Amount.{calc_fee_amount_bounds, calc_fee_amount_mono}

-- 1.5 * 10^12, with a mantissa of 15 and eleven decimal zeros
abbrev amount : ℕ
amount = 1500000000000

abbrev amount_float : ℕ
amount_float = 15000000000 + 2 * 2 ^ 35

new_float40_amount : new_float40 (pos amount) ≡ ok amount_float
unfolding new_float40
new_float40_amount = refl

float40_from_bytes-float40_bytes_example :
    ((amount_float < 2 ^ 40)
      × ((b : List ℕ) × (float40_bytes amount_float ≡ ok b)
          × (float40_from_bytes b ≡ amount_float)))
    ⊎ ((2 ^ 40 ≤ amount_float) × (float40_bytes amount_float ≡ err float40_overflow))
float40_from_bytes-float40_bytes_example = float40_from_bytes-float40_bytes amount_float

float40_big_int-new_float40_example :
    (amount_float < 2 ^ 40) × (float40_big_int amount_float ≡ ok (pos amount))
float40_big_int-new_float40_example =
    float40_big_int-new_float40 amount amount_float new_float40_amount

new_float40_total_example : (x : ℕ) × (new_float40 (pos (15 * 10 ^ 11)) ≡ ok x)
new_float40_total_example = new_float40_total 15 11 (omega arith) (omega arith)

-- 2^35 + 1 loses its last digit
floor_run : new_float40_floor (pos 34359738369) ≡ ok (3435973836 + 2 ^ 35)
unfolding new_float40_floor
floor_run = refl

float40_big_int-new_float40_floor_example :
    (3435973836 + 2 ^ 35 < 2 ^ 40)
    × (v : ℕ) × (float40_big_int (3435973836 + 2 ^ 35) ≡ ok (pos v))
    × (v ≤ 34359738369)
    × (34359738369 < v + 10 ^ ((3435973836 + 2 ^ 35) / 2 ^ 35))
float40_big_int-new_float40_floor_example =
    float40_big_int-new_float40_floor 34359738369 (3435973836 + 2 ^ 35) floor_run

new_float40_floor-new_float40_example : new_float40_floor (pos amount) ≡ ok amount_float
new_float40_floor-new_float40_example =
    new_float40_floor-new_float40 amount amount_float new_float40_amount

idx_from_bytes-idx_bytes_example :
    ((300 < 2 ^ 48) × ((b : List ℕ) × (idx_bytes 300 ≡ ok b) × (idx_from_bytes b ≡ ok 300)))
    ⊎ ((2 ^ 48 ≤ 300) × (idx_bytes 300 ≡ err idx_overflow))
idx_from_bytes-idx_bytes_example = idx_from_bytes-idx_bytes 300

abbrev six_bytes : List ℕ
six_bytes = 0 ∷ 0 ∷ 0 ∷ 1 ∷ 2 ∷ 255 ∷ []

idx_from_big_int_unchecked_example :
    (idx_from_big_int (pos (2 ^ 63)) ≡ ok (2 ^ 63)) × (max_idx_value < 2 ^ 63)
idx_from_big_int_unchecked_example = idx_from_big_int_unchecked (2 ^ 63) (omega arith) (omega arith)

-- Selector 200 takes 2^8 times the amount, selector 0 nothing.
fee_run : calc_fee_amount (pos 1000) 200 ≡ ok (pos 256000)
unfolding calc_fee_amount
fee_run = refl

fee_run_small : calc_fee_amount (pos 1000) 0 ≡ ok (pos 0)
unfolding calc_fee_amount
fee_run_small = refl

calc_fee_amount_mono_example : pos 0 ≤ℤ pos 256000
calc_fee_amount_mono_example =
    calc_fee_amount_mono 1000 1000 0 200 (pos 0) (pos 256000) (omega arith) (omega arith)
      (omega arith) fee_run_small fee_run

calc_fee_amount_bounds_example :
    (n : ℕ) × (pos 256000 ≡ pos n)
    × (n < 2 ^ 128)
    × (((200 < 192) × (n ≤ 1000)) ⊎ ((192 ≤ 200) × (n ≡ 1000 * 2 ^ (200 - 192))))
calc_fee_amount_bounds_example = calc_fee_amount_bounds 1000 200 (pos 256000) (omega arith) fee_run
