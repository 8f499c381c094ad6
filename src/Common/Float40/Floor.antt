-- ===== src/Common/Float40/Floor.antt =====
-- NewFloat40Floor against NewFloat40 and BigInt.
use mathlib.Core.WellFounded.{Acc}
use native.Mathlib.Nat.{pow-suc, div-add-mod, mul-le-mul_right}
use native.Mathlib.Numerals.{add-one}
use hermez_node.Prelude.{ℕ, ◌+◌, ◌*◌, ◌/◌, ◌%◌, ◌^◌, ◌<◌, ◌≤◌, ◌≡◌, ◌∙◌, ap, arith}
use hermez_node.Prelude.Int.{pos}
use hermez_node.Prelude.Order.{lt_wf}
use hermez_node.Prelude.Result.{ok}
use hermez_node.Common.Float40.{
  thres, float40_big_int, drop_zeros, drop_digits, new_float40, new_float40_floor, compose, finish,
  finish_floor,
}
use hermez_node.Common.Float40.RoundTrip.{compose_parts, float40_big_int_lem}

digit_bounds :
    (m e : ℕ)
    → (m / 10 * 10 ^ (e + 1) ≤ m * 10 ^ e) × ((m + 1) * 10 ^ e ≤ (m / 10 + 1) * 10 ^ (e + 1))
digit_bounds m e =
    rw (add-one, pow-suc)
      (omega (
        arith,
        ap (λ (t : ℕ). t * 10 ^ e) (div-add-mod m 10),
        mul-le-mul_right (10 ^ e) (last_digit m),
      ))
  where
    last_digit : (n : ℕ) → n % 10 ≤ 9
    last_digit n = omega arith

-- The loop rounds down by less than one unit of its last digit, and ends with a mantissa that fits.
drop_digits_bounds :
    (m e : ℕ) (w : Acc ◌<◌ m)
    → let (m', e') = drop_digits m e w in
      (m' * 10 ^ e' ≤ m * 10 ^ e) × ((m + 1) * 10 ^ e ≤ (m' + 1) * 10 ^ e') × (m' < thres)
unfolding drop_digits
drop_digits_bounds m e (Acc.intro _ smaller) = grind (
  arith,
  digit_bounds m e,
  λ (p : m / 10 < m). drop_digits_bounds (m / 10) (e + 1) (smaller (m / 10) p),
)

finish_floor_value :
    (p : ℕ × ℕ) (x : ℕ)
    → p.0 < thres
    → finish_floor p ≡ ok x
    → (x < 2 ^ 40) × (x / 2 ^ 35 ≡ p.1) × (float40_big_int x ≡ ok (pos (p.0 * 10 ^ p.1)))
finish_floor_value (m, e) x hm h =
    let (he, q) = finish_floor_ok in
    let (lt, low, high) = compose_parts m e hm he in
    rw q (lt, high, float40_big_int_lem (compose m e) lt ∙ rw (low, high))
  where
    finish_floor_ok : (e ≤ 31) × (x ≡ compose m e)
    finish_floor_ok = ground arith

-- What NewFloat40Floor returns on a non-negative number f is a Float40 of 40 bits whose value v is
-- at most f, and f is less than one unit of v's last digit above it.
pub float40_big_int-new_float40_floor :
    (f x : ℕ)
    → new_float40_floor (pos f) ≡ ok x
    → (x < 2 ^ 40)
      × (v : ℕ) × (float40_big_int x ≡ ok (pos v))
      × (v ≤ f)
      × (f < v + 10 ^ (x / 2 ^ 35))
unfolding new_float40_floor
float40_big_int-new_float40_floor f x h =
    let d = drop_digits f 0 (lt_wf.apply f) in
    let (lo, hi, fits) = drop_digits_bounds f 0 (lt_wf.apply f) in
    let (lt, e, v) = finish_floor_value d x fits h in
    (lt, d.0 * 10 ^ d.1, v, omega arith, rw e (omega arith))

-- Where NewFloat40 succeeds, the rounding one returns the same Float40.
drop_digits-drop_zeros :
    (m e : ℕ) (w : Acc ◌<◌ m) → (drop_zeros m e w).0 < thres → drop_digits m e w ≡ drop_zeros m e w
unfolding drop_digits drop_zeros
drop_digits-drop_zeros m e (Acc.intro _ smaller) h =
    grind (arith, λ (p : m / 10 < m). drop_digits-drop_zeros (m / 10) (e + 1) (smaller (m / 10) p))

finish_floor-finish :
    (p q : ℕ × ℕ) (x : ℕ) → finish p ≡ ok x → (p.0 < thres → q ≡ p) → finish_floor q ≡ ok x
finish_floor-finish (m, e) q x h same = rw (same (fits m e h)) (ground arith)
  where
    fits : (m e : ℕ) → finish (m, e) ≡ ok x → m < thres
    fits m e h = ground arith

-- Where NewFloat40 succeeds on a non-negative number, NewFloat40Floor returns the same Float40.
pub new_float40_floor-new_float40 :
    (f x : ℕ) → new_float40 (pos f) ≡ ok x → new_float40_floor (pos f) ≡ ok x
unfolding new_float40 new_float40_floor
new_float40_floor-new_float40 f x h =
    finish_floor-finish (drop_zeros f 0 (lt_wf.apply f)) (drop_digits f 0 (lt_wf.apply f)) x h
      (drop_digits-drop_zeros f 0 (lt_wf.apply f))
