-- ===== src/Common/Float40/RoundTrip.antt =====
-- What NewFloat40, BigInt and the byte forms of float40.go say of one another.
use Prim.Native.Nat.{bit_and}
use mathlib.Core.WellFounded.{Acc}
use native.Mathlib.Nat.{pow-suc}
use native.Mathlib.Numerals.{add-one}
use hermez_node.Prelude.{
  lt_or_le, ◌⊎◌, inl, inr, ℕ, zero, suc, ◌+◌, ◌-◌, ◌*◌, ◌/◌, ◌%◌, ◌^◌, ◌<◌, ◌≤◌, ◌≡◌, refl, ◌∙◌, ap,
  List, ◌==◌, arith, true, all_below, all_below_sound,
}
use hermez_node.Prelude.Int.{pos}
use hermez_node.Prelude.Order.{lt_wf}
use hermez_node.Prelude.Result.{ok, err, float40_overflow}
use hermez_node.Bytes.{be, from_be}
use hermez_node.Bytes.Laws.{from_be-be_of_lt}
use hermez_node.Common.Float40.{
  thres, float40_bytes, float40_from_bytes, float40_big_int, drop_zeros, new_float40, finish,
  compose,
}

exponent_table : all_below 256 (λ x. bit_and x 0xF8 / 2 ^ 3 == x / 8) ≡ true
unfolding all_below
exponent_table = refl

exponent_bits : (x : ℕ) → x < 256 → bit_and x 0xF8 / 2 ^ 3 ≡ x / 8
exponent_bits x h =
    ground (arith, all_below_sound 256 (λ y. bit_and y 0xF8 / 2 ^ 3 == y / 8) x exponent_table h)

pub float40_bytes_lem : (x : ℕ) → x < 2 ^ 40 → float40_bytes x ≡ ok (be 5 x)
unfolding float40_bytes
float40_bytes_lem x h = ground arith

pub float40_bytes_overflow : (x : ℕ) → 2 ^ 40 ≤ x → float40_bytes x ≡ err float40_overflow
unfolding float40_bytes
float40_bytes_overflow x h = ground arith

pub be_5_read : (x : ℕ) → float40_from_bytes (be 5 x) ≡ from_be (be 5 x)
unfolding float40_from_bytes be
be_5_read x = refl

-- Bytes fails exactly above 2^40 - 1, and otherwise gives five bytes which are read back.
pub float40_from_bytes-float40_bytes :
    (x : ℕ)
    → ((x < 2 ^ 40) × ((b : List ℕ) × (float40_bytes x ≡ ok b) × (float40_from_bytes b ≡ x)))
      ⊎ ((2 ^ 40 ≤ x) × (float40_bytes x ≡ err float40_overflow))
float40_from_bytes-float40_bytes x = elim (lt_or_le x (2 ^ 40)) [
  | inl h ↦
      inl (h, (be 5 x, float40_bytes_lem x h, be_5_read x ∙ from_be-be_of_lt 5 x (omega arith)))
  | inr h ↦ inr (h, float40_bytes_overflow x h)
]

first_byte : (x : ℕ) → x < 2 ^ 40 → bit_and (x / 256 ^ 4 % 256) 0xF8 / 2 ^ 3 ≡ x / 2 ^ 35
first_byte x h = exponent_bits (x / 256 ^ 4 % 256) (omega arith) ∙ omega arith

-- BigInt of a Float40 below 2^40 is its low 35 bits times ten to the power of the 5 bits above.
pub float40_big_int_lem :
    (x : ℕ) → x < 2 ^ 40 → float40_big_int x ≡ ok (pos (x % 2 ^ 35 * 10 ^ (x / 2 ^ 35)))
unfolding float40_big_int be
float40_big_int_lem x h =
    rw (float40_bytes_lem x h, first_byte x h)
      (ap (λ (t : ℕ). ok (pos (t * 10 ^ (x / 2 ^ 35)))) (omega arith))

pub ten_shift : (m e : ℕ) → m / 10 * 10 ^ (e + 1) ≡ (m - m % 10) * 10 ^ e
ten_shift m e = rw (add-one, pow-suc) (omega (arith, ap (λ (t : ℕ). t * 10 ^ e) (exact_tenth m)))
  where
    exact_tenth : (n : ℕ) → n / 10 * 10 ≡ n - n % 10
    exact_tenth n = omega arith

-- The loop keeps the value of mantissa and exponent.
drop_zeros_value :
    (m e : ℕ) (w : Acc ◌<◌ m) → (drop_zeros m e w).0 * 10 ^ (drop_zeros m e w).1 ≡ m * 10 ^ e
unfolding drop_zeros
drop_zeros_value m e (Acc.intro _ smaller) = grind (
  arith,
  ten_shift m e,
  λ (p : m / 10 < m). drop_zeros_value (m / 10) (e + 1) (smaller (m / 10) p),
)

pub tenths : (k j : ℕ) → (k * 10 ^ suc j / 10 ≡ k * 10 ^ j) × (k * 10 ^ suc j % 10 ≡ 0)
tenths k j = rw pow-suc (omega arith)

-- On a number with `j` decimal zeros behind a mantissa that fits, the loop ends with one that fits.
drop_zeros_fits :
    (k j m e : ℕ) (w : Acc ◌<◌ m)
    → m ≡ k * 10 ^ j
    → k < thres
    → ((drop_zeros m e w).0 < thres) × ((drop_zeros m e w).1 ≤ e + j)
unfolding drop_zeros
drop_zeros_fits k zero m e (Acc.intro _ smaller) q h = grind arith
drop_zeros_fits k (suc j) m e (Acc.intro _ smaller) q h = grind (
  arith,
  tenths k j,
  λ (p : m / 10 < m). drop_zeros_fits k j (m / 10) (e + 1) (smaller (m / 10) p),
)

pub compose_parts :
    (m e : ℕ)
    → m < thres
    → e ≤ 31
    → (compose m e < 2 ^ 40) × (compose m e % 2 ^ 35 ≡ m) × (compose m e / 2 ^ 35 ≡ e)
compose_parts m e hm he = omega arith

finish_ok :
    (p : ℕ × ℕ) (x : ℕ) → finish p ≡ ok x → (p.0 < thres) × (p.1 ≤ 31) × (x ≡ compose p.0 p.1)
finish_ok (m, e) x h = ground arith

finish_value :
    (p : ℕ × ℕ) (x : ℕ)
    → finish p ≡ ok x
    → (x < 2 ^ 40) × (float40_big_int x ≡ ok (pos (p.0 * 10 ^ p.1)))
finish_value (m, e) x h =
    let (hm, he, q) = finish_ok (m, e) x h in
    let (lt, low, high) = compose_parts m e hm he in
    rw q (lt, float40_big_int_lem (compose m e) lt ∙ rw (low, high))

-- NewFloat40 loses nothing: on a non-negative number, what it returns fits 40 bits and BigInt gives
-- the number back.
pub float40_big_int-new_float40 :
    (f x : ℕ) → new_float40 (pos f) ≡ ok x → (x < 2 ^ 40) × (float40_big_int x ≡ ok (pos f))
unfolding new_float40
float40_big_int-new_float40 f x h =
    let (lt, v) = finish_value (drop_zeros f 0 (lt_wf.apply f)) x h in
    (lt, v ∙ ap (λ (t : ℕ). ok (pos t)) (drop_zeros_value f 0 (lt_wf.apply f) ∙ omega arith))

-- NewFloat40 takes every number m * 10^e with m below 2^35 and e at most 31.
pub new_float40_total :
    (m e : ℕ) → m < thres → e ≤ 31 → (x : ℕ) × (new_float40 (pos (m * 10 ^ e)) ≡ ok x)
unfolding new_float40
new_float40_total m e hm he =
    let f = m * 10 ^ e in
    let d = drop_zeros f 0 (lt_wf.apply f) in
    (compose d.0 d.1, finish_fits d (drop_zeros_fits m e f 0 (lt_wf.apply f) refl hm))
  where
    finish_fits : (d : ℕ × ℕ) → (d.0 < thres) × (d.1 ≤ 0 + e) → finish d ≡ ok (compose d.0 d.1)
    finish_fits (a, b) h = ground arith
