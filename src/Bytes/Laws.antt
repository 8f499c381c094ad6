-- ===== src/Bytes/Laws.antt =====
-- Big-endian numbers and slices: lengths, round trips, and slices of concatenations.
use hermez_node.Prelude.{
  ℕ, zero, suc, ◌+◌, ◌*◌, ◌/◌, ◌%◌, ◌^◌, ◌<◌, ◌≡◌, refl, ap, ◌∙◌, List, [], ◌∷◌, length, All, arith,
  replicate,
}
use native.Mathlib.Nat.{
  pow-suc, mod-eq-sub-mul-div, mul-div-le, div-div-eq-div-mul, div-add-mod, mod-eq_of_lt, le_trans,
  mul-add-div_right, div-eq_of_lt,
}
use hermez_node.Bytes.{IsByte, be, from_be_acc, from_be, copy}

pub length-be : (w v : ℕ) → length (be w v) ≡ w
unfolding be
length-be zero v = refl
length-be (suc w) v = ap suc (length-be w v)

pub be-IsByte : (w v : ℕ) → All IsByte (be w v)
unfolding be
be-IsByte zero v = tt
be-IsByte (suc w) v = (omega arith, be-IsByte w v)

pub pow_pos : (w : ℕ) → 0 < 256 ^ w
pow_pos zero = omega arith
pow_pos (suc w) = rw pow-suc (omega (arith, pow_pos w))

-- Splitting off the byte above the `m` lowest.
split_mod : (v m : ℕ) → v % (m * 256) ≡ v / m % 256 * m + v % m
split_mod v m = omega (
  arith,
  mod-eq-sub-mul-div v (m * 256),
  mul-div-le v (m * 256),
  div-div-eq-div-mul v m 256,
  div-add-mod v m,
  ap (λ (t : ℕ). m * t) (div-add-mod (v / m) 256),
  ap (λ (t : ℕ). m * 256 * t) (div-div-eq-div-mul v m 256),
)

pub from_be_acc-be : (w acc v : ℕ) → from_be_acc acc (be w v) ≡ acc * 256 ^ w + v % 256 ^ w
unfolding be
from_be_acc-be zero acc v = omega arith
from_be_acc-be (suc w) acc v =
    from_be_acc-be w (acc * 256 + v / 256 ^ w % 256) v
    ∙ rw pow-suc (omega (arith, split_mod v (256 ^ w)))

-- Reading back what was written gives the number, modulo the width.
pub from_be-be : (w v : ℕ) → from_be (be w v) ≡ v % 256 ^ w
unfolding from_be
from_be-be w v = from_be_acc-be w 0 v ∙ omega arith

pub from_be-be_of_lt : (w v : ℕ) → v < 256 ^ w → from_be (be w v) ≡ v
from_be-be_of_lt w v h = from_be-be w v ∙ mod-eq_of_lt h

pub from_be_acc_lt :
    (bs : List ℕ) (acc : ℕ) → All IsByte bs → from_be_acc acc bs < (acc + 1) * 256 ^ length bs
from_be_acc_lt [] acc h = omega arith
from_be_acc_lt (b ∷ bs) acc (hb, hs) =
    rw pow-suc (le_trans (from_be_acc_lt bs (acc * 256 + b) hs) (grind arith))

pub from_be-lt : (bs : List ℕ) → All IsByte bs → from_be bs < 256 ^ length bs
unfolding from_be
from_be-lt bs h = omega (arith, from_be_acc_lt bs 0 h)

-- The digits of a number that was read are the bytes that were read.
be_digits : (acc b m x : ℕ) → b < 256 → x < m → ((acc * 256 + b) * m + x) / m % 256 ≡ b
be_digits acc b m x hb hx =
    ap (λ (t : ℕ). t % 256) (mul-add-div_right (omega arith) (acc * 256 + b) x)
    ∙ rw (div-eq_of_lt hx) (omega arith)

from_be_acc_split :
    (bs : List ℕ) (acc : ℕ) → from_be_acc acc bs ≡ acc * 256 ^ length bs + from_be_acc 0 bs
from_be_acc_split [] acc = omega arith
from_be_acc_split (b ∷ bs) acc =
    rw pow-suc
      (omega (arith, from_be_acc_split bs (acc * 256 + b), from_be_acc_split bs (0 * 256 + b)))

be-from_be_acc : (bs : List ℕ) (acc : ℕ) → All IsByte bs → be (length bs) (from_be_acc acc bs) ≡ bs
unfolding be from_be
be-from_be_acc [] acc h = refl
be-from_be_acc (b ∷ bs) acc (hb, hs) = rw (
  be-from_be_acc bs (acc * 256 + b) hs,
  from_be_acc_split bs (acc * 256 + b),
  be_digits acc b (256 ^ length bs) (from_be_acc 0 bs) hb (from_be-lt bs hs),
)

pub be-from_be : (bs : List ℕ) → All IsByte bs → be (length bs) (from_be bs) ≡ bs
unfolding from_be
be-from_be bs h = be-from_be_acc bs 0 h

-- A copy over a buffer of the source's own length is the source.
pub copy-zeros : (n : ℕ) (b : List ℕ) → length b ≡ n → copy (replicate n 0) b ≡ b
unfolding copy
copy-zeros zero [] h = refl
copy-zeros zero (x ∷ b) h = absurd (omega arith)
copy-zeros (suc n) [] h = absurd (omega arith)
copy-zeros (suc n) (x ∷ b) h = ap (λ (r : List ℕ). x ∷ r) (copy-zeros n b (omega arith))
