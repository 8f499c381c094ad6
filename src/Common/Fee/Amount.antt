-- ===== src/Common/Fee/Amount.antt =====
-- The fee of v2/common/fee.go as a function of amount and selector.
use native.Mathlib.Nat.{
  mul-le-mul, mul-le-mul_left, div-le_of_le-mul, le_trans, le_of_lt, le_refl, add-zero,
}
use hermez_node.Prelude.{
  lt_or_le, ◌⊎◌, inl, inr, ℕ, zero, suc, ◌+◌, ◌-◌, ◌*◌, ◌/◌, ◌^◌, ◌<◌, ◌≤◌, ◌≡◌, refl, ◌∙◌, ap, sym,
  Bool, true, false, none, some, ltb, ◌==◌, if◌then◌else◌, get_elem?, arith, all_below,
  all_below_sound, Option-cases, inl, inr, Bool-cases, ltb→lt, ==_iff,
}
use hermez_node.Prelude.Int.{ℤ, pos, ◌≤ℤ◌}
use hermez_node.Prelude.Result.{ok}
use hermez_node.Common.Fee.{fee_with_factor, check_bits, calc_fee_amount}
use hermez_node.Common.Fee.Table.{fee_factor_lsh60}

-- The factor of a selector in units of 2^-60, also where the table holds it unshifted.
pub scaled_factor : ℕ → ℕ
scaled_factor k = elim (get_elem? fee_factor_lsh60 k) [
  | none ↦ 0
  | some f ↦ if ltb k 192 then f else f * 2 ^ 60
]

in_table : ℕ → Bool
in_table k = elim (get_elem? fee_factor_lsh60 k) [ none ↦ false | some _ ↦ true ]

table_full : all_below 256 in_table ≡ true
unfolding all_below in_table
table_full = refl

table_steps : all_below 255 (λ k. ltb (scaled_factor k) (scaled_factor (k + 1))) ≡ true
unfolding all_below scaled_factor
table_steps = refl

table_low : all_below 192 (λ k. ltb (scaled_factor k) (2 ^ 60)) ≡ true
unfolding all_below scaled_factor
table_low = refl

table_high : all_below 64 (λ k. scaled_factor (k + 192) == 2 ^ k * 2 ^ 60) ≡ true
unfolding all_below scaled_factor
table_high = refl

unscale : (a f : ℕ) → a * (f * 2 ^ 60) / 2 ^ 60 ≡ a * f
unscale a f = omega arith

-- On a non-negative amount the fee is the amount times the scaled factor, rounded down.
pub calc_fee_amount_lem :
    (a k : ℕ)
    → k < 256
    → calc_fee_amount (pos a) k ≡ check_bits (pos (a * scaled_factor k / 2 ^ 60))
unfolding calc_fee_amount fee_with_factor scaled_factor in_table
calc_fee_amount_lem a k h = elim (Option-cases (get_elem? fee_factor_lsh60 k)) [
  | inl missing ↦ cc (rw (missing, in_table) at (all_below_sound 256 in_table k table_full h))
  | inr (f, e) ↦ rw e (elim (Bool-cases (ltb k 192)) [
    | inl low ↦ rw low
    | inr high ↦ rw high (ap (λ (t : ℕ). check_bits (pos t)) (sym (unscale a f)))
  ])
]

check_bits_ok : (n : ℕ) (f : ℤ) → check_bits (pos n) ≡ ok f → (f ≡ pos n) × (n < 2 ^ 128)
check_bits_ok n f h = ground arith

scaled_low : (k : ℕ) → k < 192 → scaled_factor k < 2 ^ 60
scaled_low k h =
    ltb→lt _ _ (all_below_sound 192 (λ j. ltb (scaled_factor j) (2 ^ 60)) k table_low h)

scaled_high : (k : ℕ) → k < 64 → scaled_factor (k + 192) ≡ 2 ^ k * 2 ^ 60
scaled_high k h =
    (==_iff _ _).0
      (all_below_sound 64 (λ j. scaled_factor (j + 192) == 2 ^ j * 2 ^ 60) k table_high h)

-- A fee that CalcFeeAmount gives for a non-negative amount and a selector below 256 is non-
-- negative and fits 128 bits. Below selector 192 it is at most the amount; from there on it is the
-- amount times 2^(selector - 192).
pub calc_fee_amount_bounds :
    (a k : ℕ) (f : ℤ)
    → k < 256
    → calc_fee_amount (pos a) k ≡ ok f
    → (n : ℕ) × (f ≡ pos n)
      × (n < 2 ^ 128)
      × (((k < 192) × (n ≤ a)) ⊎ ((192 ≤ k) × (n ≡ a * 2 ^ (k - 192))))
calc_fee_amount_bounds a k f hk h =
    let (e, bits) = check_bits_ok _ f (sym (calc_fee_amount_lem a k hk) ∙ h) in
    (a * scaled_factor k / 2 ^ 60, e, bits, by_selector (lt_or_le k 192))
  where
    low : k < 192 → a * scaled_factor k / 2 ^ 60 ≤ a
    low lt =
        div-le_of_le-mul (2 ^ 60)
          (le_trans (mul-le-mul_left a (le_of_lt (scaled_low k lt))) (omega arith))

    high : 192 ≤ k → a * scaled_factor k / 2 ^ 60 ≡ a * 2 ^ (k - 192)
    high le =
        ap (λ (t : ℕ). a * t / 2 ^ 60)
          (ap scaled_factor (omega arith) ∙ scaled_high (k - 192) (omega arith))
        ∙ unscale a (2 ^ (k - 192))

    by_selector :
        (k < 192) ⊎ (192 ≤ k)
        → ((k < 192) × (a * scaled_factor k / 2 ^ 60 ≤ a))
          ⊎ ((192 ≤ k) × (a * scaled_factor k / 2 ^ 60 ≡ a * 2 ^ (k - 192)))
    by_selector (inl lt) = inl (lt, low lt)
    by_selector (inr le) = inr (le, high le)

scaled_step : (k : ℕ) → k < 255 → scaled_factor k ≤ scaled_factor (k + 1)
scaled_step k h = le_of_lt (
    ltb→lt _ _
      (all_below_sound 255 (λ j. ltb (scaled_factor j) (scaled_factor (j + 1))) k table_steps h))

scaled_mono : (i d : ℕ) → i + d < 256 → scaled_factor i ≤ scaled_factor (i + d)
scaled_mono i zero h = rw add-zero (le_refl _)
scaled_mono i (suc d) h =
    let e : i + suc d ≡ i + d + 1 = omega arith in
    rw e (le_trans (scaled_mono i d (omega arith)) (scaled_step (i + d) (omega arith)))

-- On non-negative amounts, a selector below 256 that is higher and an amount that is higher never
-- give a lower fee, where both fees are given.
pub calc_fee_amount_mono :
    (a b i j : ℕ) (f g : ℤ)
    → a ≤ b
    → i ≤ j
    → j < 256
    → calc_fee_amount (pos a) i ≡ ok f
    → calc_fee_amount (pos b) j ≡ ok g
    → f ≤ℤ g
calc_fee_amount_mono a b i j f g hab hij hj hf hg =
    let (ef, _) = check_bits_ok _ f (sym (calc_fee_amount_lem a i (omega arith)) ∙ hf) in
    let (eg, _) = check_bits_ok _ g (sym (calc_fee_amount_lem b j hj) ∙ hg) in
    rw (ef, eg) (omega (arith, mul-le-mul hab steps))
  where
    steps : scaled_factor i ≤ scaled_factor j
    steps = let e : i + (j - i) ≡ j = omega arith in rw e at (scaled_mono i (j - i) (omega arith))
