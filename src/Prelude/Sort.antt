-- ===== src/Prelude/Sort.antt =====
-- Go's sort.Ints, as an insertion sort, and which list it gives.
use Prim.Native.Nat.{ℕ, zero, suc, ◌+◌, ◌<◌}
use mathlib.Core.Path.{◌≡◌, refl, ap, ◌∙◌, sym}
use mathlib.Core.Logic.{inl, inr}
use mathlib.Core.Bool.{Bool, true, false, ◌&&◌, ◌||◌}
use mathlib.Core.Option.{Option, none, some}
use mathlib.Core.List.{List, [], ◌∷◌}
use native.Mathlib.Omega.{arith}
use hermez_node.Prelude.Tests.{◌==◌, ltb, leb, if◌then◌else◌, Bool-cases, ==_iff}
use hermez_node.Prelude.Lists.{All}
use hermez_node.Prelude.Dict.{Dict, lookup, keys, Distinct}

unfoldable pub insert_int : ℕ → List ℕ → List ℕ
insert_int x [] = x ∷ []
insert_int x (y ∷ ys) = let rest = insert_int x ys in if leb x y then x ∷ y ∷ ys else y ∷ rest

-- `sort.Ints`
unfoldable pub sort_ints : List ℕ → List ℕ
unfolding insert_int
sort_ints [] = []
sort_ints (x ∷ xs) = insert_int x (sort_ints xs)

unfoldable pub elem : ℕ → List ℕ → Bool
elem k [] = false
elem k (x ∷ xs) = x == k || elem k xs

-- The `count` numbers from `first` on.
unfoldable pub range : ℕ → ℕ → List ℕ
range first zero = []
range first (suc count) = first ∷ range (first + 1) count

-- `x` stands in [first, first + count).
abbrev pub within : ℕ → ℕ → ℕ → Bool
within first count x = leb first x && ltb x (first + count)

abbrev pub is_some {ℓ} : {V : Type ℓ} → Option V → Bool
is_some none = false
is_some (some v) = true

abbrev Increasing : List ℕ → Type 0
Increasing [] = Unit
Increasing (x ∷ xs) = All (λ y. x < y) xs × Increasing xs

elem-insert_int : (k x : ℕ) (ys : List ℕ) → elem k (insert_int x ys) ≡ (x == k || elem k ys)
unfolding elem insert_int
elem-insert_int k x [] = refl
elem-insert_int k x (y ∷ ys) = ground (arith, elem-insert_int k x ys)

elem-sort_ints : (k : ℕ) (xs : List ℕ) → elem k (sort_ints xs) ≡ elem k xs
unfolding elem sort_ints
elem-sort_ints k [] = refl
elem-sort_ints k (x ∷ xs) =
    elem-insert_int k x (sort_ints xs) ∙ ap (λ b. x == k || b) (elem-sort_ints k xs)

elem-keys {ℓ} : {V : Type ℓ} (k : ℕ) (d : Dict V) → elem k (keys d) ≡ is_some (lookup k d)
unfolding elem keys lookup
elem-keys k [] = refl
elem-keys k ((j, v) ∷ d) = ground (arith, elem-keys k d)

insert_int-All_lt :
    (z x : ℕ) (ys : List ℕ) → z < x → All (λ y. z < y) ys → All (λ y. z < y) (insert_int x ys)
unfolding insert_int
insert_int-All_lt z x [] h a = (h, tt)
insert_int-All_lt z x (y ∷ ys) h a = ground (arith, insert_int-All_lt z x ys h a.1)

All-lt_weaken : (z x : ℕ) (ys : List ℕ) → z < x → All (λ y. x < y) ys → All (λ y. z < y) ys
All-lt_weaken z x [] h a = tt
All-lt_weaken z x (y ∷ ys) h a = (omega arith, All-lt_weaken z x ys h a.1)

insert_int-Increasing :
    (x : ℕ) (ys : List ℕ) → elem x ys ≡ false → Increasing ys → Increasing (insert_int x ys)
unfolding elem insert_int
insert_int-Increasing x [] h s = (tt, tt)
insert_int-Increasing x (y ∷ ys) h s =
    ground (arith, insert_int-Increasing x ys, insert_int-All_lt y x ys, All-lt_weaken x y ys)

sort_ints-Increasing {ℓ} : {V : Type ℓ} (d : Dict V) → Distinct d → Increasing (sort_ints (keys d))
unfolding sort_ints keys
sort_ints-Increasing [] h = tt
sort_ints-Increasing ((j, v) ∷ d) h =
    insert_int-Increasing j (sort_ints (keys d))
      (elem-sort_ints j (keys d) ∙ elem-keys j d ∙ ap is_some h.0) (sort_ints-Increasing d h.1)

elem-All_lt : (z k : ℕ) (ys : List ℕ) → All (λ y. z < y) ys → elem k ys ≡ true → z < k
unfolding elem
elem-All_lt z k [] a h = cc
elem-All_lt z k (y ∷ ys) a h = ground (arith, elem-All_lt z k ys a.1)

not_elem-All_lt : (k : ℕ) (ys : List ℕ) → All (λ y. k < y) ys → elem k ys ≡ false
not_elem-All_lt k ys a = elim (Bool-cases (elem k ys)) [
  | inl h ↦ absurd (omega (arith, elem-All_lt k k ys a h))
  | inr h ↦ h
]

within_tail :
    (x first count m : ℕ) (xs : List ℕ)
    → first ≡ x
    → All (λ y. x < y) xs
    → (x == m || elem m xs) ≡ within first (suc count) m
    → elem m xs ≡ within (first + 1) count m
within_tail x first count m xs e a h = elim (Bool-cases (x == m)) [
  | inl same ↦
      ground (arith, not_elem-All_lt x xs a, ap (λ (z : ℕ). elem z xs) (sym ((==_iff x m).0 same)))
  | inr other ↦ ground arith
]

-- The increasing list of the numbers of an interval.
Increasing-range :
    (xs : List ℕ) (first count : ℕ)
    → Increasing xs
    → ((m : ℕ) → elem m xs ≡ within first count m)
    → xs ≡ range first count
unfolding elem range
Increasing-range [] first zero s h = refl
Increasing-range [] first (suc count) s h = ground (arith, h first)
Increasing-range (x ∷ xs) first zero s h = ground (arith, h x)
Increasing-range (x ∷ xs) first (suc count) s h =
    let e : first ≡ x = ground (arith, h first, h x, elem-All_lt x first xs s.0) in
    let rest : xs ≡ range (first + 1) count =
      Increasing-range xs (first + 1) count s.1 (λ m. within_tail x first count m xs e s.0 (h m)) in
    cc

-- The keys of a map that has exactly those of an interval, in order.
pub sort_ints-keys {ℓ} :
    {V : Type ℓ} (d : Dict V) (first count : ℕ)
    → Distinct d
    → ((m : ℕ) → is_some (lookup m d) ≡ within first count m)
    → sort_ints (keys d) ≡ range first count
sort_ints-keys d first count one h =
    Increasing-range (sort_ints (keys d)) first count (sort_ints-Increasing d one)
      (λ m. elem-sort_ints m (keys d) ∙ elem-keys m d ∙ h m)
