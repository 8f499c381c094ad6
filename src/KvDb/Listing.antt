-- ===== src/KvDb/Listing.antt =====
-- Which checkpoints a directory holds (v2/db/kvdb/kvdb.go), and what listing and deleting do then.
use hermez_node.Prelude.{
  ℕ, zero, suc, ◌+◌, ◌-◌, ◌≤◌, ◌<◌, ◌≡◌, refl, ap, ◌∙◌, Bool, true, false, leb, ◌==◌, if◌then◌else◌,
  none, some, length, take, arith, lt_or_le, inl, inr, ◌⊎◌, Option-cases, not, ◌&&◌,
}
use hermez_node.Prelude.Dict.{
  Dict, lookup, insert, remove, lookup-insert, lookup-remove, Distinct, insert-Distinct,
  remove-Distinct,
}
use hermez_node.Prelude.Sort.{range, within, is_some, sort_ints-keys}
use hermez_node.Prelude.Result.{ok, err, checkpoint_gap}
use hermez_node.Prelude.Action.{bind_from}
use hermez_node.KvDb.{
  Storage, Kvdb, no_gap, no_gap_after, list_checkpoints, delete_checkpoint, delete_checkpoints,
  from_greater,
}

-- Exactly the checkpoints of the `count` batches from `first` on are there, each with its snapshot.
pub record Holds (d : Dict Storage) (at : ℕ → Storage) (first count : ℕ) : Type 0 where
  pub distinct : Distinct d
  pub there : (m : ℕ) → lookup m d ≡ (if within first count m then some (at m) else none)

is_some_if : (b : Bool) (s : Storage) → is_some (if b then some s else none) ≡ b
is_some_if true s = refl
is_some_if false s = refl

no_gap-range : (first count : ℕ) → no_gap_after first (range (first + 1) count) ≡ true
unfolding range
no_gap-range first zero = refl
no_gap-range first (suc count) = ground (arith, no_gap-range (first + 1) count)

listed :
    (b : Bool) (first count : ℕ)
    → (if not b && not (no_gap (range first count))
        then err checkpoint_gap
        else ok (range first count))
      ≡ ok (range first count)
unfolding range
listed b first zero = ground arith
listed b first (suc count) = ground (arith, no_gap-range first count)

-- Without a gap the list is returned, in order.
pub list_checkpoints_lem :
    (k : Kvdb) (at : ℕ → Storage) (first count : ℕ)
    → Holds k.checkpoints at first count
    → list_checkpoints k ≡ ok (range first count)
unfolding list_checkpoints
list_checkpoints_lem k at first count h =
    rw
      (sort_ints-keys k.checkpoints first count h.distinct
        (λ m. ap is_some (h.there m) ∙ is_some_if (within first count m) (at m)))
      (listed k.no_gaps_check first count)

pub remove_range : ℕ → ℕ → Dict Storage → Dict Storage
remove_range b zero d = d
remove_range b (suc c) d = remove_range (b + 1) c (remove b d)

lookup-remove_range :
    (m b c : ℕ) (d : Dict Storage)
    → lookup m (remove_range b c d) ≡ (if within b c m then none else lookup m d)
unfolding remove_range
lookup-remove_range m b zero d = ground arith
lookup-remove_range m b (suc c) d =
    ground (arith, lookup-remove_range m (b + 1) c (remove b d), lookup-remove b m d)

remove_range-Distinct : (b c : ℕ) (d : Dict Storage) → Distinct d → Distinct (remove_range b c d)
unfolding remove_range
remove_range-Distinct b zero d h = h
remove_range-Distinct b (suc c) d h =
    remove_range-Distinct (b + 1) c (remove b d) (remove-Distinct b d h)

-- A checkpoint that is there is deleted.
pub delete_checkpoint_lem :
    (n : ℕ) (k : Kvdb) (s : Storage)
    → lookup n k.checkpoints ≡ some s
    → delete_checkpoint n k ≡ (ok tt, record k { checkpoints = remove n k.checkpoints })
unfolding delete_checkpoint
delete_checkpoint_lem n k s e = ground (arith, e)

delete_range :
    (k : Kvdb) (b c : ℕ)
    → ((m : ℕ) → within b c m ≡ true → is_some (lookup m k.checkpoints) ≡ true)
    → delete_checkpoints (range b c) k
      ≡ (ok tt, record k { checkpoints = remove_range b c k.checkpoints })
unfolding delete_checkpoints range remove_range
delete_range k b zero h = refl
delete_range k b (suc c) h = elim (Option-cases (lookup b k.checkpoints)) [
  | inl e ↦ ground (arith, h b)
  | inr (s, e) ↦
      bind_from (delete_checkpoint b) (λ _. delete_checkpoints (range (b + 1) c)) k
        (delete_checkpoint_lem b k s e)
      ∙ delete_range (record k { checkpoints = remove b k.checkpoints }) (b + 1) c
          (λ m w. ground (arith, h m, lookup-remove b m k.checkpoints))
]

-- Deleting the last or the first of them leaves the others.
module _ (k : Kvdb) (at : ℕ → Storage) (first count : ℕ)
    (h : Holds k.checkpoints at first count) where
  deleted :
      (b c : ℕ)
      → first ≤ b
      → b + c ≤ first + count
      → delete_checkpoints (range b c) k
        ≡ (ok tt, record k { checkpoints = remove_range b c k.checkpoints })
  deleted b c low high = delete_range k b c (λ m w. ground (arith, h.there m))

  pub delete_last :
      (left : ℕ)
      → left ≤ count
      → delete_checkpoints (range (first + left) (count - left)) k ≡ (
        ok tt,
        record k { checkpoints = remove_range (first + left) (count - left) k.checkpoints },
      )
        × Holds (remove_range (first + left) (count - left) k.checkpoints) at first left
  delete_last left le = (
    deleted (first + left) (count - left) (omega arith) (omega arith),
    record {
      distinct = remove_range-Distinct (first + left) (count - left) k.checkpoints h.distinct;
      there = λ m.
          ground
            (arith, lookup-remove_range m (first + left) (count - left) k.checkpoints, h.there m);
    },
  )

  pub delete_first :
      (gone : ℕ)
      → gone ≤ count
      → delete_checkpoints (range first gone) k
          ≡ (ok tt, record k { checkpoints = remove_range first gone k.checkpoints })
        × Holds (remove_range first gone k.checkpoints) at (first + gone) (count - gone)
  delete_first gone le = (
    deleted first gone (omega arith) (omega arith),
    record {
      distinct = remove_range-Distinct first gone k.checkpoints h.distinct;
      there = λ m. ground (arith, lookup-remove_range m first gone k.checkpoints, h.there m);
    },
  )

  pub insert-Holds :
      (s : Storage)
      → Holds
          (insert (first + count) s k.checkpoints)
          (λ m. if m == first + count then s else at m)
          first
          (count + 1)
  insert-Holds s = record {
    distinct = insert-Distinct (first + count) s k.checkpoints h.distinct;
    there = λ m. ground (arith, lookup-insert (first + count) m s k.checkpoints, h.there m);
  }

-- How many of the checkpoints from `first` on are at most `n`.
unfoldable pub up_to : ℕ → ℕ → ℕ → ℕ
up_to n first count = if leb count (n + 1 - first) then count else n + 1 - first

pub up_to-le : (n first count : ℕ) → up_to n first count ≤ count
unfolding up_to
up_to-le n first count = ground arith

up_to_low : (n first count : ℕ) → (up_to n first count ≡ 0) ⊎ (first + up_to n first count ≤ n + 1)
unfolding up_to
up_to_low n first count = elim (lt_or_le n first) [
  | inl below ↦ inl (ground arith)
  | inr more ↦ inr (ground arith)
]

up_to_high :
    (n first count : ℕ) → (count - up_to n first count ≡ 0) ⊎ (n < first + up_to n first count)
unfolding up_to
up_to_high n first count = elim (lt_or_le n (first + count)) [
  | inl inside ↦ inr (ground arith)
  | inr beyond ↦ inl (ground arith)
]

from_greater-parts :
    (n first left rest count : ℕ)
    → left + rest ≡ count
    → (left ≡ 0) ⊎ (first + left ≤ n + 1)
    → (rest ≡ 0) ⊎ (n < first + left)
    → from_greater n (range first count) ≡ range (first + left) rest
unfolding from_greater range
from_greater-parts n first zero zero zero e low high = refl
from_greater-parts n first zero zero (suc count) e low high = absurd (omega arith)
from_greater-parts n first zero (suc rest) zero e low high = absurd (omega arith)
from_greater-parts n first zero (suc rest) (suc count) e low high = ground arith
from_greater-parts n first (suc left) rest zero e low high = absurd (omega arith)
from_greater-parts n first (suc left) rest (suc count) e low high =
    ground (arith, from_greater-parts n (first + 1) left rest count)

pub up_to-before : (first count n : ℕ) → n < first → up_to n first count ≡ 0
unfolding up_to
up_to-before first count n h = ground arith

pub up_to-within :
    (n first count : ℕ) → first ≤ n → n < first + count → up_to n first count ≡ n + 1 - first
unfolding up_to
up_to-within n first count low high = ground arith

pub none_left-Holds :
    {d : Dict Storage} {at : ℕ → Storage} {count : ℕ} (first other : ℕ)
    → count ≡ 0
    → Holds d at first count
    → Holds d at other 0
none_left-Holds first other z h = record {
  distinct = h.distinct;
  there = λ m. ground (arith, h.there m);
}

pub from_greater-range :
    (n first count : ℕ)
    → from_greater n (range first count)
      ≡ range (first + up_to n first count) (count - up_to n first count)
unfolding up_to
from_greater-range n first count =
    from_greater-parts n first (up_to n first count) (count - up_to n first count) count
      (ground arith) (up_to_low n first count) (up_to_high n first count)

pub take-range : (n first count : ℕ) → n ≤ count → take n (range first count) ≡ range first n
unfolding range
take-range zero first count h = refl
take-range (suc n) first zero h = absurd (omega arith)
take-range (suc n) first (suc count) h = ground (arith, take-range n (first + 1) count)

pub length-range : (first count : ℕ) → length (range first count) ≡ count
unfolding range
length-range first zero = refl
length-range first (suc count) = omega (arith, length-range (first + 1) count)
