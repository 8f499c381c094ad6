-- ===== src/KvDb/FromSynchronizer.antt =====
-- `ResetFromSynchronizer` (v2/db/kvdb/kvdb.go): the stores of the TxSelector and of the BatchBuilder
-- take over a checkpoint of the synchronizer's.
use hermez_node.Prelude.{
  ℕ, ◌<◌, ◌≡◌, refl, ap, ◌∙◌, true, false, ◌==◌, if◌then◌else◌, none, some, arith,
}
use hermez_node.Prelude.Dict.{lookup, insert, lookup-insert}
use hermez_node.Prelude.Sort.{range}
use hermez_node.Prelude.Result.{ok}
use hermez_node.Prelude.Action.{◌>>◌, read, bind_from}
use hermez_node.KvDb.{
  Storage, Kvdb, get_current_batch, get_current_idx, list_checkpoints, delete_checkpoints,
  restore_from, reset_from_synchronizer, open_fresh,
}
use hermez_node.KvDb.Listing.{Holds, list_checkpoints_lem, delete_first, remove_range}
use hermez_node.KvDb.Restoring.{checkpoint_from_lem}

module _ (k : Kvdb) (at : ℕ → Storage) (first count n : ℕ) (h : Holds k.checkpoints at first count)
    (synchronizer : Kvdb) where
  abbrev cleared : Kvdb
  cleared = record k {
    opened = false;
    current = none;
    checkpoints = remove_range first count k.checkpoints;
  }

  cleared_from :
      reset_from_synchronizer n (some synchronizer) k
      ≡ (if n == 0 then open_fresh else restore_from n synchronizer) cleared
  unfolding reset_from_synchronizer
  cleared_from =
      bind_from (read list_checkpoints)
        (λ list. do
          delete_checkpoints list
          if n == 0 then open_fresh else restore_from n synchronizer)
        (record k { opened = false; current = none })
        (ap (λ r. (r, record k { opened = false; current = none }))
          (list_checkpoints_lem (record k { opened = false; current = none }) at first count h))
      ∙ bind_from (delete_checkpoints (range first count))
          (λ _. if n == 0 then open_fresh else restore_from n synchronizer)
          (record k { opened = false; current = none })
          (delete_first (record k { opened = false; current = none }) at first count h count
            (omega arith)).0

  cleared_none : (m : ℕ) → lookup m cleared.checkpoints ≡ none
  cleared_none m = ground (arith, (delete_first k at first count h count (omega arith)).1.there m)

restored_from :
    (n : ℕ) (k synchronizer : Kvdb) {s : Storage} {i : ℕ}
    → lookup n synchronizer.checkpoints ≡ some s
    → get_current_batch s ≡ ok n
    → get_current_idx s ≡ ok i
    → restore_from n synchronizer k ≡ (
      ok tt,
      record k {
        opened = true;
        current = some s;
        checkpoints = insert n s k.checkpoints;
        current_idx = i;
        current_batch = n;
      },
    )
unfolding restore_from
restored_from n k synchronizer {s} e b j = ground (
  arith,
  checkpoint_from_lem n synchronizer e,
  checkpoint_from_lem n (record k { checkpoints = insert n s k.checkpoints }) {s = s},
  lookup-insert n n s k.checkpoints,
)

-- A store with contiguous checkpoints that is reset to a batch other than 0 of which the synchronizer
-- has a checkpoint, with its two numbers in it, has afterwards that storage open, its two numbers, and
-- exactly one checkpoint: that one.
pub reset_from_synchronizer_lem :
    (k synchronizer : Kvdb) (at : ℕ → Storage) (first count n i m : ℕ) (s : Storage)
    → Holds k.checkpoints at first count
    → 0 < n
    → lookup n synchronizer.checkpoints ≡ some s
    → get_current_batch s ≡ ok n
    → get_current_idx s ≡ ok i
    → ((reset_from_synchronizer n (some synchronizer) k).0 ≡ ok tt)
      × ((reset_from_synchronizer n (some synchronizer) k).1.opened ≡ true)
      × ((reset_from_synchronizer n (some synchronizer) k).1.current ≡ some s)
      × ((reset_from_synchronizer n (some synchronizer) k).1.current_batch ≡ n)
      × ((reset_from_synchronizer n (some synchronizer) k).1.current_idx ≡ i)
      × (lookup m (reset_from_synchronizer n (some synchronizer) k).1.checkpoints
          ≡ (if n == m then some s else none))
reset_from_synchronizer_lem k synchronizer at first count n i m s h pos_n e b j =
    let c : Kvdb = cleared k at first count n h synchronizer in
    let test : (n == 0) ≡ false = ground arith in
    rw (cleared_from k at first count n h synchronizer, test, restored_from n c synchronizer e b j)
      (
        refl,
        refl,
        refl,
        refl,
        refl,
        ground (
          arith,
          lookup-insert n m s c.checkpoints,
          cleared_none k at first count n h synchronizer m,
        ),
      )
