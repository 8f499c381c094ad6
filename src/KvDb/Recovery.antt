-- ===== src/KvDb/Recovery.antt =====
-- What the resets of v2/db/kvdb/kvdb.go leave when the checkpoint is not there.
use hermez_node.Prelude.{ℕ, ◌+◌, ◌-◌, ◌≤◌, ◌<◌, ◌^◌, ◌≡◌, refl, ◌∙◌, true, false, none, some, arith}
use hermez_node.Prelude.Dict.{lookup}
use hermez_node.Prelude.Sort.{within}
use hermez_node.Prelude.Result.{ok, err, no_checkpoint}
use hermez_node.Prelude.Action.{◌>>◌, modify}
use hermez_node.KvDb.{
  Storage, fresh, Kvdb, checkpoint_from, restore, reset, new_kvdb, write, set_current_batch, put,
  key_current_batch,
}
use hermez_node.Common.Ids.{batch_num_bytes}
use hermez_node.KvDb.Listing.{Holds, up_to-before, up_to}
use hermez_node.KvDb.Restoring.{reset_from, reset_0, trimmed, trimmed-Holds, get_current_batch-put}
use hermez_node.KvDb.History.{History, Refines}
use hermez_node.KvDb.Refinement.Rollback.{new_kvdb_lem, new_kvdb-none}

restore_missing :
    (n : ℕ) (k : Kvdb) → lookup n k.checkpoints ≡ none → restore n k ≡ (err no_checkpoint, k)
unfolding restore checkpoint_from
restore_missing n k e = ground (arith, e)

module _ (k : Kvdb) (at : ℕ → Storage) (first count n : ℕ)
    (h : Holds k.checkpoints at first count) where
  trimmed_missing :
      within first count n ≡ false → lookup n (trimmed k at first count n h).checkpoints ≡ none
  unfolding up_to
  trimmed_missing w = ground (arith, (trimmed-Holds k at first count n h).there n)

  reset_missing_lem :
      0 < n
      → within first count n ≡ false
      → reset n k ≡ (err no_checkpoint, trimmed k at first count n h)
  reset_missing_lem pos_n w =
      reset_from k at first count n h
      ∙ ground (arith, restore_missing n (trimmed k at first count n h) (trimmed_missing w))

-- A reset to a batch other than 0 whose checkpoint is not there, in a directory with the checkpoints
-- of the `count` batches from `first` on, is refused, but only after the open storage has been closed
-- and removed; the checkpoints up to that batch are left.
pub reset_missing :
    (k : Kvdb) (at : ℕ → Storage) (first count n : ℕ)
    → Holds k.checkpoints at first count
    → 0 < n
    → within first count n ≡ false
    → ((reset n k).0 ≡ err no_checkpoint)
      × ((reset n k).1.opened ≡ false)
      × ((reset n k).1.current ≡ none)
      × Holds (reset n k).1.checkpoints at first (up_to n first count)
reset_missing k at first count n h pos_n w =
    rw (reset_missing_lem k at first count n h pos_n w)
      (refl, refl, refl, trimmed-Holds k at first count n h)

-- `MakeCheckpoint` up to its write of the new number, where a crash may stop it
unfoldable pub interrupted_checkpoint : Kvdb → Kvdb
interrupted_checkpoint k =
    ((do modify (λ (t : Kvdb). record t { current_batch = t.current_batch + 1 }); set_current_batch)
      k).1

interrupted_lem :
    (k : Kvdb) (h : History)
    → Refines k h
    → interrupted_checkpoint k ≡ record k {
      current_batch = h.batch + 1;
      current = some (put key_current_batch (batch_num_bytes (h.batch + 1)) h.now);
    }
unfolding interrupted_checkpoint set_current_batch write
interrupted_lem k h r = ground (arith, r.opened, r.current, r.batch)

start_again :
    (k : Kvdb) (at : ℕ → Storage) (first count n : ℕ)
    → k.current ≡ none
    → Holds k.checkpoints at first count
    → 1 ≤ first
    → ((new_kvdb k).0 ≡ ok tt)
      × ((new_kvdb k).1.current_batch ≡ 0)
      × (lookup n (new_kvdb k).1.checkpoints ≡ none)
start_again k at first count n c h one =
    let empty : Kvdb = record k {
      opened = true;
      current = some fresh;
      last = none;
      current_idx = 0;
      current_batch = 0;
    } in
    rw (new_kvdb-none k c) (
      rw (reset_0 empty at first count 0 h refl) (
        refl,
        refl,
        ground (
          arith,
          (trimmed-Holds empty at first count 0 h).there n,
          up_to-before first count 0 one,
        ),
      ))

-- A process that stops in MakeCheckpoint after the new number is written and before the checkpoint
-- is: the next start is refused, having removed the open storage, and the start after it gives the
-- store of batch 0, with no checkpoint left.
pub interrupted_restart :
    (k : Kvdb) (h : History) (n : ℕ)
    → Refines k h
    → h.batch + 1 < 2 ^ 63
    → ((new_kvdb (interrupted_checkpoint k)).0 ≡ err no_checkpoint)
      × ((new_kvdb (new_kvdb (interrupted_checkpoint k)).1).0 ≡ ok tt)
      × ((new_kvdb (new_kvdb (interrupted_checkpoint k)).1).1.current_batch ≡ 0)
      × (lookup n (new_kvdb (new_kvdb (interrupted_checkpoint k)).1).1.checkpoints ≡ none)
interrupted_restart k h n r small =
    let s : Storage = put key_current_batch (batch_num_bytes (h.batch + 1)) h.now in
    let half : Kvdb = record k { current_batch = h.batch + 1; current = some s } in
    let opened : Kvdb = record half { opened = true; last = none; current_idx = 0 } in
    let count : ℕ = h.batch + 1 - r.disk.first in
    let left : Kvdb = trimmed opened h.at r.disk.first count (h.batch + 1) r.disk.there in
    let again =
      start_again left h.at r.disk.first (up_to (h.batch + 1) r.disk.first count) n refl
        (trimmed-Holds opened h.at r.disk.first count (h.batch + 1) r.disk.there) r.disk.from_one in
    rw (interrupted_lem k h r) (
      rw
        (
          new_kvdb_lem half refl (get_current_batch-put (h.batch + 1) h.now (omega arith)),
          reset_missing_lem opened h.at r.disk.first count (h.batch + 1) r.disk.there (omega arith)
              (ground arith),
        )
        (refl, again.0, again.1, again.2))
