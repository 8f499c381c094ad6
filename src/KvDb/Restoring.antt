-- ===== src/KvDb/Restoring.antt =====
-- The keys that v2/db/kvdb/kvdb.go keeps its two numbers under, and what its two resets leave.
use hermez_node.Prelude.{
  ℕ, ◌+◌, ◌-◌, ◌<◌, ◌^◌, ◌≡◌, refl, true, false, ◌==◌, if◌then◌else◌, none, some, arith, ap, ◌∙◌,
}
use hermez_node.Prelude.Dict.{lookup}
use hermez_node.Prelude.Sort.{within, range}
use hermez_node.Prelude.Result.{ok}
use hermez_node.Prelude.Action.{◌>>◌, read, bind_from}
use hermez_node.Common.Ids.{batch_num_bytes}
use hermez_node.Common.Ids.RoundTrip.{batch_num_from_bytes-batch_num_bytes, idx_from_bytes-be}
use hermez_node.Bytes.{be}
use hermez_node.KvDb.{
  open_fresh, set_last, delete_checkpoints, Bytes, Storage, fresh, Kvdb, put, key_current_batch,
  key_current_idx, get_current_batch, get_current_idx, checkpoint_from, restore, reset,
  from_greater, list_checkpoints, rollup_const_reserved_idx,
}
use hermez_node.KvDb.Listing.{
  Holds, list_checkpoints_lem, delete_last, remove_range, up_to, up_to-le, from_greater-range,
}

pub get_current_batch-put :
    (n : ℕ) (s : Storage)
    → n < 2 ^ 64
    → get_current_batch (put key_current_batch (batch_num_bytes n) s) ≡ ok n
unfolding get_current_batch put
get_current_batch-put n s h = batch_num_from_bytes-batch_num_bytes n h

pub get_current_idx-put :
    (i : ℕ) (s : Storage) → i < 2 ^ 48 → get_current_idx (put key_current_idx (be 6 i) s) ≡ ok i
unfolding get_current_idx put
get_current_idx-put i s h = idx_from_bytes-be i h

pub get_current_idx-put_batch :
    (b : Bytes) (s : Storage) → get_current_idx (put key_current_batch b s) ≡ get_current_idx s
unfolding get_current_idx put
get_current_idx-put_batch b s = refl

pub get_current_batch-put_idx :
    (b : Bytes) (s : Storage) → get_current_batch (put key_current_idx b s) ≡ get_current_batch s
unfolding get_current_batch put
get_current_batch-put_idx b s = refl

pub get_current_batch-fresh : get_current_batch fresh ≡ ok 0
unfolding get_current_batch
get_current_batch-fresh = refl

pub get_current_idx-fresh : get_current_idx fresh ≡ ok rollup_const_reserved_idx
unfolding get_current_idx
get_current_idx-fresh = refl

pub checkpoint_from_lem :
    (n : ℕ) (k : Kvdb) {s : Storage} → lookup n k.checkpoints ≡ some s → checkpoint_from n k ≡ ok s
unfolding checkpoint_from
checkpoint_from_lem n k e = ground (arith, e)

-- A storage that holds the numbers `n` and `i` is restored with them.
restore_lem :
    (n : ℕ) (k : Kvdb) {s : Storage} {i : ℕ}
    → lookup n k.checkpoints ≡ some s
    → get_current_batch s ≡ ok n
    → get_current_idx s ≡ ok i
    → restore n k ≡ (
      ok tt,
      record k {
        opened = true;
        current = some s;
        last = if k.no_last then k.last else some s;
        current_idx = i;
        current_batch = n;
      },
    )
unfolding restore
restore_lem n k e b j = ground (arith, checkpoint_from_lem n k e)

-- `reset` to 0, and to a checkpoint that is there.
module _ (k : Kvdb) (at : ℕ → Storage) (first count n : ℕ)
    (h : Holds k.checkpoints at first count) where
  abbrev pub left : ℕ
  left = up_to n first count

  abbrev pub closed : Kvdb
  closed = record k { opened = false; current = none }

  abbrev pub trimmed : Kvdb
  trimmed = record closed { checkpoints = remove_range (first + left) (count - left) k.checkpoints }

  pub reset_from :
      reset n k ≡ (if n == 0 then (do open_fresh; set_last fresh) else restore n) trimmed
  unfolding reset
  reset_from =
      bind_from (read list_checkpoints)
        (λ list. do
          delete_checkpoints (from_greater n list)
          if n == 0 then (do open_fresh; set_last fresh) else restore n)
        closed (ap (λ r. (r, closed)) (list_checkpoints_lem closed at first count h))
      ∙ bind_from (delete_checkpoints (from_greater n (range first count)))
          (λ _. if n == 0 then (do open_fresh; set_last fresh) else restore n) closed
          (rw (from_greater-range n first count)
            (delete_last closed at first count h left (up_to-le n first count)).0)

  pub reset_0 :
      n ≡ 0
      → reset n k ≡ (
        ok tt,
        record trimmed {
          opened = true;
          current = some fresh;
          last = if k.no_last then k.last else some fresh;
          current_idx = rollup_const_reserved_idx;
          current_batch = 0;
        },
      )
  reset_0 z = reset_from ∙ rw z refl

  trimmed_there : within first count n ≡ true → lookup n trimmed.checkpoints ≡ some (at n)
  unfolding up_to
  trimmed_there w =
      ground (arith, (delete_last closed at first count h left (up_to-le n first count)).1.there n)

  pub reset_to :
      (i : ℕ)
      → 0 < n
      → within first count n ≡ true
      → get_current_batch (at n) ≡ ok n
      → get_current_idx (at n) ≡ ok i
      → reset n k ≡ (
        ok tt,
        record trimmed {
          opened = true;
          current = some (at n);
          last = if k.no_last then k.last else some (at n);
          current_idx = i;
          current_batch = n;
        },
      )
  reset_to i pos_n w b j = reset_from ∙ ground (arith, restore_lem n trimmed (trimmed_there w) b j)

  pub trimmed-Holds : Holds trimmed.checkpoints at first left
  trimmed-Holds = (delete_last closed at first count h left (up_to-le n first count)).1
