-- ===== src/KvDb/Tests.antt =====
-- The store of v2/db/kvdb/kvdb.go on a few calls.
use hermez_node.Prelude.{
  ◌+◌, ◌-◌, ◌≡◌, refl, true, false, none, some, [], inr, arith, ◌==◌, if◌then◌else◌,
}
use hermez_node.Prelude.Dict.{lookup, insert}
use hermez_node.Prelude.Sort.{range, sort_ints, insert_int, elem}
use hermez_node.Prelude.Result.{ok, err, no_checkpoint}
use hermez_node.KvDb.{
  delete_checkpoints, delete_checkpoint, from_greater, restore, write, checkpoint_current,
  delete_old_checkpoints, same_bytes, checkpoint_from, Kvdb, new_kvdb, reset, list_checkpoints, put,
  get_current_batch, get_current_idx, reset_from_synchronizer, key_current_batch, fresh,
}
use hermez_node.Common.Ids.{batch_num_bytes, batch_num_from_bytes}
use hermez_node.Bytes.{be, from_be}
use hermez_node.KvDb.History.{History, Refines, checkpoint, reset_to, run, expected, commit}
use hermez_node.KvDb.Refinement.{
  Reach, opened, called, empty_directory, empty_history, run-Refines, Reach-Refines,
}
use hermez_node.KvDb.Recovery.{reset_missing, interrupted_checkpoint, interrupted_restart}
use hermez_node.KvDb.FromSynchronizer.{reset_from_synchronizer_lem}
use hermez_node.KvDb.Listing.{Holds, up_to}

abbrev store_0 : Kvdb
store_0 = (new_kvdb (empty_directory 2 false false)).1

abbrev store_1 : Kvdb
store_1 = (run checkpoint store_0).1

abbrev history_1 : History
history_1 = expected checkpoint empty_history

reached_1 : Reach 2 false false store_1 history_1
reached_1 = called checkpoint opened (omega arith)

Refines-1 : Refines store_1 history_1
Refines-1 = (Reach-Refines 2 false false store_1 history_1 reached_1).0

abbrev store_2 : Kvdb
store_2 = (run checkpoint store_1).1

abbrev history_2 : History
history_2 = expected checkpoint history_1

reached_2 : Reach 2 false false store_2 history_2
unfolding expected commit
reached_2 = called checkpoint reached_1 (omega arith)

Refines-2 : Refines store_2 history_2
Refines-2 = (Reach-Refines 2 false false store_2 history_2 reached_2).0

store_2-keep : store_2.keep ≡ 2
unfolding run new_kvdb reset list_checkpoints delete_checkpoints delete_checkpoint from_greater
    restore hermez_node.KvDb.make_checkpoint hermez_node.KvDb.set_current_batch write
    checkpoint_current delete_old_checkpoints get_current_batch get_current_idx put same_bytes
    sort_ints insert_int range elem lookup insert batch_num_bytes batch_num_from_bytes be from_be
    checkpoint_from
store_2-keep = refl

-- The second of two checkpoints is undone.
run-Refines_example :
    ((run (reset_to 1) store_2).0 ≡ ok tt)
    × Refines (run (reset_to 1) store_2).1 (expected (reset_to 1) history_2)
unfolding expected commit
run-Refines_example =
    run-Refines (reset_to 1) store_2 history_2
      (inr (omega arith, inr (omega (arith, store_2-keep)))) Refines-2

Reach-Refines_example :
    (r : Refines store_1 history_1) × (list_checkpoints store_1
      ≡ ok (range r.disk.first (history_1.batch + 1 - r.disk.first)))
Reach-Refines_example = Reach-Refines 2 false false store_1 history_1 reached_1

interrupted_restart_example :
    ((new_kvdb (interrupted_checkpoint store_1)).0 ≡ err no_checkpoint)
    × ((new_kvdb (new_kvdb (interrupted_checkpoint store_1)).1).0 ≡ ok tt)
    × ((new_kvdb (new_kvdb (interrupted_checkpoint store_1)).1).1.current_batch ≡ 0)
    × (lookup 1 (new_kvdb (new_kvdb (interrupted_checkpoint store_1)).1).1.checkpoints ≡ none)
unfolding expected commit
interrupted_restart_example = interrupted_restart store_1 history_1 1 Refines-1 (omega arith)

-- A store whose only checkpoint is that of batch 5.
abbrev store_5 : Kvdb
store_5 = record (empty_directory 2 false true) {
  checkpoints = insert 5 (put key_current_batch (batch_num_bytes 5) fresh) [];
}

store_5-Holds : Holds store_5.checkpoints (λ _. put key_current_batch (batch_num_bytes 5) fresh) 5 1
unfolding lookup insert
store_5-Holds = record { distinct = (refl, tt); there = λ m. ground arith }

reset_missing_example :
    ((reset 6 store_5).0 ≡ err no_checkpoint)
    × ((reset 6 store_5).1.opened ≡ false)
    × ((reset 6 store_5).1.current ≡ none)
    × Holds
        (reset 6 store_5).1.checkpoints
        (λ _. put key_current_batch (batch_num_bytes 5) fresh)
        5
        (up_to 6 5 1)
reset_missing_example =
    reset_missing store_5 (λ _. put key_current_batch (batch_num_bytes 5) fresh) 5 1 6 store_5-Holds
      (omega arith) refl

abbrev reset_store : Kvdb
reset_store = (reset_from_synchronizer 5 (some store_5) (empty_directory 2 false true)).1

empty_directory-Holds : Holds (empty_directory 2 false true).checkpoints (λ _. fresh) 1 0
unfolding lookup
empty_directory-Holds = record { distinct = tt; there = λ m. ground arith }

reset_from_synchronizer_lem_example :
    ((reset_from_synchronizer 5 (some store_5) (empty_directory 2 false true)).0 ≡ ok tt)
    × (reset_store.opened ≡ true)
    × (reset_store.current ≡ some (put key_current_batch (batch_num_bytes 5) fresh))
    × (reset_store.current_batch ≡ 5)
    × (reset_store.current_idx ≡ 255)
    × (lookup 5 reset_store.checkpoints
        ≡ (if 5 == 5 then some (put key_current_batch (batch_num_bytes 5) fresh) else none))
unfolding lookup insert get_current_batch put batch_num_bytes batch_num_from_bytes be from_be
    get_current_idx
reset_from_synchronizer_lem_example =
    reset_from_synchronizer_lem (empty_directory 2 false true) store_5 (λ _. fresh) 1 0 5 255 5
      (put key_current_batch (batch_num_bytes 5) fresh) empty_directory-Holds (omega arith) refl
      refl refl
