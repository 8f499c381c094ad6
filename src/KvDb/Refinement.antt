-- ===== src/KvDb/Refinement.antt =====
-- The store of v2/db/kvdb/kvdb.go implements a history of snapshots.
pub mod Commit
pub mod Rollback
pub mod Writes
pub mod Forget
use hermez_node.Prelude.{
  ℕ, ◌+◌, ◌-◌, ◌≡◌, Bool, true, false, some, ◌≤◌, zero, suc, none, [], refl, arith, inl,
}
use hermez_node.Prelude.Dict.{lookup}
use hermez_node.Prelude.Sort.{range}
use hermez_node.KvDb.Listing.{list_checkpoints_lem, Holds}
use hermez_node.KvDb.Restoring.{get_current_batch-fresh, get_current_idx-fresh}
use hermez_node.Prelude.Result.{ok}
use hermez_node.KvDb.{Storage, fresh, rollup_const_reserved_idx, Kvdb, new_kvdb, list_checkpoints}
use hermez_node.KvDb.History.{
  History, Refines, Keeps, rollback, Command, checkpoint, reset_to, set_idx, change, forget,
  restart, run, expected, Allowed,
}
use hermez_node.KvDb.Refinement.Commit.{commit-Refines}
use hermez_node.KvDb.Refinement.Rollback.{
  new_kvdb-none, rollback_to_0, rollback-Refines, restart-Refines,
}
use hermez_node.KvDb.Refinement.Writes.{set_idx-Refines, change-Refines}
use hermez_node.KvDb.Refinement.Forget.{forget-Refines}

-- Every call that is bound to succeed does so, and it leaves a store that implements the history
-- that the call is meant to leave: a checkpoint adds a snapshot of the present storage, a reset goes
-- back to the snapshot of its batch, a write changes the present storage only, the deletion of old
-- checkpoints changes nothing, and a restart loses what was written since the last checkpoint. Bound
-- to succeed are: a checkpoint while batch numbers stay below 2^63, a reset to 0 or to a batch up to
-- the present one that is among the last `Keep` that were ever made (any, if `Keep` is 0), a write
-- of an Idx below 2^48, a write that leaves the two keys of the store itself alone, the deletion of
-- old checkpoints, and a restart.
pub run-Refines :
    (c : Command) (k : Kvdb) (h : History)
    → Allowed c k.keep h
    → Refines k h
    → ((run c k).0 ≡ ok tt) × Refines (run c k).1 (expected c h)
unfolding run expected
run-Refines checkpoint k h allowed r = commit-Refines k h allowed r
run-Refines (reset_to n) k h allowed r = rollback-Refines n k h allowed r.disk
run-Refines (set_idx i) k h allowed r = set_idx-Refines i k h allowed r
run-Refines (change f) k h allowed r = change-Refines f k h allowed.0 allowed.1 r
run-Refines forget k h allowed r = forget-Refines k h r
run-Refines restart k h allowed r = restart-Refines k h r

-- No batch yet.
abbrev pub empty_history : History
empty_history = record { batch = 0; peak = 0; at = λ _. fresh; now = fresh }

-- A directory with nothing in it, under some configuration.
abbrev pub empty_directory : ℕ → Bool → Bool → Kvdb
empty_directory keep no_gaps_check no_last = record {
  keep = keep;
  no_gaps_check = no_gaps_check;
  no_last = no_last;
  opened = false;
  current = none;
  checkpoints = [];
  last = none;
  current_idx = 0;
  current_batch = 0;
}

-- The stores that the calls lead to from an empty directory, each with its history.
pub data Reach (keep : ℕ) (no_gaps_check no_last : Bool) : Kvdb → History → Type 0 where
  opened :
      Reach keep no_gaps_check no_last
        (new_kvdb (empty_directory keep no_gaps_check no_last)).1
        empty_history
  called :
      {k : Kvdb} {h : History} (c : Command)
      → Reach keep no_gaps_check no_last k h
      → Allowed c k.keep h
      → Reach keep no_gaps_check no_last (run c k).1 (expected c h)

zero_of_le : (m : ℕ) → m ≤ 0 → m ≡ 0
zero_of_le m le = omega arith

new-Refines :
    (keep : ℕ) (no_gaps_check no_last : Bool)
    → Refines (new_kvdb (empty_directory keep no_gaps_check no_last)).1 empty_history
unfolding lookup rollback
new-Refines keep no_gaps_check no_last =
    let n : Kvdb = record (empty_directory keep no_gaps_check no_last) {
      opened = true;
      current = some fresh;
    } in
    let disk : Keeps [] keep 0 0 (λ _. fresh) = record {
      first = 1;
      start = refl;
      snapshot = λ m le. rw (zero_of_le m le) get_current_batch-fresh;
      snapshot_idx = λ m le. (rollup_const_reserved_idx, get_current_idx-fresh);
      there = record { distinct = tt; there = λ m. ground arith };
      from_one = omega arith;
      up_to_now = omega arith;
      present = inl refl;
      window = inl refl;
      peaked = omega arith;
    } in
    rw (new_kvdb-none (empty_directory keep no_gaps_check no_last) refl)
      (rollback_to_0 n empty_history disk).1

Refines-of :
    (keep : ℕ) (no_gaps_check no_last : Bool) {k : Kvdb} {h : History}
    → Reach keep no_gaps_check no_last k h
    → Refines k h
Refines-of keep no_gaps_check no_last opened = new-Refines keep no_gaps_check no_last
Refines-of keep no_gaps_check no_last (called {k} {h} c reached allowed) =
    (run-Refines c k h allowed (Refines-of keep no_gaps_check no_last reached)).1

-- Every store that is reached from an empty directory by calls that are bound to succeed implements
-- its history; and it lists its checkpoints, which are those of the batches from some batch on up to
-- the present one, in order and without a gap.
pub Reach-Refines :
    (keep : ℕ) (no_gaps_check no_last : Bool) (k : Kvdb) (h : History)
    → Reach keep no_gaps_check no_last k h
    → (r : Refines k h) × (list_checkpoints k
        ≡ ok (range r.disk.first (h.batch + 1 - r.disk.first)))
Reach-Refines keep no_gaps_check no_last k h reached =
    let r = Refines-of keep no_gaps_check no_last reached in
    (r, list_checkpoints_lem k h.at r.disk.first (h.batch + 1 - r.disk.first) r.disk.there)
