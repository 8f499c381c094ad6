-- ===== src/KvDb/History.antt =====
-- What the store of v2/db/kvdb/kvdb.go promises: a history of snapshots, one for each batch, to
-- which it can be rolled back.
use hermez_node.Prelude.{ℕ, ◌+◌, ◌-◌, ◌≤◌, ◌<◌, ◌^◌, ◌≡◌, ◌⊎◌, true, leb, ◌==◌, if◌then◌else◌, some}
use hermez_node.Prelude.Dict.{Dict}
use hermez_node.Prelude.Result.{ok}
use hermez_node.Prelude.Action.{Method}
use hermez_node.Common.Ids.{batch_num_bytes}
use hermez_node.KvDb.{
  Storage, fresh, Kvdb, put, key_current_batch, key_current_idx, get_current_batch, get_current_idx,
  write, set_current_idx, make_checkpoint, delete_old_checkpoints, reset, new_kvdb,
}
use hermez_node.KvDb.Listing.{Holds}
use hermez_node.Bytes.{be}

-- `at n` is the snapshot of batch `n`; `peak` is the last batch that was ever committed.
pub record History : Type 0 where
  pub batch : ℕ
  pub peak : ℕ
  pub at : ℕ → Storage
  pub now : Storage

unfoldable pub commit : History → History
commit h =
    let s = put key_current_batch (batch_num_bytes (h.batch + 1)) h.now in
    record {
      batch = h.batch + 1;
      peak = if leb h.peak h.batch then h.batch + 1 else h.peak;
      at = λ n. if n == h.batch + 1 then s else h.at n;
      now = s;
    }

unfoldable pub rollback : ℕ → History → History
rollback n h = record h { batch = n; now = h.at n }

-- The calls that change a store, and a restart of the process that has it open.
pub data Command : Type 0 where
  checkpoint : Command
  reset_to : ℕ → Command
  set_idx : ℕ → Command
  change : (Storage → Storage) → Command
  forget restart : Command

unfoldable pub run : Command → Method Kvdb (Unit {0})
run checkpoint = make_checkpoint
run (reset_to n) = reset n
run (set_idx i) = set_current_idx i
run (change f) = write f
run forget = delete_old_checkpoints
run restart = new_kvdb

unfoldable pub expected : Command → History → History
unfolding commit rollback
expected checkpoint h = commit h
expected (reset_to n) h = rollback n h
expected (set_idx i) h = record h { now = put key_current_idx (be 6 i) h.now }
expected (change f) h = record h { now = f h.now }
expected forget h = h
expected restart h = rollback h.batch h

-- When a call is bound to succeed: batch numbers stay in range, a rollback goes to a batch that is
-- not among those that may have been forgotten, an Idx has 48 bits, and a write leaves the two keys
-- of the store itself alone.
abbrev pub Allowed : Command → ℕ → History → Type 0
Allowed checkpoint keep h = h.batch + 1 < 2 ^ 63
Allowed (reset_to n) keep h = (n ≡ 0) ⊎ ((n ≤ h.batch) × ((keep ≡ 0) ⊎ (h.peak < n + keep)))
Allowed (set_idx i) keep h = i < 2 ^ 48
Allowed (change f) keep h =
    (f h.now key_current_batch ≡ h.now key_current_batch)
    × (f h.now key_current_idx ≡ h.now key_current_idx)
Allowed forget keep h = Unit
Allowed restart keep h = Unit

-- The checkpoints `d` are the snapshots of the batches from `first` to the present one, and those
-- that are gone are old.
pub record Keeps (d : Dict Storage) (keep batch peak : ℕ) (at : ℕ → Storage) : Type 0 where
  pub first : ℕ
  pub start : at 0 ≡ fresh
  pub snapshot : (n : ℕ) → n ≤ batch → get_current_batch (at n) ≡ ok n
  pub snapshot_idx : (n : ℕ) → n ≤ batch → (i : ℕ) × (get_current_idx (at n) ≡ ok i)
  pub there : Holds d at first (batch + 1 - first)
  pub from_one : 1 ≤ first
  pub up_to_now : first ≤ batch + 1
  pub present : (batch ≡ 0) ⊎ (first ≤ batch)
  pub window : (first ≡ 1) ⊎ ((0 < keep) × (first + keep ≤ peak + 1))
  pub peaked : batch ≤ peak

-- The store `k` implements the history `h`: the open storage is the present one, `last` holds the
-- last snapshot, and the checkpoints are those of `h`.
pub record Refines (k : Kvdb) (h : History) : Type 0 where
  pub disk : Keeps k.checkpoints k.keep h.batch h.peak h.at
  pub opened : k.opened ≡ true
  pub current : k.current ≡ some h.now
  pub batch : k.current_batch ≡ h.batch
  pub idx : get_current_idx h.now ≡ ok k.current_idx
  pub stored : get_current_batch h.now ≡ ok h.batch
  pub last : (k.no_last ≡ true) ⊎ (k.last ≡ some (h.at h.batch))
