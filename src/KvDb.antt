-- ===== src/KvDb.antt =====
-- v2/db/kvdb/kvdb.go: the key-value store with checkpoints under every StateDB. The files are those
-- that the code itself makes: the directory `current`, and one directory BatchNum<n> for each
-- checkpoint. A pebble storage is the map from keys to values, both byte strings, that it holds;
-- pebble's Checkpoint copies it. Failures of the file system are left out.
pub mod Listing
pub mod Restoring
pub mod History
pub mod Refinement
pub mod Recovery
pub mod FromSynchronizer
mod Tests
use hermez_node.Prelude.{
  ℕ, zero, suc, ◌+◌, ◌-◌, Bool, true, false, not, ltb, ◌==◌, ◌&&◌, if◌then◌else◌, Option, none,
  some, List, [], ◌∷◌, length, take,
}
use hermez_node.Prelude.Dict.{Dict, lookup, insert, remove, keys}
use hermez_node.Prelude.Sort.{sort_ints}
use hermez_node.Prelude.Result.{
  Result, ok, err, checkpoint_gap, no_checkpoint, no_synchronizer, nil_dereference,
}
use hermez_node.Prelude.Action.{Method, ◌>>=◌, ◌>>◌, pure, throw, read, gets, throw_if, modify}
use hermez_node.Common.Ids.{batch_num_bytes, batch_num_from_bytes, idx_bytes, idx_from_bytes}

abbrev pub Bytes : Type 0
Bytes = List ℕ

unfoldable pub same_bytes : Bytes → Bytes → Bool
same_bytes [] [] = true
same_bytes (x ∷ xs) (y ∷ ys) = x == y && same_bytes xs ys
same_bytes _ _ = false

abbrev pub Storage : Type 0
Storage = Bytes → Option Bytes

-- a storage just made
abbrev pub fresh : Storage
fresh key = none

unfoldable pub put : Bytes → Bytes → Storage → Storage
unfolding same_bytes
put key value s k = if same_bytes k key then some value else s k

-- "k:currentbatch"
abbrev pub key_current_batch : Bytes
key_current_batch =
    b'k' ∷ b':' ∷ b'c' ∷ b'u' ∷ b'r' ∷ b'r' ∷ b'e' ∷ b'n' ∷ b't' ∷ b'b' ∷ b'a' ∷ b't' ∷ b'c' ∷ b'h'
    ∷ []

-- "k:idx"
abbrev pub key_current_idx : Bytes
key_current_idx = b'k' ∷ b':' ∷ b'i' ∷ b'd' ∷ b'x' ∷ []

abbrev pub rollup_const_reserved_idx : ℕ
rollup_const_reserved_idx = 255

-- `KVDB` with its `Config` and its directories: `opened` is `k.db != nil`, and `last` what the
-- storage of `k.last` holds, with nothing if it is not there.
pub record Kvdb : Type 0 where
  pub keep : ℕ
  pub no_gaps_check : Bool
  pub no_last : Bool
  pub opened : Bool
  pub current : Option Storage
  pub checkpoints : Dict Storage
  pub last : Option Storage
  pub current_idx : ℕ
  pub current_batch : ℕ

-- `GetCurrentBatch`, of an open storage
unfoldable pub get_current_batch : Storage → Result ℕ
unfolding batch_num_from_bytes
get_current_batch s = elim (s key_current_batch) [ none ↦ ok 0 | some b ↦ batch_num_from_bytes b ]

-- `GetCurrentIdx`, of an open storage
unfoldable pub get_current_idx : Storage → Result ℕ
unfolding idx_from_bytes
get_current_idx s = elim (s key_current_idx) [
  | none ↦ ok rollup_const_reserved_idx
  | some b ↦ idx_from_bytes b
]

-- the test on neighbours of `ListCheckpoints`
abbrev pub no_gap_after : ℕ → List ℕ → Bool
no_gap_after first [] = true
no_gap_after first (c ∷ cs) = c == first + 1 && no_gap_after (first + 1) cs

abbrev pub no_gap : List ℕ → Bool
no_gap [] = true
no_gap (c ∷ cs) = no_gap_after c cs

-- `ListCheckpoints`
unfoldable pub list_checkpoints : Kvdb → Result (List ℕ)
unfolding sort_ints keys
list_checkpoints k =
    let list = sort_ints (keys k.checkpoints) in
    if not k.no_gaps_check && not (no_gap list) then err checkpoint_gap else ok list

-- `DeleteCheckpoint`
unfoldable pub delete_checkpoint : ℕ → Method Kvdb (Unit {0})
unfolding lookup remove
delete_checkpoint n k = elim (lookup n k.checkpoints) [
  | none ↦ (err no_checkpoint, k)
  | some s ↦ (ok tt, record k { checkpoints = remove n k.checkpoints })
]

-- the loops over DeleteCheckpoint
unfoldable pub delete_checkpoints : List ℕ → Method Kvdb (Unit {0})
delete_checkpoints [] = pure tt
delete_checkpoints (n ∷ ns) = do delete_checkpoint n; delete_checkpoints ns

-- `MakeCheckpointFromTo`, less the writing: what the destination will hold
unfoldable pub checkpoint_from : ℕ → Kvdb → Result Storage
unfolding lookup
checkpoint_from n k = elim (lookup n k.checkpoints) [ none ↦ err no_checkpoint | some s ↦ ok s ]

-- `list[start:]`, after the first loop of `reset`
unfoldable pub from_greater : ℕ → List ℕ → List ℕ
from_greater n [] = []
from_greater n (c ∷ cs) = let rest = from_greater n cs in if ltb n c then c ∷ cs else rest

abbrev pub close_and_remove_current : Method Kvdb (Unit {0})
close_and_remove_current = modify (λ (k : Kvdb). record k { opened = false; current = none })

-- an opened `current` that holds `s`
abbrev pub open_current : Storage → Method Kvdb (Unit {0})
open_current s = modify (λ (k : Kvdb). record k { opened = true; current = some s })

-- the new `current` of batch 0
abbrev pub open_fresh : Method Kvdb (Unit {0})
open_fresh = do
  open_current fresh
  modify (λ (k : Kvdb). record k { current_idx = rollup_const_reserved_idx; current_batch = 0 })

-- `Last.setNew` and `Last.set`, if `k.last != nil`
abbrev pub set_last : Storage → Method Kvdb (Unit {0})
set_last s = modify (λ (k : Kvdb). record k { last = if k.no_last then k.last else some s })

-- the two getters at the end of both resets
abbrev pub load_numbers : Storage → Method Kvdb (Unit {0})
load_numbers s = do
  batch ← read (λ _. get_current_batch s)
  modify (λ (k : Kvdb). record k { current_batch = batch })
  idx ← read (λ _. get_current_idx s)
  modify (λ (k : Kvdb). record k { current_idx = idx })

-- `reset` from checkpoint `batch_num` on, which is not 0
unfoldable pub restore : ℕ → Method Kvdb (Unit {0})
restore batch_num = do
  s ← read (checkpoint_from batch_num)
  modify (λ (k : Kvdb). record k { current = some s })
  set_last s
  open_current s
  load_numbers s

-- `reset` and `Reset`
unfoldable pub reset : ℕ → Method Kvdb (Unit {0})
reset batch_num = do
  close_and_remove_current
  list ← read list_checkpoints
  delete_checkpoints (from_greater batch_num list)
  if batch_num == 0 then (do open_fresh; set_last fresh) else restore batch_num

-- `NewKVDB`, on the directories that are there
unfoldable pub new_kvdb : Method Kvdb (Unit {0})
new_kvdb k =
    let s : Storage = elim k.current [ none ↦ fresh | some s ↦ s ] in
    (do
      open_current s
      modify (λ (n : Kvdb). record n { last = none; current_idx = 0; current_batch = 0 })
      batch ← read (λ _. get_current_batch s)
      modify (λ (n : Kvdb). record n { current_batch = batch })
      reset batch)
      k

-- a write to `k.db`, which panics if that is nil
unfoldable pub write : (Storage → Storage) → Method Kvdb (Unit {0})
write change k =
    if k.opened
    then elim k.current [
      | none ↦ (err nil_dereference, k)
      | some s ↦ (ok tt, record k { current = some (change s) })
    ]
    else (err nil_dereference, k)

-- `SetCurrentIdx`
unfoldable pub set_current_idx : ℕ → Method Kvdb (Unit {0})
set_current_idx idx = do
  modify (λ (k : Kvdb). record k { current_idx = idx })
  opened ← gets (λ (k : Kvdb). k.opened)
  throw_if (not opened) nil_dereference
  b ← read (λ _. idx_bytes idx)
  write (put key_current_idx b)

-- `setCurrentBatch`
unfoldable pub set_current_batch : Method Kvdb (Unit {0})
set_current_batch = do
  batch ← gets (λ (k : Kvdb). k.current_batch)
  write (put key_current_batch (batch_num_bytes batch))

-- the copy of `current` under the number of the batch, in `MakeCheckpoint`
unfoldable pub checkpoint_current : Kvdb → Kvdb
unfolding insert
checkpoint_current k = elim k.current [
  | none ↦ k
  | some s ↦ record k {
    checkpoints = insert k.current_batch s k.checkpoints;
    last = if k.no_last then k.last else some s;
  }
]

-- `MakeCheckpoint`; the deletion of old checkpoints that it starts is a method of its own
unfoldable pub make_checkpoint : Method Kvdb (Unit {0})
make_checkpoint = do
  modify (λ (k : Kvdb). record k { current_batch = k.current_batch + 1 })
  set_current_batch
  modify checkpoint_current

-- `DeleteOldCheckpoints`
unfoldable pub delete_old_checkpoints : Method Kvdb (Unit {0})
delete_old_checkpoints = do
  list ← read list_checkpoints
  keep ← gets (λ (k : Kvdb). k.keep)
  if ltb 0 keep && ltb keep (length list)
      then delete_checkpoints (take (length list - keep) list)
      else pure tt

-- `ResetFromSynchronizer` after the deletions, from checkpoint `batch_num`, which is not 0
unfoldable pub restore_from : ℕ → Kvdb → Method Kvdb (Unit {0})
restore_from batch_num synchronizer = do
  copied ← read (λ _. checkpoint_from batch_num synchronizer)
  modify (λ (k : Kvdb). record k { checkpoints = insert batch_num copied k.checkpoints })
  s ← read (checkpoint_from batch_num)
  open_current s
  load_numbers s

-- `ResetFromSynchronizer`
unfoldable pub reset_from_synchronizer : ℕ → Option Kvdb → Method Kvdb (Unit {0})
reset_from_synchronizer batch_num none = throw no_synchronizer
reset_from_synchronizer batch_num (some synchronizer) = do
  close_and_remove_current
  list ← read list_checkpoints
  delete_checkpoints list
  if batch_num == 0 then open_fresh else restore_from batch_num synchronizer
