-- ===== src/KvDb/Refinement/Writes.antt =====
-- Writes between two checkpoints (v2/db/kvdb/kvdb.go).
use hermez_node.Prelude.{ℕ, ◌<◌, ◌^◌, ◌≡◌, refl, ◌∙◌, true, some, arith}
use hermez_node.Prelude.Result.{ok}
use hermez_node.Common.Ids.RoundTrip.{idx_bytes_lem}
use hermez_node.Bytes.{be}
use hermez_node.KvDb.{
  Storage, Kvdb, put, key_current_batch, key_current_idx, get_current_batch, get_current_idx, write,
  set_current_idx,
}
use hermez_node.KvDb.Restoring.{get_current_idx-put, get_current_batch-put_idx}
use hermez_node.KvDb.History.{History, Refines, set_idx, change, expected}

pub write_lem :
    (f : Storage → Storage) (k : Kvdb) {s : Storage}
    → k.opened ≡ true
    → k.current ≡ some s
    → write f k ≡ (ok tt, record k { current = some (f s) })
unfolding write
write_lem f k o c = ground arith

set_current_idx_lem :
    (i : ℕ) (k : Kvdb) {s : Storage}
    → i < 2 ^ 48
    → k.opened ≡ true
    → k.current ≡ some s
    → set_current_idx i k
      ≡ (ok tt, record k { current_idx = i; current = some (put key_current_idx (be 6 i) s) })
unfolding set_current_idx write
set_current_idx_lem i k small o c = ground (arith, idx_bytes_lem i)

pub set_idx-Refines :
    (i : ℕ) (k : Kvdb) (h : History)
    → i < 2 ^ 48
    → Refines k h
    → ((set_current_idx i k).0 ≡ ok tt) × Refines (set_current_idx i k).1 (expected (set_idx i) h)
unfolding expected
set_idx-Refines i k h small r = rw (set_current_idx_lem i k small r.opened r.current) (
  refl,
  record {
    disk = r.disk;
    opened = r.opened;
    current = refl;
    batch = r.batch;
    idx = get_current_idx-put i h.now small;
    stored = get_current_batch-put_idx (be 6 i) h.now ∙ r.stored;
    last = r.last;
  },
)

pub change-Refines :
    (f : Storage → Storage) (k : Kvdb) (h : History)
    → f h.now key_current_batch ≡ h.now key_current_batch
    → f h.now key_current_idx ≡ h.now key_current_idx
    → Refines k h
    → ((write f k).0 ≡ ok tt) × Refines (write f k).1 (expected (change f) h)
unfolding expected
change-Refines f k h same_batch same_idx r = rw (write_lem f k r.opened r.current) (
  refl,
  record {
    disk = r.disk;
    opened = r.opened;
    current = refl;
    batch = r.batch;
    idx = unfold get_current_idx in (rw same_idx r.idx);
    stored = unfold get_current_batch in (rw same_batch r.stored);
    last = r.last;
  },
)
