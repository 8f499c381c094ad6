-- ===== src/KvDb/Refinement/Commit.antt =====
-- `MakeCheckpoint` (v2/db/kvdb/kvdb.go) adds the next snapshot to the history.
use hermez_node.Prelude.{
  ℕ, ◌+◌, ◌-◌, ◌≤◌, ◌<◌, ◌^◌, ◌≡◌, refl, ◌∙◌, ap, ◌⊎◌, inl, inr, Bool, true, Option, false, ◌==◌,
  if◌then◌else◌, some, arith, Bool-cases, ==_iff,
}
use hermez_node.Prelude.Result.{ok}
use hermez_node.Prelude.Dict.{insert}
use hermez_node.Common.Ids.{batch_num_bytes}
use hermez_node.KvDb.{
  Storage, Kvdb, put, key_current_batch, get_current_batch, get_current_idx, write,
  set_current_batch, checkpoint_current, make_checkpoint,
}
use hermez_node.KvDb.Listing.{Holds, insert-Holds}
use hermez_node.KvDb.Restoring.{get_current_batch-put, get_current_idx-put_batch}
use hermez_node.KvDb.History.{History, commit, Refines}

pub last_set :
    (no_last : Bool) (l : Option Storage) {s t : Storage}
    → s ≡ t
    → (no_last ≡ true) ⊎ ((if no_last then l else some s) ≡ some t)
last_set true l e = inl refl
last_set false l e = inr (ap some e)

-- What `MakeCheckpoint` leaves of an open store.
abbrev checkpointed : ℕ → Storage → Kvdb → Kvdb
checkpointed n t k = record k {
  current = some t;
  current_batch = n;
  checkpoints = insert n t k.checkpoints;
  last = if k.no_last then k.last else some t;
}

make_checkpoint_lem :
    (k : Kvdb) {s : Storage} {b : ℕ}
    → k.opened ≡ true
    → k.current ≡ some s
    → k.current_batch ≡ b
    → make_checkpoint k
      ≡ (ok tt, checkpointed (b + 1) (put key_current_batch (batch_num_bytes (b + 1)) s) k)
unfolding make_checkpoint set_current_batch checkpoint_current write
make_checkpoint_lem k o c e = ground arith

commit-snapshot :
    (k : Kvdb) (h : History) (n : ℕ)
    → Refines k h
    → h.batch + 1 < 2 ^ 63
    → n ≤ h.batch + 1
    → get_current_batch ((commit h).at n) ≡ ok n
unfolding commit
commit-snapshot k h n r small le = elim (Bool-cases (n == h.batch + 1)) [
  | inl new ↦
      rw (new, (==_iff n (h.batch + 1)).0 new)
        (get_current_batch-put (h.batch + 1) h.now (omega arith))
  | inr old ↦ rw old (r.disk.snapshot n (ground arith))
]

commit-snapshot_idx :
    (k : Kvdb) (h : History) (n : ℕ)
    → Refines k h
    → n ≤ h.batch + 1
    → (i : ℕ) × (get_current_idx ((commit h).at n) ≡ ok i)
unfolding commit
commit-snapshot_idx k h n r le = elim (Bool-cases (n == h.batch + 1)) [
  | inl new ↦
      rw new
        (k.current_idx, get_current_idx-put_batch (batch_num_bytes (h.batch + 1)) h.now ∙ r.idx)
  | inr old ↦ rw old (r.disk.snapshot_idx n (ground arith))
]

commit-Holds :
    (k : Kvdb) (h : History) (r : Refines k h)
    → Holds
        (insert
          (h.batch + 1)
          (put key_current_batch (batch_num_bytes (h.batch + 1)) h.now)
          k.checkpoints)
        (commit h).at
        r.disk.first
        (h.batch + 1 + 1 - r.disk.first)
unfolding commit
commit-Holds k h r =
    let e : r.disk.first + (h.batch + 1 - r.disk.first) ≡ h.batch + 1 =
      omega (arith, r.disk.up_to_now) in
    let c : h.batch + 1 - r.disk.first + 1 ≡ h.batch + 1 + 1 - r.disk.first =
      omega (arith, r.disk.up_to_now) in
    rw (← c) (
      rw e at (
        insert-Holds k h.at r.disk.first (h.batch + 1 - r.disk.first) r.disk.there
          (put key_current_batch (batch_num_bytes (h.batch + 1)) h.now)))

pub commit-Refines :
    (k : Kvdb) (h : History)
    → h.batch + 1 < 2 ^ 63
    → Refines k h
    → ((make_checkpoint k).0 ≡ ok tt) × Refines (make_checkpoint k).1 (commit h)
unfolding commit
commit-Refines k h small r = rw (make_checkpoint_lem k r.opened r.current r.batch) (
  refl,
  record {
    disk = record {
      first = r.disk.first;
      start = ground (arith, r.disk.start);
      snapshot = λ n le. commit-snapshot k h n r small le;
      snapshot_idx = λ n le. commit-snapshot_idx k h n r le;
      there = commit-Holds k h r;
      from_one = r.disk.from_one;
      up_to_now = omega arith;
      present = inr r.disk.up_to_now;
      window = elim r.disk.window [ inl all ↦ inl all | inr w ↦ inr (w.0, ground arith) ];
      peaked = ground (arith, r.disk.peaked);
    };
    opened = r.opened;
    current = refl;
    batch = refl;
    idx = get_current_idx-put_batch (batch_num_bytes (h.batch + 1)) h.now ∙ r.idx;
    stored = get_current_batch-put (h.batch + 1) h.now (omega arith);
    last = last_set k.no_last k.last (ground arith);
  },
)
