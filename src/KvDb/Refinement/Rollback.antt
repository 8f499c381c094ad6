-- ===== src/KvDb/Refinement/Rollback.antt =====
-- `Reset` and `NewKVDB` (v2/db/kvdb/kvdb.go) go back to a snapshot of the history.
use hermez_node.Prelude.{
  ℕ, zero, suc, ◌+◌, ◌-◌, ◌≤◌, ◌<◌, ◌≡◌, refl, sym, ap, ◌⊎◌, inl, inr, true, none, some, arith,
}
use hermez_node.Prelude.Result.{ok}
use hermez_node.KvDb.{Storage, fresh, Kvdb, get_current_batch, reset, new_kvdb}
use hermez_node.KvDb.Listing.{none_left-Holds, up_to-before, up_to-within}
use hermez_node.KvDb.Restoring.{
  get_current_batch-fresh, get_current_idx-fresh, reset_0, reset_to, trimmed-Holds,
}
use hermez_node.KvDb.History.{History, rollback, Refines, Keeps}
use hermez_node.KvDb.Refinement.Commit.{last_set}

-- A rollback succeeds at 0 and at each batch whose checkpoint is there.
pub rollback_to_0 :
    (k : Kvdb) (h : History)
    → Keeps k.checkpoints k.keep h.batch h.peak h.at
    → ((reset 0 k).0 ≡ ok tt) × Refines (reset 0 k).1 (rollback 0 h)
unfolding rollback
rollback_to_0 k h r = rw (reset_0 k h.at r.first (h.batch + 1 - r.first) 0 r.there refl) (
  refl,
  record {
    disk = record {
      first = 1;
      start = r.start;
      snapshot = λ m le. r.snapshot m (omega arith);
      snapshot_idx = λ m le. r.snapshot_idx m (omega arith);
      there =
          none_left-Holds r.first 1
            (up_to-before r.first (h.batch + 1 - r.first) 0 (omega (arith, r.from_one)))
            (trimmed-Holds k h.at r.first (h.batch + 1 - r.first) 0 r.there);
      from_one = omega arith;
      up_to_now = omega arith;
      present = inl refl;
      window = inl refl;
      peaked = omega arith;
    };
    opened = refl;
    current = ap some (sym r.start);
    batch = refl;
    idx = rw r.start get_current_idx-fresh;
    stored = rw r.start get_current_batch-fresh;
    last = last_set k.no_last k.last (sym r.start);
  },
)

rollback_to_zero :
    (n : ℕ) (k : Kvdb) (h : History)
    → Keeps k.checkpoints k.keep h.batch h.peak h.at
    → n ≡ 0
    → ((reset n k).0 ≡ ok tt) × Refines (reset n k).1 (rollback n h)
rollback_to_zero zero k h r z = rollback_to_0 k h r
rollback_to_zero (suc n) k h r z = absurd (omega arith)

rollback_to_kept :
    (n : ℕ) (k : Kvdb) (h : History) (r : Keeps k.checkpoints k.keep h.batch h.peak h.at)
    → r.first ≤ n
    → n ≤ h.batch
    → ((reset n k).0 ≡ ok tt) × Refines (reset n k).1 (rollback n h)
unfolding rollback
rollback_to_kept n k h r low high =
    let (i, idx_i) = r.snapshot_idx n high in
    rw
      (reset_to k h.at r.first (h.batch + 1 - r.first) n r.there i (omega (arith, r.from_one))
        (ground arith) (r.snapshot n high) idx_i)
      (
        refl,
        record {
          disk = record {
            first = r.first;
            start = r.start;
            snapshot = λ m le. r.snapshot m (omega arith);
            snapshot_idx = λ m le. r.snapshot_idx m (omega arith);
            there =
                rw (← up_to-within n r.first (h.batch + 1 - r.first) low (omega arith))
                  (trimmed-Holds k h.at r.first (h.batch + 1 - r.first) n r.there);
            from_one = r.from_one;
            up_to_now = omega arith;
            present = inr low;
            window = r.window;
            peaked = omega (arith, r.peaked);
          };
          opened = refl;
          current = refl;
          batch = refl;
          idx = idx_i;
          stored = r.snapshot n high;
          last = last_set k.no_last k.last refl;
        },
      )

-- The checkpoint of a batch that is not among the old ones is there.
kept :
    (n : ℕ) (k : Kvdb) (h : History) (r : Keeps k.checkpoints k.keep h.batch h.peak h.at)
    → 0 < n
    → (k.keep ≡ 0) ⊎ (h.peak < n + k.keep)
    → r.first ≤ n
kept n k h r pos_n old = elim r.window [ inl one ↦ omega arith | inr w ↦ omega arith ]

pub rollback-Refines :
    (n : ℕ) (k : Kvdb) (h : History)
    → (n ≡ 0) ⊎ ((n ≤ h.batch) × ((k.keep ≡ 0) ⊎ (h.peak < n + k.keep)))
    → Keeps k.checkpoints k.keep h.batch h.peak h.at
    → ((reset n k).0 ≡ ok tt) × Refines (reset n k).1 (rollback n h)
rollback-Refines zero k h a r = rollback_to_0 k h r
rollback-Refines (suc n) k h (inl z) r = absurd (omega arith)
rollback-Refines (suc n) k h (inr (le, old)) r =
    rollback_to_kept (suc n) k h r (kept (suc n) k h r (omega arith) old) le

-- A process that opens the directories goes back to the last checkpoint.
pub new_kvdb_lem :
    (k : Kvdb) {s : Storage} {b : ℕ}
    → k.current ≡ some s
    → get_current_batch s ≡ ok b
    → new_kvdb k
      ≡ reset b (record k {
        opened = true;
        current = some s;
        last = none;
        current_idx = 0;
        current_batch = b;
      })
unfolding new_kvdb
new_kvdb_lem k c e = ground arith

pub restart-Refines :
    (k : Kvdb) (h : History)
    → Refines k h
    → ((new_kvdb k).0 ≡ ok tt) × Refines (new_kvdb k).1 (rollback h.batch h)
restart-Refines k h r =
    let n : Kvdb = record k {
      opened = true;
      current = some h.now;
      last = none;
      current_idx = 0;
      current_batch = h.batch;
    } in
    rw (new_kvdb_lem k r.current r.stored) (elim r.disk.present [
      | inl z ↦ rollback_to_zero h.batch n h r.disk z
      | inr le ↦ rollback_to_kept h.batch n h r.disk le (omega arith)
    ])

-- Without `current`, the process starts from batch 0.
pub new_kvdb-none :
    (k : Kvdb)
    → k.current ≡ none
    → new_kvdb k
      ≡ reset 0 (record k {
        opened = true;
        current = some fresh;
        last = none;
        current_idx = 0;
        current_batch = 0;
      })
unfolding new_kvdb
new_kvdb-none k c = ground (arith, get_current_batch-fresh)
