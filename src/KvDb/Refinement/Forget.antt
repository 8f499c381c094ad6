-- ===== src/KvDb/Refinement/Forget.antt =====
-- `DeleteOldCheckpoints` (v2/db/kvdb/kvdb.go) leaves the history as it is.
use hermez_node.Prelude.{
  ℕ, ◌+◌, ◌-◌, ◌<◌, ◌≡◌, refl, ◌∙◌, ap, inl, inr, ltb, if◌then◌else◌, arith, length, Bool-cases,
  take, ◌&&◌,
}
use hermez_node.Prelude.Result.{ok}
use hermez_node.Prelude.Sort.{range}
use hermez_node.Prelude.Action.{◌>>=◌, bind_from, read, gets, pure}
use hermez_node.KvDb.{Storage, Kvdb, list_checkpoints, delete_checkpoints, delete_old_checkpoints}
use hermez_node.KvDb.Listing.{
  delete_first, remove_range, list_checkpoints_lem, length-range, take-range, Holds,
}
use hermez_node.KvDb.History.{History, Refines}

-- `DeleteOldCheckpoints` of contiguous checkpoints
forget_lem :
    (k : Kvdb) (at : ℕ → Storage) (first count : ℕ)
    → Holds k.checkpoints at first count
    → delete_old_checkpoints k
      ≡ (if ltb 0 k.keep && ltb k.keep count
            then delete_checkpoints (range first (count - k.keep))
            else pure tt)
          k
unfolding delete_old_checkpoints
forget_lem k at first count h =
    bind_from (read list_checkpoints)
      (λ list. do
        keep ← gets (λ (t : Kvdb). t.keep)
        if ltb 0 keep && ltb keep (length list)
            then delete_checkpoints (take (length list - keep) list)
            else pure tt)
      k (ap (λ r. (r, k)) (list_checkpoints_lem k at first count h))
    ∙ rw (length-range first count, take-range (count - k.keep) first count (omega arith)) refl

-- What is left after the first checkpoints are gone.
forgotten-Refines :
    (k : Kvdb) (h : History) (r : Refines k h)
    → 0 < k.keep
    → k.keep < h.batch + 1 - r.disk.first
    → Refines
        (record k {
          checkpoints =
              remove_range r.disk.first (h.batch + 1 - r.disk.first - k.keep) k.checkpoints;
        })
        h
forgotten-Refines k h r pos_keep more = record {
  disk = record {
    first = r.disk.first + (h.batch + 1 - r.disk.first - k.keep);
    start = r.disk.start;
    snapshot = r.disk.snapshot;
    snapshot_idx = r.disk.snapshot_idx;
    there =
        let c : h.batch + 1 - r.disk.first - (h.batch + 1 - r.disk.first - k.keep)
            ≡ h.batch + 1 - (r.disk.first + (h.batch + 1 - r.disk.first - k.keep)) =
          omega arith in
        rw (← c)
          (delete_first k h.at r.disk.first (h.batch + 1 - r.disk.first) r.disk.there
            (h.batch + 1 - r.disk.first - k.keep) (omega arith)).1;
    from_one = omega (arith, r.disk.from_one);
    up_to_now = omega arith;
    present = inr (omega arith);
    window = inr (pos_keep, omega (arith, r.disk.peaked));
    peaked = r.disk.peaked;
  };
  opened = r.opened;
  current = r.current;
  batch = r.batch;
  idx = r.idx;
  stored = r.stored;
  last = r.last;
}

pub forget-Refines :
    (k : Kvdb) (h : History)
    → Refines k h
    → ((delete_old_checkpoints k).0 ≡ ok tt) × Refines (delete_old_checkpoints k).1 h
forget-Refines k h r =
    let count = h.batch + 1 - r.disk.first in
    rw (forget_lem k h.at r.disk.first count r.disk.there)
      (elim (Bool-cases (ltb 0 k.keep && ltb k.keep count)) [
        | inl more ↦
            rw
              (
                more,
                (delete_first k h.at r.disk.first count r.disk.there (count - k.keep)
                    (omega arith)).0,
              )
              (refl, forgotten-Refines k h r (ground arith) (ground arith))
        | inr few ↦ rw few (refl, r)
      ])
