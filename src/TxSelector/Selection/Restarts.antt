-- ===== src/TxSelector/Selection/Restarts.antt =====
-- The jumps back to START_SELECTION of `getL1L2TxSelection` (v2/txselector/txselector.go) end.
use hermez_node.Prelude.{
  ℕ, zero, suc, ◌+◌, ◌≤◌, ◌<◌, ◌≡◌, ◌≢◌, refl, ap, ◌∙◌, Bool, true, false, ◌==◌, ◌||◌,
  if◌then◌else◌, List, [], ◌∷◌, ◌++◌, none, some, arith, length,
}
use hermez_node.Prelude.Result.{Result, ok, err}
use hermez_node.Common.L1Tx.{L1Tx}
use hermez_node.TxProcessor.State.{State}
use hermez_node.TxSelector.{PoolTx, Env}
use hermez_node.TxSelector.Loop.{
  Loop, FailedGroup, Outcome, done, group_failed, failed, process_l2_txs,
}
use hermez_node.TxSelector.Groups.{Runtime, filter_failed_atomic_groups, find_failed, sort_l2_txs}
use hermez_node.TxSelector.Selection.{
  Selection, Selected, finished, restart, aborted, out_of_fuel, start_pass, add_pass, discard_all,
  passes, selectable, unselectable, attempt, select_from, start_selection, process_l1_user_txs,
}
use hermez_node.TxSelector.Selection.Failing.{
  AllGood, process_l2_txs-GoodGroup, process_l2_txs-AllGood,
}
use hermez_node.TxSelector.Selection.Order.{
  IsFaithful, filter_invalid_atomic_groups-AllGood, sort_l2_txs-AllGood,
}
use hermez_node.TxSelector.Selection.Passes.{passes-ne-out_of_fuel}

-- A group that fails in the selection loop is one of the given transactions'.
passes-GoodGroup :
    (good : ℕ → Bool) (env : Env) (n_user fuel : ℕ) (txs : List PoolTx) (sel : Selection)
    (g : FailedGroup)
    → AllGood good txs
    → passes fuel env n_user txs sel ≡ restart g
    → (good g.id ≡ true) × (g.id ≢ 0)
unfolding passes
passes-GoodGroup good env n_user zero txs sel g a e = absurd (ground arith)
passes-GoodGroup good env n_user (suc fuel) txs sel g a e =
    by_outcome (λ rest last h z. passes-GoodGroup good env n_user fuel rest last g h z)
      (process_l2_txs env txs (start_pass n_user sel)) refl e
  where
    by_selected :
        ((rest : List PoolTx) (last : Selection)
          → AllGood good rest
          → passes fuel env n_user rest last ≡ restart g
          → (good g.id ≡ true) × (g.id ≢ 0))
        → (l : Loop) (picked : List PoolTx) → AllGood good l.non_selected
        → (elim picked [
          | [] ↦ finished (discard_all l.non_selected (add_pass l sel))
          | t ∷ ts ↦ passes fuel env n_user l.non_selected (add_pass l sel)
        ])
          ≡ restart g
        → (good g.id ≡ true) × (g.id ≢ 0)
    by_selected again l [] h z = absurd (ground arith)
    by_selected again l (t ∷ ts) h z = again l.non_selected (add_pass l sel) h z

    by_outcome :
        ((rest : List PoolTx) (last : Selection)
          → AllGood good rest
          → passes fuel env n_user rest last ≡ restart g
          → (good g.id ≡ true) × (g.id ≢ 0))
        → (o : Outcome) → process_l2_txs env txs (start_pass n_user sel) ≡ o
        → (elim o [
          | group_failed x ↦ restart x
          | failed w ↦ aborted w
          | done l ↦ elim l.selected [
            | [] ↦ finished (discard_all l.non_selected (add_pass l sel))
            | t ∷ ts ↦ passes fuel env n_user l.non_selected (add_pass l sel)
          ]
        ])
          ≡ restart g
        → (good g.id ≡ true) × (g.id ≢ 0)
    by_outcome again (group_failed x) q z =
        process_l2_txs-GoodGroup good env txs (start_pass n_user sel) g a (q ∙ ap group_failed cc)
    by_outcome again (failed w) q z = absurd (ground arith)
    by_outcome again (done l) q z =
        by_selected again l l.selected
          (process_l2_txs-AllGood good env txs (start_pass n_user sel) l a tt q) z

-- Some transaction is of the group.
abbrev occurs : List PoolTx → ℕ → Bool
occurs [] id = false
occurs (t ∷ ts) id = t.atomic_group_id == id || occurs ts id

AllGood-imp :
    (p q : ℕ → Bool) (txs : List PoolTx)
    → ((id : ℕ) → p id ≡ true → q id ≡ true)
    → AllGood p txs
    → AllGood q txs
AllGood-imp p q [] k h = tt
AllGood-imp p q (t ∷ ts) k h = (k t.atomic_group_id h.0, AllGood-imp p q ts k h.1)

AllGood-occurs : (txs : List PoolTx) → AllGood (occurs txs) txs
AllGood-occurs [] = tt
AllGood-occurs (t ∷ ts) = (
  ground arith,
  AllGood-imp (occurs ts) (occurs (t ∷ ts)) ts (λ id h. ground arith) (AllGood-occurs ts),
)

find_failed-append :
    (id : ℕ) (fs : List FailedGroup) (g : FailedGroup)
    → find_failed id (fs ++ (g ∷ []))
      ≡ elim (find_failed id fs) [ none ↦ if g.id == id then some g else none | some f ↦ some f ]
unfolding find_failed
find_failed-append id [] g = refl
find_failed-append id (f ∷ fs) g = ground (arith, find_failed-append id fs g)

module _ (fs : List FailedGroup) (g : FailedGroup) where
  abbrev kept : List PoolTx → List FailedGroup → List PoolTx
  kept pool failures = (filter_failed_atomic_groups pool failures).0

  -- One more failed group leaves no more transactions, and fewer if one of its is there.
  kept_le : (pool : List PoolTx) → length (kept pool (fs ++ (g ∷ []))) ≤ length (kept pool fs)
  unfolding filter_failed_atomic_groups
  kept_le [] = omega arith
  kept_le (t ∷ ts) = ground (arith, kept_le ts, find_failed-append t.atomic_group_id fs g)

  kept_lt :
      (pool : List PoolTx)
      → g.id ≢ 0
      → occurs (kept pool fs) g.id ≡ true
      → length (kept pool (fs ++ (g ∷ []))) < length (kept pool fs)
  unfolding filter_failed_atomic_groups
  kept_lt [] n h = absurd (ground arith)
  kept_lt (t ∷ ts) n h =
      ground (arith, kept_le ts, kept_lt ts n, find_failed-append t.atomic_group_id fs g)

module _ (env : Env) (rt : List FailedGroup → Runtime) (pool : List PoolTx)
    (l1_user_txs : List L1Tx) (s : State) where
  abbrev survivors : List FailedGroup → List PoolTx
  survivors failures = (filter_failed_atomic_groups pool failures).0

  -- what an attempt does with the transactions that it can select
  abbrev pub choose : List FailedGroup → State → List PoolTx → Selected
  choose failures s' txs = elim txs [
    | [] ↦ finished (start_selection s' (unselectable env rt pool l1_user_txs s failures))
    | t ∷ ts ↦
        let sorted = sort_l2_txs (rt failures) (selectable env rt pool l1_user_txs s failures) in
        passes (length sorted + 1) env (length l1_user_txs) sorted
          (start_selection s' (unselectable env rt pool l1_user_txs s failures))
  ]

  abbrev pub with_l1 : List FailedGroup → Result State → Selected
  with_l1 failures r = elim r [
    | err e ↦ aborted e
    | ok s' ↦ choose failures s' (selectable env rt pool l1_user_txs s failures)
  ]

  attempt-restart :
      (failures : List FailedGroup) (g : FailedGroup)
      → ((failures : List FailedGroup) (good : ℕ → Bool) → IsFaithful good (rt failures))
      → attempt env rt pool l1_user_txs s failures ≡ restart g
      → (occurs (survivors failures) g.id ≡ true) × (g.id ≢ 0)
  unfolding attempt
  attempt-restart failures g faithful e = by_l1 (process_l1_user_txs l1_user_txs s) e
    where
      good_there :
          AllGood
            (occurs (survivors failures))
            (sort_l2_txs (rt failures) (selectable env rt pool l1_user_txs s failures))
      good_there =
          sort_l2_txs-AllGood (occurs (survivors failures)) (rt failures)
            (faithful failures (occurs (survivors failures)))
            (selectable env rt pool l1_user_txs s failures)
            (filter_invalid_atomic_groups-AllGood (occurs (survivors failures)) (rt failures)
              (faithful failures (occurs (survivors failures))) (survivors failures)
              (AllGood-occurs (survivors failures)))

      by_txs :
          (s' : State) (txs : List PoolTx)
          → choose failures s' txs ≡ restart g
          → (occurs (survivors failures) g.id ≡ true) × (g.id ≢ 0)
      by_txs s' [] z = absurd (ground arith)
      by_txs s' (t ∷ ts) z =
          passes-GoodGroup (occurs (survivors failures)) env (length l1_user_txs)
            (length (sort_l2_txs (rt failures) (selectable env rt pool l1_user_txs s failures)) + 1)
            (sort_l2_txs (rt failures) (selectable env rt pool l1_user_txs s failures))
            (start_selection s' (unselectable env rt pool l1_user_txs s failures)) g good_there z

      by_l1 :
          (r : Result State)
          → with_l1 failures r ≡ restart g
          → (occurs (survivors failures) g.id ≡ true) × (g.id ≢ 0)
      by_l1 (err w) z = absurd (ground arith)
      by_l1 (ok s') z = by_txs s' (selectable env rt pool l1_user_txs s failures) z

  attempt-ne-out_of_fuel :
      (failures : List FailedGroup) → attempt env rt pool l1_user_txs s failures ≢ out_of_fuel
  unfolding attempt
  attempt-ne-out_of_fuel failures e = by_l1 (process_l1_user_txs l1_user_txs s) e
    where
      by_txs : (s' : State) (txs : List PoolTx) → choose failures s' txs ≡ out_of_fuel → ⊥
      by_txs s' [] z = cc
      by_txs s' (t ∷ ts) z =
          passes-ne-out_of_fuel env (length l1_user_txs)
            (length (sort_l2_txs (rt failures) (selectable env rt pool l1_user_txs s failures)) + 1)
            (sort_l2_txs (rt failures) (selectable env rt pool l1_user_txs s failures))
            (start_selection s' (unselectable env rt pool l1_user_txs s failures)) (omega arith) z

      by_l1 : (r : Result State) → with_l1 failures r ≡ out_of_fuel → ⊥
      by_l1 (err w) z = cc
      by_l1 (ok s') z = by_txs s' (selectable env rt pool l1_user_txs s failures) z

  select_from-ne :
      (fuel : ℕ) (failures : List FailedGroup)
      → ((failures : List FailedGroup) (good : ℕ → Bool) → IsFaithful good (rt failures))
      → length (survivors failures) < fuel
      → select_from env rt pool l1_user_txs s fuel failures ≢ out_of_fuel
  unfolding select_from
  select_from-ne zero failures faithful h e = absurd (omega arith)
  select_from-ne (suc fuel) failures faithful h e =
      by_attempt (λ more less z. select_from-ne fuel more faithful less z)
        (attempt env rt pool l1_user_txs s failures) refl e
    where
      by_attempt :
          ((more : List FailedGroup)
            → length (survivors more) < fuel
            → select_from env rt pool l1_user_txs s fuel more ≢ out_of_fuel)
          → (a : Selected) → attempt env rt pool l1_user_txs s failures ≡ a
          → (elim a [
            | restart g ↦ select_from env rt pool l1_user_txs s fuel (failures ++ (g ∷ []))
            | finished sel ↦ finished sel
            | aborted w ↦ aborted w
            | out_of_fuel ↦ out_of_fuel
          ])
            ≡ out_of_fuel
          → ⊥
      by_attempt again (restart g) q z =
          let (there, atomic) = attempt-restart failures g faithful q in
          let less = kept_lt failures g pool atomic there in
          again (failures ++ (g ∷ [])) (omega arith) z
      by_attempt again (finished sel) q z = cc
      by_attempt again (aborted w) q z = cc
      by_attempt again out_of_fuel q z = attempt-ne-out_of_fuel failures q

survivors_le : (pool : List PoolTx) → length (filter_failed_atomic_groups pool []).0 ≤ length pool
unfolding filter_failed_atomic_groups find_failed
survivors_le [] = omega arith
survivors_le (t ∷ ts) = ground (arith, survivors_le ts)

-- The selection ends: with more fuel than the pool has transactions it never runs out, so there are at
-- most as many jumps back to START_SELECTION, provided that reading a map and sorting give back the
-- transactions that they are given, with their groups.
pub select_from-ne-out_of_fuel :
    (env : Env) (rt : List FailedGroup → Runtime) (pool : List PoolTx) (l1_user_txs : List L1Tx)
    (s : State) (fuel : ℕ)
    → ((failures : List FailedGroup) (good : ℕ → Bool) → IsFaithful good (rt failures))
    → length pool < fuel
    → select_from env rt pool l1_user_txs s fuel [] ≢ out_of_fuel
select_from-ne-out_of_fuel env rt pool l1_user_txs s fuel faithful h =
    select_from-ne env rt pool l1_user_txs s fuel [] faithful (omega (arith, survivors_le pool))
