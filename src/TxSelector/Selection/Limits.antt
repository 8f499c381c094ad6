-- ===== src/TxSelector/Selection/Limits.antt =====
-- A selection of `getL1L2TxSelection` (v2/txselector/txselector.go) keeps to the limits of a batch.
use hermez_node.Prelude.{ℕ, zero, suc, ◌+◌, ◌≤◌, ◌≡◌, List, [], ◌∷◌, ◌++◌, length, arith}
use mathlib.Core.Path.{subst}
use hermez_node.Prelude.Result.{Result, ok, err}
use hermez_node.Common.L1Tx.{L1Tx}
use hermez_node.TxProcessor.State.{State}
use hermez_node.TxSelector.{PoolTx, Env}
use hermez_node.TxSelector.Loop.{FailedGroup}
use hermez_node.TxSelector.Groups.{Runtime, sort_l2_txs}
use hermez_node.TxSelector.Selection.{
  Selection, Selected, finished, restart, aborted, out_of_fuel, selectable, unselectable, attempt,
  select_from, start_selection, process_l1_user_txs,
}
use hermez_node.TxSelector.Selection.Batches.{Fits, passes-Fits, start_selection-Fits}
use hermez_node.TxSelector.Selection.Restarts.{choose, with_l1}

module _ (env : Env) (rt : List FailedGroup → Runtime) (pool : List PoolTx)
    (l1_user_txs : List L1Tx) (s : State)
    (few : length l1_user_txs ≤ env.selection_config.max_l1_tx)
    (fit : length l1_user_txs ≤ env.selection_config.max_tx) where
  attempt-Fits :
      (failures : List FailedGroup) (sel : Selection)
      → attempt env rt pool l1_user_txs s failures ≡ finished sel
      → Fits env (length l1_user_txs) sel
  unfolding attempt
  attempt-Fits failures sel e = by_l1 (process_l1_user_txs l1_user_txs s) e
    where
      start :
          (s' : State)
          → Fits env
              (length l1_user_txs)
              (start_selection s' (unselectable env rt pool l1_user_txs s failures))
      start s' =
          start_selection-Fits env (length l1_user_txs) s'
            (unselectable env rt pool l1_user_txs s failures) few fit

      by_txs :
          (s' : State) (txs : List PoolTx)
          → choose env rt pool l1_user_txs s failures s' txs ≡ finished sel
          → Fits env (length l1_user_txs) sel
      by_txs s' [] z = subst (Fits env (length l1_user_txs)) (cc) (start s')
      by_txs s' (t ∷ ts) z =
          passes-Fits env (length l1_user_txs)
            (length (sort_l2_txs (rt failures) (selectable env rt pool l1_user_txs s failures)) + 1)
            (sort_l2_txs (rt failures) (selectable env rt pool l1_user_txs s failures))
            (start_selection s' (unselectable env rt pool l1_user_txs s failures)) sel (start s') z

      by_l1 :
          (r : Result State)
          → with_l1 env rt pool l1_user_txs s failures r ≡ finished sel
          → Fits env (length l1_user_txs) sel
      by_l1 (err w) z = absurd (ground arith)
      by_l1 (ok s') z = by_txs s' (selectable env rt pool l1_user_txs s failures) z

  -- Where the L1 transactions of the users alone keep to MaxL1Tx and MaxTx, every selection that is
  -- made, after any number of restarts, keeps to them: the L1 transactions of the users and of the
  -- coordinator are at most MaxL1Tx, with the selected L2 transactions at most MaxTx; the
  -- coordinator's take the places that follow on the users', and each has an authorization.
  pub select_from-Fits :
      (fuel : ℕ) (failures : List FailedGroup) (sel : Selection)
      → select_from env rt pool l1_user_txs s fuel failures ≡ finished sel
      → Fits env (length l1_user_txs) sel
  unfolding select_from
  select_from-Fits zero failures sel e = absurd (ground arith)
  select_from-Fits (suc fuel) failures sel e =
      by_attempt (λ more z. select_from-Fits fuel more sel z)
        (attempt env rt pool l1_user_txs s failures) (λ q. attempt-Fits failures sel q) e
    where
      by_attempt :
          ((more : List FailedGroup)
            → select_from env rt pool l1_user_txs s fuel more ≡ finished sel
            → Fits env (length l1_user_txs) sel)
          → (a : Selected) → (a ≡ finished sel → Fits env (length l1_user_txs) sel)
          → (elim a [
            | restart g ↦ select_from env rt pool l1_user_txs s fuel (failures ++ (g ∷ []))
            | finished x ↦ finished x
            | aborted w ↦ aborted w
            | out_of_fuel ↦ out_of_fuel
          ])
            ≡ finished sel
          → Fits env (length l1_user_txs) sel
      by_attempt again (restart g) here z = again (failures ++ (g ∷ [])) z
      by_attempt again (finished x) here z = here z
      by_attempt again (aborted w) here z = absurd (ground arith)
      by_attempt again out_of_fuel here z = absurd (ground arith)
