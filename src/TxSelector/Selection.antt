-- ===== src/TxSelector/Selection.antt =====
-- `getL1L2TxSelection` of v2/txselector/txselector.go up to the choice of the transactions. A jump
-- back to START_SELECTION and a pass of the selection loop each take one unit of fuel. The reset of
-- the local StateDB before such a jump gives back the state of the current batch (KvDb), from which
-- every attempt starts.
pub mod Failing
pub mod Order
pub mod Passes
pub mod Batches
pub mod Restarts
pub mod Limits
use hermez_node.Prelude.{
  ℕ, zero, suc, ◌+◌, ◌<◌, Bool, true, false, Option, none, some, List, [], ◌∷◌, ◌++◌, length,
}
use hermez_node.Prelude.Result.{Error, Result, ok, err}
use hermez_node.Common.L1Tx.{L1Tx}
use hermez_node.TxProcessor.State.{State}
use hermez_node.TxProcessor.Process.{process_l1_tx}
use hermez_node.TxSelector.{PoolTx, Env, Bytes}
use hermez_node.TxSelector.Loop.{
  Loop, FailedGroup, Outcome, done, group_failed, failed, process_l2_txs,
}
use hermez_node.TxSelector.Groups.{
  Runtime, filter_failed_atomic_groups, filter_invalid_atomic_groups, sort_l2_txs,
}

-- The selection arrays, and the state of the TxProcessor.
pub record Selection : Type 0 where
  pub tp : State
  pub acc_auths : List Bytes
  pub l1_coordinator_txs : List L1Tx
  pub selected : List PoolTx
  pub discarded : List PoolTx

-- How the selection loop, or the whole of it, ends.
pub data Selected : Type 0 where
  finished : Selection → Selected
  restart : FailedGroup → Selected
  aborted : Error → Selected
  out_of_fuel : Selected

-- the variables at the start of a pass
abbrev pub start_pass : ℕ → Selection → Loop
start_pass n_user sel = record {
  tp = sel.tp;
  n_l1 = n_user + length sel.l1_coordinator_txs;
  n_l2 = length sel.selected;
  position = n_user + length sel.l1_coordinator_txs;
  acc_auths = [];
  l1_coordinator_txs = [];
  selected = [];
  non_selected = [];
  unforgeable = [];
}

-- the results of a pass, added to those before
abbrev pub add_pass : Loop → Selection → Selection
add_pass l sel = record {
  tp = l.tp;
  acc_auths = sel.acc_auths ++ l.acc_auths;
  l1_coordinator_txs = sel.l1_coordinator_txs ++ l.l1_coordinator_txs;
  selected = sel.selected ++ l.selected;
  discarded = sel.discarded ++ l.unforgeable;
}

abbrev pub discard_all : List PoolTx → Selection → Selection
discard_all txs sel = record sel { discarded = sel.discarded ++ txs }

-- the loop under `shouldKeepSelectionProcess`
unfoldable pub passes : ℕ → Env → ℕ → List PoolTx → Selection → Selected
unfolding process_l2_txs
passes zero env n_user txs sel = out_of_fuel
passes (suc fuel) env n_user txs sel = elim (process_l2_txs env txs (start_pass n_user sel)) [
  | group_failed g ↦ restart g
  | failed e ↦ aborted e
  | done l ↦ elim l.selected [
    | [] ↦ finished (discard_all l.non_selected (add_pass l sel))
    | t ∷ ts ↦ passes fuel env n_user l.non_selected (add_pass l sel)
  ]
]

-- the loop over the L1 transactions of users
unfoldable pub process_l1_user_txs : List L1Tx → State → Result State
process_l1_user_txs [] s = ok s
process_l1_user_txs (tx ∷ txs) s =
    let (r, s') = process_l1_tx tx s in elim r [ ok _ ↦ process_l1_user_txs txs s' | err e ↦ err e ]

abbrev pub start_selection : State → List PoolTx → Selection
start_selection s discarded = record {
  tp = s;
  acc_auths = [];
  l1_coordinator_txs = [];
  selected = [];
  discarded = discarded;
}

-- `rt failures` is what Go leaves open during the attempt that starts with these failures.
module _ (env : Env) (rt : List FailedGroup → Runtime) (pool : List PoolTx)
    (l1_user_txs : List L1Tx) (s : State) where
  -- the transactions that an attempt can select, and those that it cannot
  abbrev pub selectable : List FailedGroup → List PoolTx
  selectable failures =
      (filter_invalid_atomic_groups (rt failures) (filter_failed_atomic_groups pool failures).0).0

  abbrev pub unselectable : List FailedGroup → List PoolTx
  unselectable failures =
      (filter_failed_atomic_groups pool failures).1
      ++ (filter_invalid_atomic_groups (rt failures)
          (filter_failed_atomic_groups pool failures).0).1

  -- one attempt, with the groups that have failed before
  unfoldable pub attempt : List FailedGroup → Selected
  unfolding process_l1_user_txs filter_failed_atomic_groups filter_invalid_atomic_groups passes
  attempt failures = elim (process_l1_user_txs l1_user_txs s) [
    | err e ↦ aborted e
    | ok s' ↦ elim (selectable failures) [
      | [] ↦ finished (start_selection s' (unselectable failures))
      | t ∷ ts ↦
          let sorted = sort_l2_txs (rt failures) (selectable failures) in
          passes (length sorted + 1) env (length l1_user_txs) sorted
            (start_selection s' (unselectable failures))
    ]
  ]

  -- from START_SELECTION on
  unfoldable pub select_from : ℕ → List FailedGroup → Selected
  unfolding attempt
  select_from zero failures = out_of_fuel
  select_from (suc fuel) failures = elim (attempt failures) [
    | restart g ↦ select_from fuel (failures ++ (g ∷ []))
    | finished sel ↦ finished sel
    | aborted e ↦ aborted e
    | out_of_fuel ↦ out_of_fuel
  ]
