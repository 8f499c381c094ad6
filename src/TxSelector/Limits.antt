-- ===== src/TxSelector/Limits.antt =====
-- The limits of a batch in `processL2Txs` (v2/txselector/txselector.go).
pub mod Coordinator
pub mod Receiver
pub mod Round
use hermez_node.Prelude.{
  ℕ, ◌+◌, ◌≤◌, ◌≡◌, refl, Bool, true, false, not, Option, none, some, List, [], ◌∷◌, ◌++◌, length,
  length-append, arith, Bool-cases, inl, inr, ◌⊎◌, leb, if◌then◌else◌, ◌==◌,
}
use hermez_node.Prelude.Result.{Result, ok, err, idx_not_found}
use hermez_node.Common.L1Tx.{L1Tx}
use hermez_node.Common.Ids.{user_threshold}
use hermez_node.Common.Account.{Account}
use hermez_node.Common.PoolL2Tx.{ff_addr, PoolL2Tx}
use hermez_node.StateDb.{StateDb, get_account}
use hermez_node.TxProcessor.State.{Config, State}
use hermez_node.TxProcessor.Process.{Processed, process_l2_tx}
use hermez_node.TxSelector.{
  PoolTx, Env, Auth, Bytes, can_add_l2_tx, can_add_l2_tx_that_needs_new_coord_l1_tx,
  coord_account_for_token_id, process_tx_to_eth_addr_bjj, get_coord_idx, is_atomic,
  no_available_slots, create_tx, empty_eth_signature, discarded_to_eth_addr_bjj, to_idx_not_found,
  discarded_in_process_l2_tx, not_enough_space_l1_coordinator,
}
use hermez_node.TxSelector.Loop.{
  Loop, Step, go, stop, put_aside, discard, fatal, with_info, add_receiver, modify, after_failure,
  with_fee_entry, pure, gets, stop_if, required, ◌>>=◌, ◌>>◌, check_tx, check_sender,
  ensure_coord_account, ensure_receiver, run_l1, run_l2, add_l1, select_tx, done, settle, no_slots,
  process_l2_txs,
}
use hermez_node.TxSelector.Steps.{
  Leaves, weaken-Leaves, bind-Leaves, check_tx-Leaves, check_sender-Leaves, run_l1-Leaves, done-inj,
  process_l2_txs-rule,
}
use hermez_node.TxSelector.Receivers.{Created, process_tx_to_eth_addr_bjj-Created}

-- The transactions are numbered on from `first`.
abbrev pub Numbered : ℕ → List L1Tx → Type 0
Numbered first [] = Unit
Numbered first (tx ∷ txs) = (tx.position ≡ first) × Numbered (first + 1) txs

-- The counters of the loop count what it has added to the `l1` and `l2` transactions that were
-- there before, within the limits of the batch; each transaction of the coordinator has its place in
-- the batch and an authorization.
pub record Counted (config : Config) (l1 l2 : ℕ) (l : Loop) : Type 0 where
  pub counted_l1 : l.n_l1 ≡ l1 + length l.l1_coordinator_txs
  pub counted_l2 : l.n_l2 ≡ l2 + length l.selected
  pub next_position : l.position ≡ l.n_l1
  pub numbered : Numbered l1 l.l1_coordinator_txs
  pub authorized : length l.acc_auths ≡ length l.l1_coordinator_txs
  pub within_l1 : l.n_l1 ≤ config.max_l1_tx
  pub within : l.n_l1 + l.n_l2 ≤ config.max_tx

-- Room for one more L2 transaction.
abbrev pub Ready : Env → ℕ → ℕ → Loop → Type 0
Ready env l1 l2 l =
    Counted env.selection_config l1 l2 l × (l.n_l1 + l.n_l2 + 1 ≤ env.selection_config.max_tx)
