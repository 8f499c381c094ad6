-- ===== src/TxProcessor/State.antt =====
-- The state of a TxProcessor (v2/txprocessor/txprocessor.go): its StateDB, the exit tree of the batch
-- and the maps of fees and accounts. Of the three types of StateDB the model has the two that build
-- no ZKInputs: `zki` is nil throughout.
use hermez_node.Prelude.{ℕ, Bool, true, false, Option}
use hermez_node.Prelude.Int.{ℤ}
use hermez_node.Prelude.Dict.{Dict}
use hermez_node.StateDb.{StateDb, Accounts}

-- `statedb.TypeSynchronizer` and `statedb.TypeTxSelector`
pub data Mode : Type 0 where
  synchronizer tx_selector : Mode

abbrev pub is_synchronizer : Mode → Bool
is_synchronizer synchronizer = true
is_synchronizer tx_selector = false

pub record Config : Type 0 where
  pub mode : Mode
  pub max_fee_tx : ℕ
  pub max_tx : ℕ
  pub max_l1_tx : ℕ

pub record State : Type 0 where
  pub config : Config
  pub db : StateDb
  -- the exit tree, which only a synchronizer has
  pub exit_tree : Option Accounts
  -- fees of the batch, by the Idx of the coordinator's account
  pub accumulated_fees : Dict ℤ
  -- fees of the batch, by token
  pub collected_fees : Dict ℤ
  pub updated_accounts : Accounts
