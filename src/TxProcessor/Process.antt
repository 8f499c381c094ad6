-- ===== src/TxProcessor/Process.antt =====
-- v2/txprocessor/txprocessor.go: ProcessL1Tx and ProcessL2Tx, for a StateDB that builds
-- no ZKInputs.
use hermez_node.Prelude.{
  ℕ, Bool, true, false, ◌==◌, ◌&&◌, ◌||◌, if◌then◌else◌, Option, none, some, [],
}
use hermez_node.Prelude.Int.{ℤ}
use hermez_node.Prelude.Dict.{Dict}
use hermez_node.Prelude.Result.{zero_to_idx}
use hermez_node.Common.Account.{Account}
use hermez_node.Common.Tx.{
  TxType, exit, transfer, deposit, create_account_deposit, create_account_deposit_transfer,
  deposit_transfer, force_transfer, force_exit, transfer_to_eth_addr, transfer_to_bjj, same_type,
}
use hermez_node.Common.L1Tx
use hermez_node.Common.L1Tx.{L1Tx}
use hermez_node.Common.PoolL2Tx
use hermez_node.Common.PoolL2Tx.{PoolL2Tx}
use hermez_node.StateDb.{get_idx_by_eth_addr_bjj}
use hermez_node.TxProcessor.State.{is_synchronizer}
use hermez_node.TxProcessor.Monad.{Action, ◌>>=◌, ◌>>◌, pure, throw_if, read, gets}
use hermez_node.TxProcessor.Amounts.{compute_effective_amounts}
use hermez_node.TxProcessor.Apply.{
  Exit, get, apply_create_account, apply_deposit, apply_create_account_deposit_transfer,
  apply_transfer, apply_exit,
}

-- What ProcessL1Tx and ProcessL2Tx return beside the error: the transaction as they leave it, the
-- exit's Idx and account, and the created account.
pub record Processed (T : Type 0) : Type 0 where
  pub tx : T
  pub exit_idx : Option ℕ
  pub exit : Exit
  pub created : Option Account

abbrev pub plain : {T : Type 0} → T → Processed T
plain t = record { tx = t; exit_idx = none; exit = none; created = none }

abbrev pub sync : Action Bool
sync = gets (λ s. is_synchronizer s.config.mode)

-- The created account, which a synchronizer reads back.
abbrev pub created_account : L1Tx → Action (Processed L1Tx)
created_account tx = do
  synchronizing ← sync
  if synchronizing
        && (same_type tx.tx_type create_account_deposit
            || same_type tx.tx_type create_account_deposit_transfer)
      then (do
        a ← get (← gets (λ s. s.db.current_idx))
        pure (record { tx = tx; exit_idx = none; exit = none; created = some a }))
      else pure (plain tx)

-- The switch of `ProcessL1Tx`.
abbrev pub switch_l1 : TxType → L1Tx → ℤ → Action (Processed L1Tx)
switch_l1 force_transfer tx amount = do apply_transfer [] (L1Tx.generic_tx tx) 0; created_account tx
switch_l1 create_account_deposit tx amount = do apply_create_account tx; created_account tx
switch_l1 deposit tx amount = do apply_deposit tx false; created_account tx
switch_l1 deposit_transfer tx amount = do apply_deposit tx true; created_account tx
switch_l1 create_account_deposit_transfer tx amount = do
  apply_create_account_deposit_transfer tx
  created_account tx
switch_l1 force_exit tx amount = do
  e ← apply_exit [] (L1Tx.generic_tx tx) amount
  pure (record { tx = tx; exit_idx = some tx.from_idx; exit = e; created = none })
switch_l1 _ tx amount = created_account tx

-- The types for which `ProcessL1Tx` computes the effective amounts.
abbrev pub is_l1_type : TxType → Bool
is_l1_type exit = false
is_l1_type transfer = false
is_l1_type transfer_to_eth_addr = false
is_l1_type transfer_to_bjj = false
is_l1_type TxType.unset = false
is_l1_type TxType.other = false
is_l1_type _ = true

-- `ProcessL1Tx`
unfoldable pub process_l1_tx : L1Tx → Action (Processed L1Tx)
process_l1_tx tx = do
  effective ← gets (λ s. if is_l1_type tx.tx_type then compute_effective_amounts s.db tx else tx)
  switch_l1 tx.tx_type effective tx.amount

-- Finding the receiver of an L2 transaction by address and key, when it names no Idx.
abbrev pub resolve_to : PoolL2Tx → Action PoolL2Tx
resolve_to tx =
    if tx.to_idx == 0 && tx.aux_to_idx == 0
    then (do
      throw_if (← sync) zero_to_idx
      sender ← get tx.from_idx
      i ← read (λ s. get_idx_by_eth_addr_bjj tx.to_eth_addr tx.to_bjj sender.token_id s.db)
      pure (record tx { aux_to_idx = i }))
    else pure tx

-- A synchronizer fills in nonce and token.
abbrev pub fill_tx : PoolL2Tx → Action PoolL2Tx
fill_tx tx = do
  synchronizing ← sync
  if synchronizing
      then (do
        acc ← get tx.from_idx
        pure (record tx { nonce = acc.nonce; token_id = acc.token_id }))
      else pure tx

-- The switch of `ProcessL2Tx`.
abbrev pub switch_l2 : TxType → Dict ℕ → PoolL2Tx → Action (Processed PoolL2Tx)
switch_l2 transfer coord_idxs_map tx = do
  apply_transfer coord_idxs_map (PoolL2Tx.generic_tx tx) tx.aux_to_idx
  pure (plain tx)
switch_l2 transfer_to_eth_addr coord_idxs_map tx = do
  apply_transfer coord_idxs_map (PoolL2Tx.generic_tx tx) tx.aux_to_idx
  pure (plain tx)
switch_l2 transfer_to_bjj coord_idxs_map tx = do
  apply_transfer coord_idxs_map (PoolL2Tx.generic_tx tx) tx.aux_to_idx
  pure (plain tx)
switch_l2 exit coord_idxs_map tx = do
  e ← apply_exit coord_idxs_map (PoolL2Tx.generic_tx tx) tx.amount
  pure (record { tx = tx; exit_idx = some tx.from_idx; exit = e; created = none })
switch_l2 _ coord_idxs_map tx = pure (plain tx)

-- `ProcessL2Tx`
unfoldable pub process_l2_tx : Dict ℕ → PoolL2Tx → Action (Processed PoolL2Tx)
process_l2_tx coord_idxs_map tx = do
  resolved ← resolve_to tx
  filled ← fill_tx resolved
  switch_l2 filled.tx_type coord_idxs_map filled
