-- ===== src/TxProcessor/L1Tests.antt =====
-- Runs of L1 transactions on a small state, and the theorems on them there.
use hermez_node.Prelude.{◌≤◌, ◌≡◌, ◌≢◌, ◌⊎◌, refl, true, none, List, [], ◌∷◌, arith, Option}
use hermez_node.Prelude.Int.{pos, ◌+ℤ◌, ◌-ℤ◌}
use hermez_node.Prelude.Result.{Error, ok, err}
use hermez_node.Prelude.Dict.{lookup, insert}
use hermez_node.Common.Ids.{idx_bytes}
use hermez_node.Common.Tx.{deposit_transfer, create_account_deposit_transfer}
use hermez_node.Common.L1Tx.{L1Tx, type_of}
use hermez_node.StateDb.{get_account, update_account, create_account}
use hermez_node.TxProcessor.Amounts.{
  compute_effective_amounts, sender_amounts, receiver_amounts, create_transfer_amounts,
  full_amounts,
}
use hermez_node.TxProcessor.Apply.{apply_deposit, apply_create_account_deposit_transfer}
use hermez_node.TxProcessor.Batch.{distribute_fees}
use hermez_node.TxProcessor.Example.{state, after, accounts-nonneg}
use hermez_node.TxProcessor.Process.{plain, process_l1_tx}
use hermez_node.TxProcessor.Batch.{
  process_txs, run_batch, Output, process_l1_txs, process_l2_txs, filter_coord_idxs, get_token_ids,
  distribute_fees,
}
use hermez_node.TxProcessor.Batch.Sizes.{Within, process_txs_refuses}
use hermez_node.TxProcessor.Amounts.Lowered.{Lowered, compute_effective_amounts-Lowered}
use hermez_node.TxProcessor.Amounts.Checks.{
  HasSender, HasReceiver, CoveredByDeposit, compute_effective_amounts_covered,
}
use hermez_node.TxProcessor.Conservation.Facts.{Enters}
use hermez_node.TxProcessor.Conservation.L1.{process_l1_tx_total}
use hermez_node.TxProcessor.Conservation.Deposits.{DepositMoved, apply_deposit_transfer_total}
use hermez_node.TxProcessor.Conservation.Creations.{
  CreationMoved, apply_create_account_deposit_transfer_total,
}
use hermez_node.Common.L1Tx.Codec.{decoded}
use hermez_node.Common.PoolL2Tx.{PoolL2Tx}

-- A deposit of 5000 from 256, of which 40 go on to 257.
abbrev deposit_tx : L1Tx
deposit_tx = record (decoded true 256 257 1 11 1 (pos 40) (pos 5000)) { tx_type = deposit_transfer }

-- The transaction as ProcessL1Tx applies it.
abbrev effective_tx : L1Tx
effective_tx = full_amounts deposit_tx

compute_effective_amounts-Lowered_example :
    Lowered (full_amounts deposit_tx) (compute_effective_amounts state.db deposit_tx)
compute_effective_amounts-Lowered_example = compute_effective_amounts-Lowered state.db deposit_tx

amount_counts : (compute_effective_amounts state.db deposit_tx).effective_amount ≢ pos 0
unfolding compute_effective_amounts sender_amounts receiver_amounts create_transfer_amounts
    get_account lookup ◌+ℤ◌
amount_counts h = ground arith

deposit_counts : (compute_effective_amounts state.db deposit_tx).effective_deposit_amount ≢ pos 0
unfolding compute_effective_amounts sender_amounts receiver_amounts create_transfer_amounts
    get_account lookup ◌+ℤ◌
deposit_counts h = ground arith

compute_effective_amounts_covered_example :
    (true ≡ true)
    × (((deposit_tx.from_idx ≡ 0)
          × (256 ≤ deposit_tx.to_idx)
          × CoveredByDeposit state.db deposit_tx)
        ⊎ (HasSender state.db deposit_tx × HasReceiver state.db deposit_tx))
compute_effective_amounts_covered_example =
    compute_effective_amounts_covered state.db deposit_tx refl amount_counts

deposit_typed : type_of 256 257 (pos 5000) ≡ ok deposit_transfer
unfolding type_of
deposit_typed = refl

l1_processed :
    process_l1_tx deposit_tx state
    ≡ (ok (plain effective_tx), after (process_l1_tx deposit_tx) state)
unfolding process_l1_tx apply_deposit compute_effective_amounts sender_amounts receiver_amounts
    create_transfer_amounts get_account lookup ◌-ℤ◌ update_account insert ◌+ℤ◌
l1_processed = refl

process_l1_tx_total_example :
    Enters 1 deposit_tx
      (compute_effective_amounts state.db deposit_tx).effective_deposit_amount
      state
      (after (process_l1_tx deposit_tx) state)
process_l1_tx_total_example =
    process_l1_tx_total 1 deposit_tx state (plain effective_tx)
      (after (process_l1_tx deposit_tx) state) deposit_typed (omega arith) (omega arith)
      (λ h. absurd (ground arith)) (λ h. absurd (ground arith)) (λ h. ground arith) accounts-nonneg
      l1_processed

deposited :
    apply_deposit effective_tx true state ≡ (ok tt, after (apply_deposit effective_tx true) state)
unfolding apply_deposit get_account lookup ◌-ℤ◌ update_account insert ◌+ℤ◌
deposited = refl

apply_deposit_transfer_total_example :
    DepositMoved 1 effective_tx state (after (apply_deposit effective_tx true) state)
apply_deposit_transfer_total_example =
    apply_deposit_transfer_total 1 effective_tx state
      (after (apply_deposit effective_tx true) state) (omega arith) accounts-nonneg deposited

-- A new account with 5000, of which 40 go to 257.
abbrev creation_tx : L1Tx
creation_tx = full_amounts (record (decoded true 0 257 4 14 1 (pos 40) (pos 5000)) {
  tx_type = create_account_deposit_transfer;
})

created :
    apply_create_account_deposit_transfer creation_tx state
    ≡ (ok tt, after (apply_create_account_deposit_transfer creation_tx) state)
unfolding apply_create_account_deposit_transfer create_account idx_bytes get_account lookup ◌-ℤ◌
    update_account insert ◌+ℤ◌
created = refl

apply_create_account_deposit_transfer_total_example :
    CreationMoved 1 creation_tx state
      (after (apply_create_account_deposit_transfer creation_tx) state)
apply_create_account_deposit_transfer_total_example =
    apply_create_account_deposit_transfer_total 1 creation_tx state
      (after (apply_create_account_deposit_transfer creation_tx) state) (omega arith)
      accounts-nonneg created

-- Three coordinator accounts, where two are allowed.
beyond : ¬ Within state (256 ∷ 257 ∷ 258 ∷ []) [] [] []
beyond h = ground arith

process_txs_refuses_example :
    (e : Error) × (process_txs (256 ∷ 257 ∷ 258 ∷ []) [] [] [] state ≡ (err e, state))
process_txs_refuses_example = process_txs_refuses (256 ∷ 257 ∷ 258 ∷ []) [] [] [] state beyond

abbrev no_txs : List PoolL2Tx
no_txs = []

abbrev output : Option Output
output = elim (process_txs (258 ∷ []) (deposit_tx ∷ []) [] no_txs state).0 [
  | ok o ↦ o
  | err e ↦ none
]

batch_run :
    process_txs (258 ∷ []) (deposit_tx ∷ []) [] no_txs state
    ≡ (ok output, after (process_txs (258 ∷ []) (deposit_tx ∷ []) [] no_txs) state)
unfolding process_txs run_batch process_l1_txs process_l1_tx apply_deposit get_account
    compute_effective_amounts sender_amounts lookup ◌+ℤ◌ receiver_amounts ◌-ℤ◌ update_account insert
    filter_coord_idxs get_token_ids process_l2_txs distribute_fees
batch_run = refl
