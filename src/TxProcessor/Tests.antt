-- ===== src/TxProcessor/Tests.antt =====
-- Runs of the TxProcessor on a small state, and its theorems there.
use hermez_node.Prelude.{ℕ, ◌≡◌, refl, Bool, true, false, some, [], ◌∷◌, arith, Option}
use hermez_node.Prelude.Int.{ℤ, pos, ◌+ℤ◌, ◌-ℤ◌}
use hermez_node.Prelude.Result.{ok}
use hermez_node.Prelude.Dict.{Dict, lookup, insert}
use hermez_node.Common.Account.{Account}
use hermez_node.Common.Fee.{calc_fee_amount}
use hermez_node.Common.Tx.{Tx, force_transfer, force_exit, transfer, exit}
use hermez_node.StateDb.{get_account, update_account, create_in_tree}
use hermez_node.TxProcessor.Apply.{pay_fee, apply_transfer, apply_exit}
use hermez_node.TxProcessor.Totals.{total}
use hermez_node.TxProcessor.Totals.Transfers.{accounts_of}
use hermez_node.TxProcessor.Batch.{distribute_fees}
use hermez_node.TxProcessor.Conservation.Exits.{ExitMoved, apply_exit_l1, apply_exit_l2}
use hermez_node.TxProcessor.Conservation.Fees.{FeesNonneg, fees_due, distribute_fees-total}
use hermez_node.TxProcessor.Nonces.{nonce_at, apply_transfer-nonce_at}
use hermez_node.Prelude.{◌%◌, ◌+◌, ◌^◌, ◌==◌, if◌then◌else◌}
use hermez_node.TxProcessor.Example.{
  account, accounts, state, transfer_tx, after, accounts-nonneg, no_exits-nonneg,
}

abbrev l1_transfer : Tx
l1_transfer = transfer_tx true force_transfer 257

abbrev l2_transfer : Tx
l2_transfer = transfer_tx false transfer 257

l1_transferred :
    apply_transfer [] l1_transfer 0 state ≡ (ok tt, after (apply_transfer [] l1_transfer 0) state)
unfolding apply_transfer get_account lookup ◌-ℤ◌ update_account insert ◌+ℤ◌
l1_transferred = refl

-- The coordinator's account of token 1 takes the fee.
abbrev coord_idxs_map : Dict ℕ
coord_idxs_map = (1, 258) ∷ []

l2_transferred :
    apply_transfer coord_idxs_map l2_transfer 0 state
    ≡ (ok tt, after (apply_transfer coord_idxs_map l2_transfer 0) state)
unfolding apply_transfer get_account lookup ◌-ℤ◌ update_account insert ◌+ℤ◌ calc_fee_amount pay_fee
l2_transferred = refl

abbrev l1_exit : Tx
l1_exit = transfer_tx true force_exit 1

abbrev l2_exit : Tx
l2_exit = transfer_tx false exit 1

abbrev exit_leaf : Option (Account × Bool)
exit_leaf = some (record (account 1 100) { nonce = 0 }, true)

l1_exited :
    apply_exit [] l1_exit (pos 100) state
    ≡ (ok exit_leaf, after (apply_exit [] l1_exit (pos 100)) state)
unfolding apply_exit get_account lookup ◌-ℤ◌ update_account insert ◌+ℤ◌ create_in_tree
l1_exited = refl

apply_exit_l1_example :
    ExitMoved 1 l1_exit (pos 100) [] state (after (apply_exit [] l1_exit (pos 100)) state)
apply_exit_l1_example =
    apply_exit_l1 1 [] l1_exit (pos 100) [] state exit_leaf
      (after (apply_exit [] l1_exit (pos 100)) state) refl (omega arith) refl refl no_exits-nonneg
      l1_exited

l2_exited :
    apply_exit coord_idxs_map l2_exit (pos 100) state
    ≡ (ok exit_leaf, after (apply_exit coord_idxs_map l2_exit (pos 100)) state)
unfolding apply_exit get_account lookup ◌-ℤ◌ update_account insert ◌+ℤ◌ calc_fee_amount pay_fee
    create_in_tree
l2_exited = refl

apply_exit_l2_example :
    (fee : ℤ) × (calc_fee_amount (pos 100) 192 ≡ ok fee)
    × ExitMoved 1 l2_exit
        (pos 100 +ℤ fee)
        []
        state
        (after (apply_exit coord_idxs_map l2_exit (pos 100)) state)
apply_exit_l2_example =
    apply_exit_l2 1 coord_idxs_map l2_exit (pos 100) [] state exit_leaf
      (after (apply_exit coord_idxs_map l2_exit (pos 100)) state) refl (omega arith) refl refl
      no_exits-nonneg l2_exited

fees-nonneg : FeesNonneg state.accumulated_fees
unfolding lookup
fees-nonneg i = ground arith

fees_distributed :
    distribute_fees (258 ∷ []) state ≡ (ok tt, after (distribute_fees (258 ∷ [])) state)
unfolding distribute_fees get_account lookup ◌-ℤ◌ update_account insert ◌+ℤ◌
fees_distributed = refl

distribute_fees-total_example :
    total 1 (accounts_of (after (distribute_fees (258 ∷ [])) state))
    ≡ total 1 accounts +ℤ fees_due 1 state.accumulated_fees accounts (258 ∷ [])
distribute_fees-total_example =
    distribute_fees-total 1 (258 ∷ []) state (after (distribute_fees (258 ∷ [])) state)
      accounts-nonneg fees-nonneg fees_distributed

apply_transfer-nonce_at_example :
    (found : Account) × (lookup 256 accounts ≡ some found)
    × (nonce_at 257 (accounts_of (after (apply_transfer coord_idxs_map l2_transfer 0) state))
        ≡ (if 256 == 257 then some ((found.nonce + 1) % 2 ^ 64) else nonce_at 257 accounts))
apply_transfer-nonce_at_example =
    apply_transfer-nonce_at coord_idxs_map l2_transfer 0 257 state
      (after (apply_transfer coord_idxs_map l2_transfer 0) state) refl l2_transferred
