-- ===== src/TxProcessor/EnoughTests.antt =====
-- A run of CheckEnoughBalance on a small state, and its theorem there.
use hermez_node.Prelude.{◌≡◌, ◌⊎◌, refl, true, false, []}
use hermez_node.Prelude.Int.{ℤ, pos}
use hermez_node.Prelude.Dict.{lookup}
use hermez_node.Prelude.Result.{Error, ok, err}
use hermez_node.Common.Account.{Account}
use hermez_node.Common.Fee.{calc_fee_amount}
use hermez_node.Common.Tx.{transfer}
use hermez_node.Common.PoolL2Tx
use hermez_node.Common.PoolL2Tx.{PoolL2Tx}
use hermez_node.StateDb.{get_account}
use hermez_node.TxProcessor.Monad.{◌>>◌, pure}
use hermez_node.TxProcessor.Apply.{debit, pay_fee}
use hermez_node.TxProcessor.Enough.{check_enough_balance, debited, check_enough_balance-debit}
use hermez_node.TxProcessor.Example.{account, state}

abbrev pool_tx : PoolL2Tx
pool_tx = record {
  from_idx = 256;
  to_idx = 257;
  aux_to_idx = 0;
  to_eth_addr = 0;
  to_bjj = 0;
  token_id = 1;
  amount = pos 100;
  fee = 192;
  nonce = 0;
  max_num_batch = 0;
  rq_from_idx = 0;
  rq_to_idx = 0;
  rq_to_eth_addr = 0;
  rq_to_bjj = 0;
  rq_token_id = 0;
  rq_amount = pos 0;
  rq_fee = 0;
  rq_nonce = 0;
  rq_offset = 0;
  tx_type = transfer;
}

abbrev sender : Account
sender = record (account 1 1000) { idx = 256 }

sender_found : get_account 256 state.db ≡ ok sender
unfolding get_account lookup
sender_found = refl

check_enough_balance-debit_example :
    (((check_enough_balance pool_tx state).0 ≡ true)
      × ((fee : ℤ) × (calc_fee_amount (pos 100) 192 ≡ ok fee)
          × (debit [] (PoolL2Tx.generic_tx pool_tx) sender state
              ≡ (pay_fee [] 1 fee >> pure (debited pool_tx fee sender)) state)))
    ⊎ (((check_enough_balance pool_tx state).0 ≡ false)
        × ((e : Error) × (debit [] (PoolL2Tx.generic_tx pool_tx) sender state ≡ (err e, state))))
check_enough_balance-debit_example = check_enough_balance-debit [] pool_tx sender state sender_found
