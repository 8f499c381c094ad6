-- ===== src/TxSelector/Tests.antt =====
-- Runs of the selector on a small pool, and its theorems there.
use hermez_node.Prelude.{
  ℕ, ◌+◌, ◌≤◌, ◌≡◌, ◌≢◌, ◌⊎◌, refl, Bool, true, false, none, some, List, [], ◌∷◌, arith,
  if◌then◌else◌, ltb, ◌==◌,
}
use hermez_node.Prelude.Int.{pos, ltb_ℤ, ◌+ℤ◌, ◌-ℤ◌}
use hermez_node.Common.Tx.{transfer, exit, same_type}
use hermez_node.Common.PoolL2Tx.{PoolL2Tx}
use hermez_node.TxProcessor.State.{State, tx_selector}
use hermez_node.TxProcessor.Example
use hermez_node.TxSelector.{
  PoolTx, Env, no_info, can_add_l2_tx, get_coord_idx, coord_account_for_token_id,
}
use hermez_node.StateDb.{get_account, get_idx_by_eth_addr, get_idx_by_eth_addr_bjj, update_account}
use hermez_node.Prelude.Dict.{lookup, insert}
use hermez_node.Common.Fee.{calc_fee_amount}
use hermez_node.TxProcessor.Apply.{apply_transfer, pay_fee}
use hermez_node.TxProcessor.Process.{process_l2_tx}
use hermez_node.TxProcessor.Enough.{check_enough_balance}
use hermez_node.TxSelector.Loop.{
  Loop, process_l2_txs, Step, go, stop, select_tx, next_batch_num, check_tx, check_sender,
  ensure_coord_account, ensure_receiver, run_l2, settle, no_slots,
}
use hermez_node.TxSelector.Groups.{
  Runtime, filter_failed_atomic_groups, find_failed, filter_invalid_atomic_groups, split_groups,
  filter_groups, sort_l2_txs, sort_stable, insert_stable, combine,
}
use hermez_node.TxSelector.Selection.{
  Selection, Selected, finished, restart, aborted, start_pass, start_selection, passes, select_from,
  attempt, process_l1_user_txs, out_of_fuel,
}
use hermez_node.TxSelector.Frames.{SameTx}
use hermez_node.TxSelector.Places.{weigh}
use hermez_node.TxSelector.Checks.{CanPay, select_tx-CanPay}
use hermez_node.TxSelector.Selection.Passes.{passes-weigh}
use hermez_node.TxSelector.Selection.Batches.{Fits}
use hermez_node.TxSelector.Selection.Order.{IsFaithful}
use hermez_node.TxSelector.Selection.Limits.{select_from-Fits}
use hermez_node.TxSelector.Selection.Restarts.{select_from-ne-out_of_fuel}

abbrev transfer_tx : ℕ → PoolL2Tx
transfer_tx nonce = record {
  from_idx = 256;
  to_idx = 257;
  aux_to_idx = 0;
  to_eth_addr = 0;
  to_bjj = 0;
  token_id = 1;
  amount = pos 100;
  fee = 192;
  nonce = nonce;
  max_num_batch = 0;
  rq_from_idx = 0;
  rq_to_idx = 0;
  rq_to_eth_addr = 0;
  rq_to_bjj = 0;
  rq_token_id = 0;
  rq_amount = pos 0;
  rq_fee = 0;
  rq_nonce = 0;
  rq_offset = 0;
  tx_type = transfer;
}

abbrev pool_tx : ℕ → PoolTx
pool_tx nonce = record {
  l2 = transfer_tx nonce;
  tx_id = nonce + 70;
  atomic_group_id = 0;
  absolute_fee = 5;
  info = no_info;
}

-- The second of these can be selected only after the first.
abbrev pool : List PoolTx
pool = pool_tx 1 ∷ pool_tx 0 ∷ []

-- The state of TxProcessor.Example, for a selector, where the coordinator has its account.
abbrev state : State
state = record Example.state {
  config = record Example.state.config { mode = tx_selector };
  db = record Example.state.db { addr_bjj = λ a k t. if a == 3 then some 258 else none };
  exit_tree = none;
  accumulated_fees = [];
}

abbrev env : Env
env = record {
  selection_config = state.config;
  coord_addr = 3;
  coord_bjj = 13;
  coord_auth = [];
  account_creation_auth = λ a. none;
  future_txs = [];
}

abbrev runtime : Runtime
runtime = record {
  order_in_filter = λ groups. groups;
  order_in_sort = λ groups. groups;
  shuffle = λ txs. txs;
  greater = λ a b. ltb b a;
  add = λ a b. a + b;
  div = λ a b. a;
}

abbrev chosen : Selected
chosen = select_from env (λ _. runtime) pool [] state 3 []

abbrev ids : List PoolTx → List ℕ
ids [] = []
ids (t ∷ ts) = t.tx_id ∷ ids ts

abbrev selected_ids : Selected → List ℕ
selected_ids (finished sel) = ids sel.selected
selected_ids other = []

selected_both : selected_ids chosen ≡ 70 ∷ 71 ∷ []
unfolding select_from attempt passes process_l2_txs process_l1_user_txs filter_failed_atomic_groups
    find_failed filter_invalid_atomic_groups split_groups filter_groups sort_l2_txs sort_stable
    insert_stable combine select_tx check_tx check_sender ensure_coord_account ensure_receiver
    run_l2 settle no_slots can_add_l2_tx get_coord_idx coord_account_for_token_id
    get_idx_by_eth_addr_bjj get_idx_by_eth_addr check_enough_balance process_l2_tx apply_transfer
    get_account lookup ◌-ℤ◌ update_account insert ◌+ℤ◌ calc_fee_amount pay_fee
selected_both = refl

abbrev selection_of : Selected → Selection
selection_of (finished sel) = sel
selection_of other = start_selection state []

abbrev is_finished : Selected → Bool
is_finished (finished sel) = true
is_finished other = false

finished_of : (x : Selected) → is_finished x ≡ true → x ≡ finished (selection_of x)
finished_of (finished sel) e = refl
finished_of (restart g) e = absurd (ground arith)
finished_of (aborted w) e = absurd (ground arith)
finished_of out_of_fuel e = absurd (ground arith)

chosen-is_finished : is_finished chosen ≡ true
unfolding select_from attempt passes process_l2_txs process_l1_user_txs filter_failed_atomic_groups
    find_failed filter_invalid_atomic_groups split_groups filter_groups sort_l2_txs sort_stable
    insert_stable combine select_tx check_tx check_sender ensure_coord_account ensure_receiver
    run_l2 settle no_slots can_add_l2_tx get_coord_idx coord_account_for_token_id
    get_idx_by_eth_addr_bjj get_idx_by_eth_addr check_enough_balance process_l2_tx apply_transfer
    get_account lookup ◌-ℤ◌ update_account insert ◌+ℤ◌ calc_fee_amount pay_fee
chosen-is_finished = refl

chosen_finished : select_from env (λ _. runtime) pool [] state 3 [] ≡ finished (selection_of chosen)
chosen_finished = finished_of chosen chosen-is_finished

select_from-Fits_example : Fits env 0 (selection_of chosen)
select_from-Fits_example =
    select_from-Fits env (λ _. runtime) pool [] state (omega arith) (omega arith) 3 []
      (selection_of chosen) chosen_finished

runtime-IsFaithful : (good : ℕ → Bool) → IsFaithful good runtime
runtime-IsFaithful good = record {
  in_filter = λ groups h. h;
  in_sort = λ groups h. h;
  shuffled = λ txs h. h;
}

select_from-ne-out_of_fuel_example : select_from env (λ _. runtime) pool [] state 3 [] ≢ out_of_fuel
select_from-ne-out_of_fuel_example =
    select_from-ne-out_of_fuel env (λ _. runtime) pool [] state 3 (λ _. runtime-IsFaithful)
      (omega arith)

abbrev passed : Selected
passed = passes 3 env 0 pool (start_selection state [])

passed-is_finished : is_finished passed ≡ true
unfolding select_from attempt passes process_l2_txs process_l1_user_txs filter_failed_atomic_groups
    find_failed filter_invalid_atomic_groups split_groups filter_groups sort_l2_txs sort_stable
    insert_stable combine select_tx check_tx check_sender ensure_coord_account ensure_receiver
    run_l2 settle no_slots can_add_l2_tx get_coord_idx coord_account_for_token_id
    get_idx_by_eth_addr_bjj get_idx_by_eth_addr check_enough_balance process_l2_tx apply_transfer
    get_account lookup ◌-ℤ◌ update_account insert ◌+ℤ◌ calc_fee_amount pay_fee
passed-is_finished = refl

passed_finished : passes 3 env 0 pool (start_selection state []) ≡ finished (selection_of passed)
passed_finished = finished_of passed passed-is_finished

-- How often transaction 70 stands in a list.
abbrev is_70 : ℕ → ℕ
is_70 id = if id == 70 then 1 else 0

passes-weigh_example :
    weigh is_70 (selection_of passed).selected + weigh is_70 (selection_of passed).discarded
    ≡ weigh is_70 [] + weigh is_70 [] + weigh is_70 pool
passes-weigh_example =
    passes-weigh is_70 env 0 3 pool (start_selection state []) (selection_of passed) passed_finished

abbrev round : Step PoolTx
round = select_tx env (pool_tx 0) (start_pass 0 (start_selection state []))

abbrev picked : Step PoolTx → PoolTx
picked (go t l) = t
picked (stop x l) = pool_tx 0

abbrev loop_after : Step PoolTx → Loop
loop_after (go t l) = l
loop_after (stop x l) = l

abbrev goes : Step PoolTx → Bool
goes (go t l) = true
goes (stop x l) = false

go_of : (x : Step PoolTx) → goes x ≡ true → x ≡ go (picked x) (loop_after x)
go_of (go t l) e = refl
go_of (stop x l) e = absurd (ground arith)

round_does_go : goes round ≡ true
unfolding select_from attempt passes process_l2_txs process_l1_user_txs filter_failed_atomic_groups
    find_failed filter_invalid_atomic_groups split_groups filter_groups sort_l2_txs sort_stable
    insert_stable combine select_tx check_tx check_sender ensure_coord_account ensure_receiver
    run_l2 settle no_slots can_add_l2_tx get_coord_idx coord_account_for_token_id
    get_idx_by_eth_addr_bjj get_idx_by_eth_addr check_enough_balance process_l2_tx apply_transfer
    get_account lookup ◌-ℤ◌ update_account insert ◌+ℤ◌ calc_fee_amount pay_fee
round_does_go = refl

round_goes :
    select_tx env (pool_tx 0) (start_pass 0 (start_selection state []))
    ≡ go (picked round) (loop_after round)
round_goes = go_of round round_does_go

select_tx-CanPay_example :
    CanPay (pool_tx 0) state
    × (((transfer_tx 0).max_num_batch ≡ 0) ⊎ (next_batch_num state ≤ (transfer_tx 0).max_num_batch))
    × ((same_type transfer exit ≡ false) ⊎ (ltb_ℤ (pos 0) (pos 100) ≡ true))
    × SameTx (pool_tx 0) (picked round)
select_tx-CanPay_example =
    select_tx-CanPay env (pool_tx 0) (picked round) (start_pass 0 (start_selection state []))
      (loop_after round) round_goes
