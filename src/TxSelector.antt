-- ===== src/TxSelector.antt =====
-- v2/txselector/txselector.go: which transactions of the pool go into the next batch. The pool's
-- database is a parameter of the model (`Env`): the transactions that it holds, and the account
-- creation authorizations that it knows. The local StateDB of the selector and the one of its
-- TxProcessor are one object, that in the processor's state. Metrics and logs are left out.
pub mod Loop
pub mod Groups
pub mod Receivers
pub mod Steps
pub mod Limits
pub mod Frames
pub mod Places
pub mod Checks
pub mod Selection
mod Tests
use hermez_node.Prelude.{
  ℕ, ◌+◌, ◌%◌, ◌^◌, Bool, true, false, not, ltb, leb, ◌==◌, ◌&&◌, ◌||◌, if◌then◌else◌, Option, none,
  some, List, [], ◌∷◌, ◌++◌,
}
use hermez_node.Prelude.Int.{ℤ, pos}
use hermez_node.Prelude.Dict.{Dict, lookup, insert}
use hermez_node.Prelude.Result.{
  Error, Result, ok, err, idx_not_found, receiver_pending, no_authorization, wrong_authorization,
  no_l1_slot,
}
use hermez_node.Common.Ids.{user_threshold}
use hermez_node.Common.Account.{Account}
use hermez_node.Common.Tx.{create_account_deposit, exit, same_type}
use hermez_node.Common.L1Tx.{L1Tx}
use hermez_node.Common.PoolL2Tx.{PoolL2Tx, empty_addr, empty_bjj_comp, ff_addr}
use hermez_node.StateDb.{StateDb, get_account, get_idx_by_eth_addr, get_idx_by_eth_addr_bjj}
use hermez_node.TxProcessor.State.{State, Config}
use hermez_node.TxProcessor.Monad.{Action}
use hermez_node.TxProcessor.Process.{Processed, process_l1_tx, process_l2_tx, resolve_to}
use hermez_node.TxProcessor.Enough.{check_enough_balance}

-- `common.TxSelectorError`, one constructor for each message, with what is formatted into it.
pub data Reason : Type 0 where
  no_info no_available_slots unsupported_max_num_batch exit_amount : Reason
  sender_not_enough_balance : Option ℤ → Option ℤ → Reason
  no_current_nonce : ℕ → ℕ → Reason
  not_enough_space_l1_coordinator invalid_atomic_group : Reason
  discarded_to_eth_addr_bjj discarded_in_process_l2_tx : Error → Reason
  to_idx_not_found : ℕ → Reason
  unselectable_group : ℕ → ℕ → Reason → Reason

-- The fields of a pool transaction that the selector reads beside those of PoolL2Tx. The float64
-- `AbsoluteFee` is kept by its bit pattern.
pub record PoolTx : Type 0 where
  pub l2 : PoolL2Tx
  pub tx_id : ℕ
  pub atomic_group_id : ℕ
  pub absolute_fee : ℕ
  pub info : Reason

abbrev pub empty_atomic_group_id : ℕ
empty_atomic_group_id = 0

abbrev pub is_atomic : PoolTx → Bool
is_atomic t = not (t.atomic_group_id == empty_atomic_group_id)

abbrev pub Bytes : Type 0
Bytes = List ℕ

-- `common.AccountCreationAuth`
pub record Auth : Type 0 where
  pub eth_addr : ℕ
  pub bjj : ℕ
  pub signature : Bytes

-- `selectionConfig`, `CoordAccount`, what the pool's database answers, and the L1 transactions of
-- the next batch.
pub record Env : Type 0 where
  pub selection_config : Config
  pub coord_addr : ℕ
  pub coord_bjj : ℕ
  pub coord_auth : Bytes
  pub account_creation_auth : ℕ → Option Auth
  pub future_txs : List L1Tx

-- `EmptyEthSignature`
abbrev pub empty_eth_signature : Bytes
empty_eth_signature = hermez_node.Bytes.zeros 65

-- `canAddL2Tx`
unfoldable pub can_add_l2_tx : ℕ → ℕ → Config → Bool
can_add_l2_tx n_l1 n_l2 config = ltb (n_l1 + n_l2) config.max_tx

-- `canAddL2TxThatNeedsNewCoordL1Tx`
unfoldable pub can_add_l2_tx_that_needs_new_coord_l1_tx : ℕ → ℕ → Config → Bool
can_add_l2_tx_that_needs_new_coord_l1_tx n_l1 n_l2 config =
    ltb n_l1 config.max_l1_tx && ltb (n_l1 + n_l2 + 1) config.max_tx

-- `checkPendingToCreateFutureTxs`
unfoldable pub check_pending_to_create_future_txs : List L1Tx → ℕ → ℕ → ℕ → Bool
check_pending_to_create_future_txs [] token addr bjj = false
check_pending_to_create_future_txs (f ∷ fs) token addr bjj =
    (f.from_eth_addr == addr && f.token_id == token && f.from_bjj == bjj)
    || (f.from_eth_addr == addr && f.token_id == token && bjj == empty_bjj_comp)
    || check_pending_to_create_future_txs fs token addr bjj

-- A coordinator's transaction that creates an account.
abbrev pub create_tx : (position addr bjj token : ℕ) → L1Tx
create_tx position addr bjj token = record {
  to_forge_l1_txs_num = none;
  position = position;
  user_origin = false;
  from_idx = 0;
  effective_from_idx = 0;
  from_eth_addr = addr;
  from_bjj = bjj;
  to_idx = 0;
  token_id = token;
  amount = pos 0;
  effective_amount = pos 0;
  deposit_amount = pos 0;
  effective_deposit_amount = pos 0;
  eth_block_num = 0;
  tx_type = create_account_deposit;
  batch_num = none;
}

module _ (env : Env) where
  -- `getCoordIdx`
  unfoldable pub get_coord_idx : ℕ → StateDb → Result ℕ
  get_coord_idx token db = get_idx_by_eth_addr_bjj env.coord_addr env.coord_bjj token db

  -- `coordAccountForTokenID`, less the position that it returns unchanged
  unfoldable pub coord_account_for_token_id : ℕ → ℕ → StateDb → Result (Option L1Tx)
  unfolding get_coord_idx
  coord_account_for_token_id token position db = elim (get_coord_idx token db) [
    | ok idx ↦ ok none
    | err idx_not_found ↦ ok (some (create_tx position env.coord_addr env.coord_bjj token))
    | err other ↦ err other
  ]

  -- The last test of `processTxToEthAddrBJJ`
  abbrev pub if_space : ℕ → ℕ → Option L1Tx × Option Auth → Result (Option L1Tx × Option Auth)
  if_space n_l1 n_l2 created =
      if can_add_l2_tx_that_needs_new_coord_l1_tx n_l1 n_l2 env.selection_config
      then ok created
      else err no_l1_slot

  -- The account of a receiver with an address, with the authorization that was found
  abbrev pub authorized : ℕ → PoolL2Tx → Auth → Option L1Tx × Option Auth
  authorized position tx a = (some (create_tx position a.eth_addr a.bjj tx.token_id), some a)

  module _ (n_l1 n_l2 position : ℕ) (tx : PoolL2Tx) (db : StateDb) where
    -- The three cases of `processTxToEthAddrBJJ`: an address and a key, an address, a key.
    unfoldable pub receiver_by_addr_and_bjj : Result (Option L1Tx × Option Auth)
    receiver_by_addr_and_bjj =
        elim (get_idx_by_eth_addr_bjj tx.to_eth_addr tx.to_bjj tx.token_id db) [
          | ok _ ↦ ok (none, none)
          | err _ ↦ elim (env.account_creation_auth tx.to_eth_addr) [
            | none ↦ err no_authorization
            | some a ↦
                if not (a.bjj == tx.to_bjj)
                then err wrong_authorization
                else if_space n_l1 n_l2 (authorized position tx a)
          ]
        ]

    unfoldable pub receiver_by_addr : Result (Option L1Tx × Option Auth)
    receiver_by_addr = elim (get_idx_by_eth_addr tx.to_eth_addr tx.token_id db) [
      | ok _ ↦ ok (none, none)
      | err _ ↦ elim (env.account_creation_auth tx.to_eth_addr) [
        | none ↦ err no_authorization
        | some a ↦ if_space n_l1 n_l2 (authorized position tx a)
      ]
    ]

    unfoldable pub receiver_by_bjj : Result (Option L1Tx × Option Auth)
    receiver_by_bjj = elim (get_idx_by_eth_addr_bjj tx.to_eth_addr tx.to_bjj tx.token_id db) [
      | ok _ ↦ ok (none, none)
      | err _ ↦
          if_space n_l1 n_l2 (some (create_tx position tx.to_eth_addr tx.to_bjj tx.token_id), none)
    ]

    -- which of them it is
    unfoldable pub by_receiver : Result (Option L1Tx × Option Auth)
    by_receiver =
        if not (tx.to_eth_addr == empty_addr) && not (tx.to_eth_addr == ff_addr)
        then if not (tx.to_bjj == empty_bjj_comp)
          then receiver_by_addr_and_bjj
          else receiver_by_addr
        else if tx.to_eth_addr == ff_addr && not (tx.to_bjj == empty_bjj_comp)
        then receiver_by_bjj
        else if_space n_l1 n_l2 (none, none)

    -- `processTxToEthAddrBJJ`: the transaction that creates the receiver's account, if it has none,
    -- and its authorization. (The pointer to the transaction itself is nil exactly on an error.)
    unfoldable pub process_tx_to_eth_addr_bjj : Result (Option L1Tx × Option Auth)
    process_tx_to_eth_addr_bjj =
        if check_pending_to_create_future_txs env.future_txs tx.token_id tx.to_eth_addr tx.to_bjj
        then err receiver_pending
        else by_receiver
