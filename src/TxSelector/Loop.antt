-- ===== src/TxSelector/Loop.antt =====
-- `processL2Txs` of v2/txselector/txselector.go: one pass over the transactions that can be selected.
use hermez_node.Prelude.{
  ℕ, ◌+◌, ◌%◌, ◌^◌, Bool, true, false, not, ltb, leb, ◌==◌, ◌&&◌, if◌then◌else◌, Option, none, some,
  List, [], ◌∷◌, ◌++◌,
}
use hermez_node.Prelude.Int.{pos, ltb_ℤ}
use hermez_node.Prelude.Dict.{lookup, insert}
use hermez_node.Prelude.Result.{Error, Result, ok, err}
use hermez_node.Common.Ids.{user_threshold}
use hermez_node.Common.Tx.{exit, same_type}
use hermez_node.Common.L1Tx.{L1Tx}
use hermez_node.Common.PoolL2Tx.{PoolL2Tx, ff_addr}
use hermez_node.StateDb.{get_account}
use hermez_node.TxProcessor.State.{State}
use hermez_node.TxProcessor.Process.{process_l1_tx, process_l2_tx, resolve_to}
use hermez_node.TxProcessor.Enough.{check_enough_balance}
use hermez_node.TxSelector.{
  PoolTx, Reason, Env, Auth, Bytes, is_atomic, can_add_l2_tx,
  can_add_l2_tx_that_needs_new_coord_l1_tx, get_coord_idx, coord_account_for_token_id,
  process_tx_to_eth_addr_bjj, empty_eth_signature, no_available_slots, unsupported_max_num_batch,
  exit_amount, sender_not_enough_balance, no_current_nonce, not_enough_space_l1_coordinator,
  discarded_to_eth_addr_bjj, discarded_in_process_l2_tx, to_idx_not_found,
}

-- The variables of the loop, its named results among them, and the state of the TxProcessor.
pub record Loop : Type 0 where
  pub tp : State
  pub n_l1 : ℕ
  pub n_l2 : ℕ
  pub position : ℕ
  pub acc_auths : List Bytes
  pub l1_coordinator_txs : List L1Tx
  pub selected : List PoolTx
  pub non_selected : List PoolTx
  pub unforgeable : List PoolTx

-- How one round ends before its transaction is selected: it is put aside, for now or for good, or
-- the pass ends with an error.
pub data Stop : Type 0 where
  put_aside discard : Reason → PoolTx → Stop
  fatal : Error → Stop

pub data Step (A : Type 0) : Type 0 where
  go : A → Loop → Step A
  stop : Stop → Loop → Step A

abbrev pub Check : Type 0 → Type 0
Check A = Loop → Step A

infixl 5 ◌>>=◌ ◌>>◌
abbrev pub ◌>>=◌ : {A B : Type 0} → Check A → (A → Check B) → Check B
◌>>=◌ m f l = elim (m l) [ go a l' ↦ f a l' | stop s l' ↦ stop s l' ]

abbrev pub ◌>>◌ : {B : Type 0} → Check (Unit {0}) → Check B → Check B
m >> k = m >>= λ _. k

abbrev pub pure : {A : Type 0} → A → Check A
pure a l = go a l

abbrev pub gets : {A : Type 0} → (Loop → A) → Check A
gets f l = go (f l) l

abbrev pub modify : (Loop → Loop) → Check (Unit {0})
modify f l = go tt (f l)

abbrev pub stop_if : Bool → Stop → Check (Unit {0})
stop_if true s l = stop s l
stop_if false s l = go tt l

-- a result that ends the pass if it is an error
abbrev pub required : {A : Type 0} → (Loop → Result A) → Check A
required f l = elim (f l) [ ok a ↦ go a l | err e ↦ stop (fatal e) l ]

-- `tp.ProcessL1Tx` of a transaction of the coordinator, which is counted
abbrev pub run_l1 : L1Tx → Check (Unit {0})
run_l1 tx l =
    let (r, s) = process_l1_tx tx l.tp in
    elim r [
      | ok _ ↦ go tt (record l { tp = s; n_l1 = l.n_l1 + 1 })
      | err e ↦ stop (fatal e) (record l { tp = s })
    ]

-- the lists get the coordinator's transaction and its authorization
abbrev pub add_l1 : L1Tx → Bytes → Check (Unit {0})
add_l1 tx auth = modify (λ (l : Loop). record l {
  position = l.position + 1;
  l1_coordinator_txs = l.l1_coordinator_txs ++ (tx ∷ []);
  acc_auths = l.acc_auths ++ (auth ∷ []);
})

-- `nextBatchNum`
abbrev pub next_batch_num : State → ℕ
next_batch_num s = (s.db.current_batch % 2 ^ 32 + 1) % 2 ^ 32

abbrev pub is_too_late : PoolTx → State → Bool
is_too_late t s = not (t.l2.max_num_batch == 0) && ltb t.l2.max_num_batch (next_batch_num s)

abbrev pub is_empty_exit : PoolTx → Bool
is_empty_exit t = same_type t.l2.tx_type exit && not (ltb_ℤ (pos 0) t.l2.amount)

-- The checks that look at the transaction alone.
unfoldable pub check_tx : PoolTx → Check (Unit {0})
check_tx t = do
  l ← gets (λ l. l)
  stop_if (is_too_late t l.tp) (discard unsupported_max_num_batch t)
  stop_if (is_empty_exit t) (discard exit_amount t)

abbrev pub with_token : ℕ → PoolTx → PoolTx
with_token token t = record t { l2 = record t.l2 { token_id = token } }

-- The checks of the sender: it gives the token, and must have the balance and the nonce.
unfoldable pub check_sender : PoolTx → Check PoolTx
check_sender t = do
  sender ← required (λ l. get_account t.l2.from_idx l.tp.db)
  let t' = with_token sender.token_id t
  (enough, balance, fee_and_amount) ← gets (λ l. check_enough_balance t'.l2 l.tp)
  stop_if (not enough) (put_aside (sender_not_enough_balance balance fee_and_amount) t')
  stop_if (not (t'.l2.nonce == sender.nonce))
      (put_aside (no_current_nonce t'.l2.nonce sender.nonce) t')
  pure t'

module _ (env : Env) where
  -- The coordinator's account for the token of the fee, created if need be.
  unfoldable pub ensure_coord_account : PoolTx → Check (Unit {0})
  ensure_coord_account t = do
    created ← required (λ l. coord_account_for_token_id env t.l2.token_id l.position l.tp.db)
    elim created [
      | none ↦ pure tt
      | some tx ↦ do
        l ← gets (λ l. l)
        stop_if (not (can_add_l2_tx_that_needs_new_coord_l1_tx l.n_l1 l.n_l2 env.selection_config))
            (put_aside not_enough_space_l1_coordinator t)
        add_l1 tx env.coord_auth
        run_l1 tx
    ]

  -- The lists get the receiver's account: without an authorization where it has no address, and
  -- else with the one that was found.
  abbrev pub add_receiver : PoolTx → L1Tx → Option Auth → Check (Unit {0})
  add_receiver t tx auth =
      if t.l2.to_eth_addr == ff_addr
      then add_l1 tx empty_eth_signature
      else elim auth [ none ↦ pure tt | some a ↦ add_l1 tx a.signature ]

  -- The receiver's account, created if need be and possible.
  unfoldable pub ensure_receiver : PoolTx → Check (Unit {0})
  ensure_receiver t l =
      if t.l2.to_idx == 0
      then elim (process_tx_to_eth_addr_bjj env l.n_l1 l.n_l2 l.position t.l2 l.tp.db) [
        | err e ↦ stop (put_aside (discarded_to_eth_addr_bjj e) t) l
        | ok (none, auth) ↦ go tt l
        | ok (some tx, auth) ↦ (do add_receiver t tx auth; run_l1 tx) l
      ]
      else if leb user_threshold t.l2.to_idx
      then elim (get_account t.l2.to_idx l.tp.db) [
        | err _ ↦ stop (put_aside (to_idx_not_found t.l2.to_idx) t) l
        | ok _ ↦ go tt l
      ]
      else go tt l

  -- `tp.AccumulatedFees[coordIdx]`, 0 if it was not there
  abbrev pub with_fee_entry : ℕ → State → State
  with_fee_entry coord_idx s = elim (lookup coord_idx s.accumulated_fees) [
    | none ↦ record s { accumulated_fees = insert coord_idx (pos 0) s.accumulated_fees }
    | some _ ↦ s
  ]

  -- What ProcessL2Tx leaves of the transaction when it fails: it may have found the receiver.
  unfoldable pub after_failure : PoolL2Tx → State → PoolL2Tx
  after_failure tx s = elim (resolve_to tx s).0 [ ok resolved ↦ resolved | err _ ↦ tx ]

  -- `tp.ProcessL2Tx`
  unfoldable pub run_l2 : PoolTx → Check PoolTx
  run_l2 t = do
    coord_idx ← required (λ l. get_coord_idx env t.l2.token_id l.tp.db)
    modify (λ (l : Loop). record l { tp = with_fee_entry coord_idx l.tp })
    λ l.
        let (r, s) = process_l2_tx ((t.l2.token_id, coord_idx) ∷ []) t.l2 l.tp in
        elim r [
          | ok p ↦ go (record t { l2 = p.tx }) (record l { tp = s; n_l2 = l.n_l2 + 1 })
          | err e ↦
              stop
                (put_aside (discarded_in_process_l2_tx e)
                  (record t { l2 = after_failure t.l2 l.tp }))
                (record l { tp = s })
        ]

  -- One round of the loop, less its first test: the transaction as it is selected.
  unfoldable pub select_tx : PoolTx → Check PoolTx
  select_tx t = do
    check_tx t
    t' ← check_sender t
    ensure_coord_account t'
    ensure_receiver t'
    run_l2 t'

-- `failedAtomicGroup`
pub record FailedGroup : Type 0 where
  pub id : ℕ
  pub failed_tx_id : ℕ
  pub reason : Reason

-- How a pass ends.
pub data Outcome : Type 0 where
  done : Loop → Outcome
  group_failed : FailedGroup → Outcome
  failed : Error → Outcome

abbrev pub failed_group : PoolTx → Reason → FailedGroup
failed_group t why = record { id = t.atomic_group_id; failed_tx_id = t.tx_id; reason = why }

abbrev pub with_info : Reason → PoolTx → PoolTx
with_info why t = record t { info = why }

-- The end of a round. An atomic transaction that is not selected fails its group.
unfoldable pub settle : Step PoolTx → Outcome
settle (go t l) = done (record l { selected = l.selected ++ (t ∷ []) })
settle (stop (put_aside why t) l) =
    if is_atomic t
    then group_failed (failed_group t why)
    else done (record l { non_selected = l.non_selected ++ (with_info why t ∷ []) })
settle (stop (discard why t) l) =
    if is_atomic t
    then group_failed (failed_group t why)
    else done (record l { unforgeable = l.unforgeable ++ (with_info why t ∷ []) })
settle (stop (fatal e) l) = failed e

-- No slot is left: the rest is put aside, the first of it with the reason.
unfoldable pub no_slots : PoolTx → List PoolTx → Loop → Outcome
no_slots t rest l =
    if is_atomic t
    then group_failed (failed_group t no_available_slots)
    else done
        (record l { non_selected = l.non_selected ++ (with_info no_available_slots t ∷ rest) })

-- `processL2Txs`
unfoldable pub process_l2_txs : Env → List PoolTx → Loop → Outcome
process_l2_txs env [] l = done l
process_l2_txs env (t ∷ rest) l = elim (can_add_l2_tx l.n_l1 l.n_l2 env.selection_config) [
  | false ↦ no_slots t rest l
  | true ↦ elim (settle (select_tx env t l)) [
    | done l' ↦ process_l2_txs env rest l'
    | group_failed g ↦ group_failed g
    | failed e ↦ failed e
  ]
]
