-- ===== src/TxProcessor/Batch.antt =====
-- v2/txprocessor/txprocessor.go, ProcessTxs: one batch of L1 user, L1 coordinator and L2
-- transactions, for a StateDB that builds no ZKInputs.
pub mod Sizes
use hermez_node.Prelude.{
  ℕ, ◌+◌, Bool, true, false, not, ltb, if◌then◌else◌, Option, none, some, List, [], ◌∷◌, ◌++◌,
  length,
}
use hermez_node.Prelude.Int.{ℤ, pos}
use hermez_node.Prelude.Dict.{Dict, lookup, insert}
use hermez_node.Prelude.Result.{Result, ok, err, too_many_coord_idxs, too_many_txs, too_many_l1_txs}
use hermez_node.Common.Account.{Account}
use hermez_node.Common.L1Tx.{L1Tx}
use hermez_node.Common.PoolL2Tx.{PoolL2Tx}
use hermez_node.StateDb.{make_checkpoint, Accounts}
use hermez_node.TxProcessor.State.{State, is_synchronizer}
use hermez_node.TxProcessor.Monad.{Action, ◌>>=◌, ◌>>◌, pure, throw_if, gets, modify}
use hermez_node.TxProcessor.Apply.{get, update, add_balance, amount_at}
use hermez_node.TxProcessor.Process.{Processed, sync, process_l1_tx, process_l2_tx}

-- What the loops gather: the transactions as left behind, the exits, the created accounts.
pub record Gathered (T : Type 0) : Type 0 where
  pub txs : List T
  pub exits : List (ℕ × Account)
  pub created : List Account

abbrev nothing_gathered : {T : Type 0} → Gathered T
nothing_gathered = record { txs = []; exits = []; created = [] }

-- `exits[txIndex]`, filled when there is an exit and an exit account
abbrev exit_of : {T : Type 0} → Processed T → List (ℕ × Account)
exit_of p = elim p.exit_idx [
  | none ↦ []
  | some i ↦ elim p.exit [ none ↦ [] | some (a, _) ↦ (i, a) ∷ [] ]
]

abbrev created_of : {T : Type 0} → Processed T → List Account
created_of p = elim p.created [ none ↦ [] | some a ↦ a ∷ [] ]

-- `EffectiveFromIdx`, which a synchronizer sets
abbrev set_effective_from : Bool → Processed L1Tx → L1Tx
set_effective_from synchronizing p =
    if synchronizing
    then record (p.tx) {
      effective_from_idx = elim p.created [ none ↦ p.tx.from_idx | some a ↦ a.idx ];
    }
    else p.tx

-- The loop over L1 transactions. The loop over those of the coordinator ignores their exits.
unfoldable pub process_l1_txs : (keep_exits : Bool) → List L1Tx → Action (Gathered L1Tx)
process_l1_txs keep_exits [] = pure nothing_gathered
process_l1_txs keep_exits (tx ∷ txs) = do
  p ← process_l1_tx tx
  synchronizing ← sync
  rest ← process_l1_txs keep_exits txs
  pure (record {
    txs = set_effective_from synchronizing p ∷ rest.txs;
    exits = (if keep_exits then exit_of p else []) ++ rest.exits;
    created = created_of p ++ rest.created;
  })

unfoldable pub process_l2_txs : Dict ℕ → List PoolL2Tx → Action (Gathered PoolL2Tx)
process_l2_txs coord_idxs_map [] = pure nothing_gathered
process_l2_txs coord_idxs_map (tx ∷ txs) = do
  p ← process_l2_tx coord_idxs_map tx
  rest ← process_l2_txs coord_idxs_map txs
  pure (record { txs = p.tx ∷ rest.txs; exits = exit_of p ++ rest.exits; created = rest.created })

-- Keeps the first coordinator's Idx of each token. `used` holds the tokens seen.
unfoldable pub filter_coord_idxs : Dict Bool → List ℕ → Action (List ℕ)
filter_coord_idxs used [] = pure []
filter_coord_idxs used (i ∷ is) = do
  coord ← get i
  let fresh : Bool = elim (lookup coord.token_id used) [ none ↦ true | some _ ↦ false ]
  rest ← filter_coord_idxs (insert coord.token_id true used) is
  pure (if fresh then i ∷ rest else rest)

-- `StateDB.GetTokenIDsFromIdxs`, into the map `m`
unfoldable pub get_token_ids : Dict ℕ → List ℕ → Action (Dict ℕ)
get_token_ids m [] = pure m
get_token_ids m (i ∷ is) = do a ← get i; get_token_ids (insert a.token_id i m) is

abbrev zero_for : List ℕ → Dict ℤ → Dict ℤ
zero_for [] d = d
zero_for (i ∷ is) d = zero_for is (insert i (pos 0) d)

abbrev keys : Dict ℕ → List ℕ
keys [] = []
keys ((k, _) ∷ d) = k ∷ keys d

-- Distributes the accumulated fees to the coordinator's accounts.
unfoldable pub distribute_fees : List ℕ → Action (Unit {0})
distribute_fees [] = pure tt
distribute_fees (i ∷ is) = do
  fee ← gets (λ s. amount_at i s.accumulated_fees)
  coord ← get i
  update i (add_balance fee coord)
  distribute_fees is

-- The exits by Idx, in the order of their first occurrence and with the account of the last.
abbrev exit_infos_from : Dict ℤ → List (ℕ × Account) → Dict ℤ
exit_infos_from d [] = d
exit_infos_from d ((i, a) ∷ es) = exit_infos_from (insert i a.balance d) es

pub record Output : Type 0 where
  pub l1_user_txs : List L1Tx
  pub l1_coordinator_txs : List L1Tx
  pub l2_txs : List PoolL2Tx
  -- the AccountIdx and Balance of each ExitInfo; its Merkle proof is not modelled
  pub exit_infos : Dict ℤ
  pub created_accounts : List Account
  pub coordinator_idxs_map : Dict ℕ
  pub collected_fees : Dict ℤ
  pub updated_accounts : Accounts

-- The checks of `ProcessTxs` on the size of a batch.
abbrev pub check_sizes : List ℕ → List L1Tx → List L1Tx → List PoolL2Tx → Action (Unit {0})
check_sizes coord_idxs l1_user l1_coord l2 = do
  config ← gets (λ s. s.config)
  throw_if (ltb config.max_fee_tx (length coord_idxs)) too_many_coord_idxs
  throw_if (ltb config.max_tx (length l1_user + length l1_coord + length l2)) too_many_txs
  throw_if (ltb config.max_l1_tx (length l1_user + length l1_coord)) too_many_l1_txs

-- The fresh maps and the exit tree of a synchronizer.
abbrev pub begin_batch : State → State
begin_batch s =
    if is_synchronizer s.config.mode
    then record s { updated_accounts = []; exit_tree = some [] }
    else record s { exit_tree = none }

-- `AccumulatedFees` and `collectedFees` before the L2 transactions
abbrev pub begin_fees : List ℕ → Dict ℕ → State → State
begin_fees coord_idxs coord_idxs_map s = record s {
  accumulated_fees = zero_for coord_idxs [];
  collected_fees = if is_synchronizer s.config.mode then zero_for (keys coord_idxs_map) [] else [];
}

-- `ProcessTxs` after its checks.
unfoldable pub run_batch : List ℕ → List L1Tx → List L1Tx → List PoolL2Tx → Action (Option Output)
run_batch coord_idxs l1_user l1_coord l2 = do
  modify begin_batch
  users ← process_l1_txs true l1_user
  coords ← process_l1_txs false l1_coord
  filtered ← filter_coord_idxs [] coord_idxs
  coord_idxs_map ← get_token_ids [] filtered
  modify (begin_fees filtered coord_idxs_map)
  pool ← process_l2_txs coord_idxs_map l2
  distribute_fees filtered
  modify (λ s. record s { db = make_checkpoint s.db })
  synchronizing ← sync
  collected ← gets (λ s. s.collected_fees)
  updated ← gets (λ s. s.updated_accounts)
  pure (
      if synchronizing
      then some (record {
        l1_user_txs = users.txs;
        l1_coordinator_txs = coords.txs;
        l2_txs = pool.txs;
        exit_infos = exit_infos_from [] (users.exits ++ pool.exits);
        created_accounts = users.created ++ coords.created;
        coordinator_idxs_map = coord_idxs_map;
        collected_fees = collected;
        updated_accounts = updated;
      })
      else none)

-- `ProcessTxs`; under a tx selector the source returns no output.
unfoldable pub process_txs : List ℕ → List L1Tx → List L1Tx → List PoolL2Tx → Action (Option Output)
unfolding run_batch
process_txs coord_idxs l1_user l1_coord l2 = do
  check_sizes coord_idxs l1_user l1_coord l2
  run_batch coord_idxs l1_user l1_coord l2
