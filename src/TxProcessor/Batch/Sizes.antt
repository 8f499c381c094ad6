-- ===== src/TxProcessor/Batch/Sizes.antt =====
-- The limits on the size of a batch in ProcessTxs (v2/txprocessor/txprocessor.go).
use hermez_node.Prelude.{
  ℕ, ◌+◌, ◌≤◌, ◌≡◌, ◌⊎◌, inl, inr, arith, ltb, Bool, true, false, List, length, Bool-cases,
}
use hermez_node.Prelude.Result.{Error, err, too_many_coord_idxs, too_many_txs, too_many_l1_txs}
use hermez_node.Common.L1Tx.{L1Tx}
use hermez_node.Common.PoolL2Tx.{PoolL2Tx}
use hermez_node.TxProcessor.State.{State}
use hermez_node.TxProcessor.Batch.{check_sizes, process_txs, run_batch}
use hermez_node.TxProcessor.Steps.{bind_err}

-- The batch is within the limits of the configuration.
abbrev pub Within : State → List ℕ → List L1Tx → List L1Tx → List PoolL2Tx → Type 0
Within s coord_idxs l1_user l1_coord l2 =
    (length coord_idxs ≤ s.config.max_fee_tx)
    × (length l1_user + length l1_coord + length l2 ≤ s.config.max_tx)
    × (length l1_user + length l1_coord ≤ s.config.max_l1_tx)

-- A batch within the limits passes, another is refused; the state stays.
check_sizes_cases :
    (c : List ℕ) (u k : List L1Tx) (l : List PoolL2Tx) (s : State)
    → (Within s c u k l) ⊎ ((e : Error) × (check_sizes c u k l s ≡ (err e, s)))
check_sizes_cases c u k l s =
    by_tests (Bool-cases (ltb s.config.max_fee_tx (length c)))
      (Bool-cases (ltb s.config.max_tx (length u + length k + length l)))
      (Bool-cases (ltb s.config.max_l1_tx (length u + length k)))
  where
    IsTested : Bool → Type 0
    IsTested b = (b ≡ true) ⊎ (b ≡ false)

    by_tests :
        IsTested (ltb s.config.max_fee_tx (length c))
        → IsTested (ltb s.config.max_tx (length u + length k + length l))
        → IsTested (ltb s.config.max_l1_tx (length u + length k))
        → (Within s c u k l) ⊎ ((e : Error) × (check_sizes c u k l s ≡ (err e, s)))
    by_tests (inl p) q r = inr (too_many_coord_idxs, ground arith)
    by_tests (inr p) (inl q) r = inr (too_many_txs, ground arith)
    by_tests (inr p) (inr q) (inl r) = inr (too_many_l1_txs, ground arith)
    by_tests (inr p) (inr q) (inr r) = inl (ground arith)

-- ProcessTxs of a batch beyond a limit fails before it changes anything: the state is the one it was
-- called with.
pub process_txs_refuses :
    (c : List ℕ) (u k : List L1Tx) (l : List PoolL2Tx) (s : State)
    → ¬ Within s c u k l
    → (e : Error) × (process_txs c u k l s ≡ (err e, s))
unfolding process_txs
process_txs_refuses c u k l s beyond = elim (check_sizes_cases c u k l s) [
  | inl within ↦ absurd (beyond within)
  | inr (e, q) ↦ (e, bind_err (check_sizes c u k l) (λ _. run_batch c u k l) s q)
]
