-- ===== src/TxSelector/Selection/Batches.antt =====
-- The limits of a batch over the selection loop of `getL1L2TxSelection`
-- (v2/txselector/txselector.go).
use hermez_node.Prelude.{
  ℕ, ◌+◌, ◌≤◌, ◌≡◌, refl, sym, List, [], ◌∷◌, ◌++◌, length, length-append, arith,
}
use mathlib.Core.Path.{subst}
use hermez_node.Common.L1Tx.{L1Tx}
use hermez_node.TxProcessor.State.{State}
use hermez_node.TxSelector.{PoolTx, Env}
use hermez_node.TxSelector.Loop.{Loop, done, process_l2_txs}
use hermez_node.TxSelector.Limits.{Counted, Numbered}
use hermez_node.TxSelector.Limits.Round.{process_l2_txs-Counted}
use hermez_node.TxSelector.Selection.{
  Selection, finished, start_pass, add_pass, passes, start_selection,
}
use hermez_node.TxSelector.Selection.Passes.{passes-rule}

module _ (env : Env) (n_user : ℕ) where
  Numbered-append_all :
      (first : ℕ) (xs ys : List L1Tx)
      → Numbered first xs
      → Numbered (first + length xs) ys
      → Numbered first (xs ++ ys)
  Numbered-append_all first [] ys h k = subst (λ (n : ℕ). Numbered n ys) (omega arith) k
  Numbered-append_all first (x ∷ xs) ys h k = (
    h.0,
    Numbered-append_all (first + 1) xs ys h.1 (subst (λ (n : ℕ). Numbered n ys) (omega arith) k),
  )

  -- What a selection keeps to: the batch holds at most MaxL1Tx L1 transactions, of which `n_user`
  -- are of users, and at most MaxTx transactions; the coordinator's are numbered on from those of
  -- the users, each with an authorization.
  pub record Fits (sel : Selection) : Type 0 where
    pub l1 : n_user + length sel.l1_coordinator_txs ≤ env.selection_config.max_l1_tx
    pub all :
        n_user + length sel.l1_coordinator_txs + length sel.selected ≤ env.selection_config.max_tx
    pub numbered : Numbered n_user sel.l1_coordinator_txs
    pub authorized : length sel.acc_auths ≡ length sel.l1_coordinator_txs

  start-Counted :
      (sel : Selection)
      → Fits sel
      → Counted env.selection_config
          (n_user + length sel.l1_coordinator_txs)
          (length sel.selected)
          (start_pass n_user sel)
  start-Counted sel f = record {
    counted_l1 = omega arith;
    counted_l2 = omega arith;
    next_position = refl;
    numbered = tt;
    authorized = refl;
    within_l1 = f.l1;
    within = f.all;
  }

  add_pass-Fits :
      (txs : List PoolTx) (sel : Selection) (l : Loop)
      → Fits sel
      → process_l2_txs env txs (start_pass n_user sel) ≡ done l
      → Fits (add_pass l sel)
  add_pass-Fits txs sel l f e =
      let c =
        process_l2_txs-Counted env (n_user + length sel.l1_coordinator_txs) (length sel.selected)
          txs (start_pass n_user sel) l (start-Counted sel f) e in
      record {
        l1 = omega (
          arith,
          c.counted_l1,
          c.within_l1,
          length-append sel.l1_coordinator_txs l.l1_coordinator_txs,
        );
        all = omega (
          arith,
          c.counted_l1,
          c.counted_l2,
          c.within,
          length-append sel.l1_coordinator_txs l.l1_coordinator_txs,
          length-append sel.selected l.selected,
        );
        numbered =
            Numbered-append_all n_user sel.l1_coordinator_txs l.l1_coordinator_txs f.numbered
              c.numbered;
        authorized = omega (
          arith,
          f.authorized,
          c.authorized,
          length-append sel.acc_auths l.acc_auths,
          length-append sel.l1_coordinator_txs l.l1_coordinator_txs,
        );
      }

-- A selection that the loop makes keeps to the limits, if the L1 transactions of the users do and
-- nothing else was selected before.
pub passes-Fits :
    (env : Env) (n_user fuel : ℕ) (txs : List PoolTx) (sel sel' : Selection)
    → Fits env n_user sel
    → passes fuel env n_user txs sel ≡ finished sel'
    → Fits env n_user sel'
passes-Fits env n_user fuel txs sel sel' f e =
    let (rest, last, g, q) =
      passes-rule env n_user (λ _ s. Fits env n_user s)
        (λ ts s l p z. add_pass-Fits env n_user ts s l p z) fuel txs sel sel' f e in
    subst (Fits env n_user) (sym q)
      (record { l1 = g.l1; all = g.all; numbered = g.numbered; authorized = g.authorized })

-- Nothing selected yet.
pub start_selection-Fits :
    (env : Env) (n_user : ℕ) (s : State) (discarded : List PoolTx)
    → n_user ≤ env.selection_config.max_l1_tx
    → n_user ≤ env.selection_config.max_tx
    → Fits env n_user (start_selection s discarded)
start_selection-Fits env n_user s discarded h k = record {
  l1 = omega arith;
  all = omega arith;
  numbered = tt;
  authorized = refl;
}
