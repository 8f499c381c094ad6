-- ===== src/TxSelector/Selection/Passes.antt =====
-- The selection loop of `getL1L2TxSelection` (v2/txselector/txselector.go): it ends, and loses no
-- transaction.
use hermez_node.Prelude.{
  ℕ, zero, suc, ◌+◌, ◌<◌, ◌≡◌, ◌≢◌, refl, sym, ap, List, [], ◌∷◌, ◌++◌, length, arith,
}
use mathlib.Core.Path.{subst}
use hermez_node.TxSelector.{PoolTx, Env}
use hermez_node.TxSelector.Loop.{Loop, Outcome, done, group_failed, failed, process_l2_txs}
use hermez_node.TxSelector.Places.{weigh, weigh-append, placed, process_l2_txs-placed}
use hermez_node.TxSelector.Selection.{
  Selection, Selected, finished, restart, aborted, out_of_fuel, start_pass, add_pass, discard_all,
  passes,
}

module _ (env : Env) (n_user : ℕ) where
  abbrev after_pass : ℕ → Selection → Outcome → Selected
  after_pass fuel sel o = elim o [
    | group_failed g ↦ restart g
    | failed e ↦ aborted e
    | done l ↦ elim l.selected [
      | [] ↦ finished (discard_all l.non_selected (add_pass l sel))
      | t ∷ ts ↦ passes fuel env n_user l.non_selected (add_pass l sel)
    ]
  ]

  -- The rule for the loop: what holds of the transactions that are left and of the selection.
  pub passes-rule :
      (P : List PoolTx → Selection → Type 0)
      → ((txs : List PoolTx) (sel : Selection) (l : Loop)
          → P txs sel
          → process_l2_txs env txs (start_pass n_user sel) ≡ done l
          → P l.non_selected (add_pass l sel))
      → (fuel : ℕ) (txs : List PoolTx) (sel sel' : Selection) → P txs sel
      → passes fuel env n_user txs sel ≡ finished sel'
      → (rest : List PoolTx) × (last : Selection) × P rest last × (sel' ≡ discard_all rest last)
  unfolding passes
  passes-rule P step zero txs sel sel' p e = absurd (ground arith)
  passes-rule P step (suc fuel) txs sel sel' p e =
      by_outcome (λ l q z. passes-rule P step fuel l.non_selected (add_pass l sel) sel' q z)
        (process_l2_txs env txs (start_pass n_user sel)) (λ l z. step txs sel l p z) e
    where
      by_selected :
          (l : Loop) (picked : List PoolTx)
          → (passes fuel env n_user l.non_selected (add_pass l sel) ≡ finished sel'
              → (rest : List PoolTx) × (last : Selection) × P rest last
                × (sel' ≡ discard_all rest last))
          → P l.non_selected (add_pass l sel)
          → (elim picked [
            | [] ↦ finished (discard_all l.non_selected (add_pass l sel))
            | t ∷ ts ↦ passes fuel env n_user l.non_selected (add_pass l sel)
          ])
            ≡ finished sel'
          → (rest : List PoolTx) × (last : Selection) × P rest last × (sel' ≡ discard_all rest last)
      by_selected l [] k q z = (l.non_selected, add_pass l sel, q, cc)
      by_selected l (t ∷ ts) k q z = k z

      by_outcome :
          ((l : Loop)
            → P l.non_selected (add_pass l sel)
            → passes fuel env n_user l.non_selected (add_pass l sel) ≡ finished sel'
            → (rest : List PoolTx) × (last : Selection) × P rest last
              × (sel' ≡ discard_all rest last))
          → (o : Outcome) → ((l : Loop) → o ≡ done l → P l.non_selected (add_pass l sel))
          → after_pass fuel sel o ≡ finished sel'
          → (rest : List PoolTx) × (last : Selection) × P rest last × (sel' ≡ discard_all rest last)
      by_outcome k (done l) h z = by_selected l l.selected (k l (h l refl)) (h l refl) z
      by_outcome k (group_failed g) h z = absurd (ground arith)
      by_outcome k (failed w) h z = absurd (ground arith)

  length-weigh : (txs : List PoolTx) → weigh (λ _. 1) txs ≡ length txs
  unfolding weigh
  length-weigh [] = refl
  length-weigh (t ∷ ts) = omega (arith, length-weigh ts)

  -- A pass that selects something leaves fewer transactions.
  fewer :
      (txs : List PoolTx) (sel : Selection) (l : Loop) (t : PoolTx) (ts : List PoolTx)
      → process_l2_txs env txs (start_pass n_user sel) ≡ done l
      → l.selected ≡ t ∷ ts
      → length l.non_selected < length txs
  unfolding placed weigh
  fewer txs sel l t ts e picked = omega (
    arith,
    process_l2_txs-placed (λ _. 1) env txs (start_pass n_user sel) l e,
    length-weigh txs,
    length-weigh l.non_selected,
    ap (λ (z : List PoolTx). weigh (λ _. 1) z) picked,
  )

  -- With more fuel than there are transactions the selection loop ends by its own condition: in a
  -- selection, in the failure of an atomic group, or in an error.
  pub passes-ne-out_of_fuel :
      (fuel : ℕ) (txs : List PoolTx) (sel : Selection)
      → length txs < fuel
      → passes fuel env n_user txs sel ≢ out_of_fuel
  unfolding passes
  passes-ne-out_of_fuel zero txs sel h e = absurd (omega arith)
  passes-ne-out_of_fuel (suc fuel) txs sel h e =
      by_outcome (λ rest last less. passes-ne-out_of_fuel fuel rest last less)
        (process_l2_txs env txs (start_pass n_user sel)) (λ l z. z) e
    where
      by_selected :
          ((rest : List PoolTx) (last : Selection)
            → length rest < fuel
            → passes fuel env n_user rest last ≢ out_of_fuel)
          → (l : Loop) (picked : List PoolTx)
          → process_l2_txs env txs (start_pass n_user sel) ≡ done l
          → l.selected ≡ picked
          → (elim picked [
            | [] ↦ finished (discard_all l.non_selected (add_pass l sel))
            | t ∷ ts ↦ passes fuel env n_user l.non_selected (add_pass l sel)
          ])
            ≡ out_of_fuel
          → ⊥
      by_selected again l [] ran q z = cc
      by_selected again l (t ∷ ts) ran q z =
          again l.non_selected (add_pass l sel) (omega (arith, fewer txs sel l t ts ran q)) z

      by_outcome :
          ((rest : List PoolTx) (last : Selection)
            → length rest < fuel
            → passes fuel env n_user rest last ≢ out_of_fuel)
          → (o : Outcome)
          → ((l : Loop) → o ≡ done l → process_l2_txs env txs (start_pass n_user sel) ≡ done l)
          → after_pass fuel sel o ≡ out_of_fuel
          → ⊥
      by_outcome again (done l) k z = by_selected again l l.selected (k l refl) refl z
      by_outcome again (group_failed g) k z = cc
      by_outcome again (failed w) k z = cc

-- The loop loses no transaction and doubles none: for any weights of their identifiers, the selected
-- and the discarded ones together weigh as much as those before and the given ones.
pub passes-weigh :
    (w : ℕ → ℕ) (env : Env) (n_user fuel : ℕ) (txs : List PoolTx) (sel sel' : Selection)
    → passes fuel env n_user txs sel ≡ finished sel'
    → weigh w sel'.selected + weigh w sel'.discarded
      ≡ weigh w sel.selected + weigh w sel.discarded + weigh w txs
unfolding placed weigh
passes-weigh w env n_user fuel txs sel sel' e =
    let (rest, last, g, q) =
      passes-rule env n_user
        (λ ts s.
          weigh w s.selected + weigh w s.discarded + weigh w ts
          ≡ weigh w sel.selected + weigh w sel.discarded + weigh w txs)
        (λ ts s l p z. p_step ts s l p z) fuel txs sel sel' refl e in
    subst
      (λ (s : Selection).
        weigh w s.selected + weigh w s.discarded
        ≡ weigh w sel.selected + weigh w sel.discarded + weigh w txs)
      (sym q) (omega (arith, g, weigh-append w last.discarded rest))
  where
    p_step :
        (ts : List PoolTx) (s : Selection) (l : Loop)
        → weigh w s.selected + weigh w s.discarded + weigh w ts
          ≡ weigh w sel.selected + weigh w sel.discarded + weigh w txs
        → process_l2_txs env ts (start_pass n_user s) ≡ done l
        → weigh w (s.selected ++ l.selected)
            + weigh w (s.discarded ++ l.unforgeable)
            + weigh w l.non_selected
          ≡ weigh w sel.selected + weigh w sel.discarded + weigh w txs
    p_step ts s l p z = omega (
      arith,
      p,
      process_l2_txs-placed w env ts (start_pass n_user s) l z,
      weigh-append w s.selected l.selected,
      weigh-append w s.discarded l.unforgeable,
    )
