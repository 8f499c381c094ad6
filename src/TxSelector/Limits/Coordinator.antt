-- ===== src/TxSelector/Limits/Coordinator.antt =====
-- A transaction of the coordinator for an account of its own, in `processL2Txs`
-- (v2/txselector/txselector.go).
use hermez_node.Prelude.{
  ℕ, ◌+◌, ◌≡◌, refl, true, not, Option, none, some, List, [], ◌∷◌, ◌++◌, length, length-append,
  arith, Bool-cases, inl, inr,
}
use hermez_node.Prelude.Result.{Result, ok, err, idx_not_found}
use hermez_node.Common.L1Tx.{L1Tx}
use hermez_node.StateDb.{StateDb}
use hermez_node.TxProcessor.State.{State}
use hermez_node.TxSelector.{
  PoolTx, Env, Bytes, can_add_l2_tx_that_needs_new_coord_l1_tx, coord_account_for_token_id,
  get_coord_idx, create_tx, not_enough_space_l1_coordinator,
}
use hermez_node.TxSelector.Loop.{
  Loop, put_aside, pure, gets, stop_if, required, ◌>>=◌, ◌>>◌, ensure_coord_account, run_l1, add_l1,
}
use hermez_node.TxSelector.Steps.{Leaves, run_l1-Leaves}
use hermez_node.TxSelector.Limits.{Numbered, Counted, Ready}

Numbered-append :
    (first : ℕ) (txs : List L1Tx) (tx : L1Tx)
    → Numbered first txs
    → tx.position ≡ first + length txs
    → Numbered first (txs ++ (tx ∷ []))
Numbered-append first [] tx h e = (omega arith, tt)
Numbered-append first (t ∷ ts) tx h e = (h.0, Numbered-append (first + 1) ts tx h.1 (omega arith))

created_position :
    (env : Env) (token position : ℕ) (db : StateDb) (tx : L1Tx)
    → coord_account_for_token_id env token position db ≡ ok (some tx)
    → tx.position ≡ position
unfolding coord_account_for_token_id
created_position env token position db tx h = by_result (get_coord_idx env token db) h
  where
    by_result :
        (r : Result ℕ)
        → (elim r [
          | ok idx ↦ ok none
          | err idx_not_found ↦ ok (some (create_tx position env.coord_addr env.coord_bjj token))
          | err other ↦ err other
        ])
          ≡ ok (some tx)
        → tx.position ≡ position
    by_result (ok idx) e = absurd (ground arith)
    by_result (err idx_not_found) e = ground arith
    by_result (err other) e = absurd (ground arith)

module _ (env : Env) (l1 l2 : ℕ) where
  -- With room for an L1 and an L2 transaction, a transaction of the coordinator keeps room for the
  -- latter.
  pub add_l1-Ready :
      (tx : L1Tx) (auth : Bytes) (l : Loop) (s : State)
      → Counted env.selection_config l1 l2 l
      → tx.position ≡ l.position
      → can_add_l2_tx_that_needs_new_coord_l1_tx l.n_l1 l.n_l2 env.selection_config ≡ true
      → (Ready env l1 l2) (record l {
        tp = s;
        n_l1 = l.n_l1 + 1;
        position = l.position + 1;
        l1_coordinator_txs = l.l1_coordinator_txs ++ (tx ∷ []);
        acc_auths = l.acc_auths ++ (auth ∷ []);
      })
  unfolding can_add_l2_tx_that_needs_new_coord_l1_tx
  add_l1-Ready tx auth l s c e space = (
    record {
      counted_l1 = omega (arith, c.counted_l1, length-append l.l1_coordinator_txs (tx ∷ []));
      counted_l2 = c.counted_l2;
      next_position = omega (arith, c.next_position);
      numbered =
          Numbered-append l1 l.l1_coordinator_txs tx c.numbered
            (omega (arith, e, c.next_position, c.counted_l1));
      authorized = omega (
        arith,
        c.authorized,
        length-append l.l1_coordinator_txs (tx ∷ []),
        length-append l.acc_auths (auth ∷ []),
      );
      within_l1 = ground arith;
      within = ground arith;
    },
    ground arith,
  )

  pub ensure_coord_account-Leaves :
      (t : PoolTx) (l : Loop)
      → (Ready env l1 l2) l
      → Leaves (Ready env l1 l2) (Counted env.selection_config l1 l2) (ensure_coord_account env t l)
  unfolding ensure_coord_account
  ensure_coord_account-Leaves t l r =
      by_created (coord_account_for_token_id env t.l2.token_id l.position l.tp.db)
        (λ tx e. created_position env t.l2.token_id l.position l.tp.db tx e)
    where
      by_created :
          (c : Result (Option L1Tx))
          → ((tx : L1Tx) → c ≡ ok (some tx) → tx.position ≡ l.position)
          → Leaves (Ready env l1 l2) (Counted env.selection_config l1 l2) (
              (required (λ _. c) >>= λ created. elim created [
                | none ↦ pure tt
                | some tx ↦ do
                  k ← gets (λ k. k)
                  stop_if
                      (not (
                        can_add_l2_tx_that_needs_new_coord_l1_tx k.n_l1 k.n_l2
                          env.selection_config))
                      (put_aside not_enough_space_l1_coordinator t)
                  add_l1 tx env.coord_auth
                  run_l1 tx
              ])
                l)
      by_created (err e) p = tt
      by_created (ok none) p = r
      by_created (ok (some tx)) p =
          elim (Bool-cases
            (can_add_l2_tx_that_needs_new_coord_l1_tx l.n_l1 l.n_l2 env.selection_config)) [
              | inr full ↦ rw (full, Leaves) (r.0)
              | inl space ↦
                  rw (space, Leaves)
                    (run_l1-Leaves (Ready env l1 l2) (Counted env.selection_config l1 l2) tx
                      (record l {
                        position = l.position + 1;
                        l1_coordinator_txs = l.l1_coordinator_txs ++ (tx ∷ []);
                        acc_auths = l.acc_auths ++ (env.coord_auth ∷ []);
                      })
                      (λ s. add_l1-Ready tx env.coord_auth l s r.0 (p tx refl) space))
            ]
