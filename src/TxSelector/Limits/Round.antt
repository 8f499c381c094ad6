-- ===== src/TxSelector/Limits/Round.antt =====
-- A round and a pass of `processL2Txs` (v2/txselector/txselector.go) within the limits of the batch.
use hermez_node.Prelude.{
  ℕ, ◌+◌, ◌≤◌, ◌≡◌, true, List, [], ◌∷◌, ◌++◌, length-append, arith, Bool-cases, inl, inr,
}
use hermez_node.Prelude.Result.{Result, ok, err}
use hermez_node.Common.PoolL2Tx.{PoolL2Tx}
use hermez_node.TxProcessor.State.{Config, State}
use hermez_node.TxProcessor.Process.{Processed, process_l2_tx}
use hermez_node.TxSelector.{
  PoolTx, Env, can_add_l2_tx, get_coord_idx, is_atomic, no_available_slots,
  discarded_in_process_l2_tx,
}
use hermez_node.TxSelector.Loop.{
  Loop, Step, go, stop, put_aside, discard, fatal, with_info, modify, after_failure, with_fee_entry,
  required, ◌>>=◌, ◌>>◌, check_tx, check_sender, ensure_coord_account, ensure_receiver, run_l2,
  select_tx, done, settle, no_slots, process_l2_txs,
}
use hermez_node.TxSelector.Steps.{
  Leaves, weaken-Leaves, bind-Leaves, check_tx-Leaves, check_sender-Leaves, done-inj,
  process_l2_txs-rule,
}
use hermez_node.TxSelector.Limits.{Counted, Ready}
use hermez_node.TxSelector.Limits.Coordinator.{ensure_coord_account-Leaves}
use hermez_node.TxSelector.Limits.Receiver.{ensure_receiver-Leaves}

module _ (env : Env) (l1 l2 : ℕ) where
  -- ProcessL2Tx counts its transaction, which is not among the selected yet.
  run_l2-Leaves :
      (t : PoolTx) (l : Loop)
      → (Ready env l1 l2) l
      → Leaves
          (Counted env.selection_config l1 (l2 + 1))
          (Counted env.selection_config l1 l2)
          (run_l2 env t l)
  unfolding run_l2
  run_l2-Leaves t l r = by_idx (get_coord_idx env t.l2.token_id l.tp.db)
    where
      kept : (s : State) → Counted env.selection_config l1 l2 (record l { tp = s })
      kept s = record {
        counted_l1 = r.0.counted_l1;
        counted_l2 = r.0.counted_l2;
        next_position = r.0.next_position;
        numbered = r.0.numbered;
        authorized = r.0.authorized;
        within_l1 = r.0.within_l1;
        within = r.0.within;
      }

      by_result :
          (u : State) (p : Result (Processed PoolL2Tx) × State)
          → Leaves
              (Counted env.selection_config l1 (l2 + 1))
              (Counted env.selection_config l1 l2)
              (elim p.0 [
                | ok q ↦ go (record t { l2 = q.tx }) (record l { tp = p.1; n_l2 = l.n_l2 + 1 })
                | err e ↦
                    stop
                      (put_aside
                        (discarded_in_process_l2_tx e)
                        (record t { l2 = after_failure env t.l2 u }))
                      (record l { tp = p.1 })
              ])
      by_result u (err e, s) = kept s
      by_result u (ok q, s) = record {
        counted_l1 = r.0.counted_l1;
        counted_l2 = omega (arith, r.0.counted_l2);
        next_position = r.0.next_position;
        numbered = r.0.numbered;
        authorized = r.0.authorized;
        within_l1 = r.0.within_l1;
        within = omega (arith, r.1);
      }

      by_idx :
          (c : Result ℕ)
          → Leaves (Counted env.selection_config l1 (l2 + 1)) (Counted env.selection_config l1 l2) (
              (required (λ _. c) >>= λ coord_idx. do
                modify (λ (k : Loop). record k { tp = with_fee_entry env coord_idx k.tp })
                λ k.
                    let (p, s) = process_l2_tx ((t.l2.token_id, coord_idx) ∷ []) t.l2 k.tp in
                    elim p [
                      | ok q ↦ go (record t { l2 = q.tx }) (record k { tp = s; n_l2 = k.n_l2 + 1 })
                      | err e ↦
                          stop
                            (put_aside
                              (discarded_in_process_l2_tx e)
                              (record t { l2 = after_failure env t.l2 k.tp }))
                            (record k { tp = s })
                    ])
                l)
      by_idx (err e) = tt
      by_idx (ok coord_idx) =
          by_result (with_fee_entry env coord_idx l.tp) (
            process_l2_tx ((t.l2.token_id, coord_idx) ∷ []) t.l2
              (with_fee_entry env coord_idx l.tp))

  select_tx-Leaves :
      (t : PoolTx) (l : Loop)
      → (Ready env l1 l2) l
      → Leaves
          (Counted env.selection_config l1 (l2 + 1))
          (Counted env.selection_config l1 l2)
          (select_tx env t l)
  unfolding select_tx
  select_tx-Leaves t l r =
      bind-Leaves (Ready env l1 l2) (Counted env.selection_config l1 (l2 + 1))
        (Counted env.selection_config l1 l2) (check_tx t)
        (λ _. check_sender t >>= λ u.
          ensure_coord_account env u >> (ensure_receiver env u >> run_l2 env u))
        l
        (weaken-Leaves (Ready env l1 l2) (Ready env l1 l2) (Counted env.selection_config l1 l2)
          (check_tx t l) (λ k q. q.0) (check_tx-Leaves (Ready env l1 l2) t l r))
        (λ _ k q. from_sender k q)
    where
      from_sender :
          (k : Loop)
          → (Ready env l1 l2) k
          → Leaves (Counted env.selection_config l1 (l2 + 1)) (Counted env.selection_config l1 l2) (
              (check_sender t >>= λ u.
              ensure_coord_account env u >> (ensure_receiver env u >> run_l2 env u))
                k)
      from_sender k q =
          bind-Leaves (Ready env l1 l2) (Counted env.selection_config l1 (l2 + 1))
            (Counted env.selection_config l1 l2) (check_sender t)
            (λ u. ensure_coord_account env u >> (ensure_receiver env u >> run_l2 env u)) k
            (weaken-Leaves (Ready env l1 l2) (Ready env l1 l2) (Counted env.selection_config l1 l2)
              (check_sender t k) (λ m z. z.0) (check_sender-Leaves (Ready env l1 l2) t k q))
            (λ u m z.
              bind-Leaves (Ready env l1 l2) (Counted env.selection_config l1 (l2 + 1))
                (Counted env.selection_config l1 l2) (ensure_coord_account env u)
                (λ _. ensure_receiver env u >> run_l2 env u) m
                (ensure_coord_account-Leaves env l1 l2 u m z)
                (λ _ n y.
                  bind-Leaves (Ready env l1 l2) (Counted env.selection_config l1 (l2 + 1))
                    (Counted env.selection_config l1 l2) (ensure_receiver env u) (λ _. run_l2 env u)
                    n (ensure_receiver-Leaves env l1 l2 u n y) (λ _ o x. run_l2-Leaves u o x)))

  with_lists :
      (l : Loop)
      → Counted env.selection_config l1 l2 l
      → (non_selected unforgeable : List PoolTx)
      → Counted env.selection_config l1 l2
          (record l { non_selected = non_selected; unforgeable = unforgeable })
  with_lists l c non_selected unforgeable = record {
    counted_l1 = c.counted_l1;
    counted_l2 = c.counted_l2;
    next_position = c.next_position;
    numbered = c.numbered;
    authorized = c.authorized;
    within_l1 = c.within_l1;
    within = c.within;
  }

  no_slots-Counted :
      (t : PoolTx) (rest : List PoolTx) (l l' : Loop)
      → Counted env.selection_config l1 l2 l
      → no_slots t rest l ≡ done l'
      → Counted env.selection_config l1 l2 l'
  unfolding no_slots
  no_slots-Counted t rest l l' c e = elim (Bool-cases (is_atomic t)) [
    | inl atomic ↦ absurd (ground (arith, atomic))
    | inr single ↦
        done-inj (Counted env.selection_config l1 l2) (rw single at e)
          (with_lists l c (l.non_selected ++ (with_info no_available_slots t ∷ rest)) l.unforgeable)
  ]

  settle-Counted :
      (m : Step PoolTx) (l' : Loop)
      → Leaves (Counted env.selection_config l1 (l2 + 1)) (Counted env.selection_config l1 l2) m
      → settle m ≡ done l'
      → Counted env.selection_config l1 l2 l'
  unfolding settle
  settle-Counted (go t l) l' c e = done-inj (Counted env.selection_config l1 l2) e (record {
    counted_l1 = c.counted_l1;
    counted_l2 = omega (arith, c.counted_l2, length-append l.selected (t ∷ []));
    next_position = c.next_position;
    numbered = c.numbered;
    authorized = c.authorized;
    within_l1 = c.within_l1;
    within = c.within;
  })
  settle-Counted (stop (put_aside why t) l) l' c e = elim (Bool-cases (is_atomic t)) [
    | inl atomic ↦ absurd (ground (arith, atomic))
    | inr single ↦
        done-inj (Counted env.selection_config l1 l2) (rw single at e)
          (with_lists l c (l.non_selected ++ (with_info why t ∷ [])) l.unforgeable)
  ]
  settle-Counted (stop (discard why t) l) l' c e = elim (Bool-cases (is_atomic t)) [
    | inl atomic ↦ absurd (ground (arith, atomic))
    | inr single ↦
        done-inj (Counted env.selection_config l1 l2) (rw single at e)
          (with_lists l c l.non_selected (l.unforgeable ++ (with_info why t ∷ [])))
  ]
  settle-Counted (stop (fatal w) l) l' c e = absurd (ground arith)

can_add_lem :
    (n_l1 n_l2 : ℕ) (config : Config)
    → can_add_l2_tx n_l1 n_l2 config ≡ true
    → n_l1 + n_l2 + 1 ≤ config.max_tx
unfolding can_add_l2_tx
can_add_lem n_l1 n_l2 config h = ground arith

-- A pass over any transactions that ends without an error keeps the account of the batch: it has
-- added to the L1 and L2 transactions that there were as many as it has put on its lists, within
-- MaxL1Tx and MaxTx; the coordinator's transactions have the places that follow on those of the L1
-- transactions before, and as many authorizations.
pub process_l2_txs-Counted :
    (env : Env) (l1 l2 : ℕ) (txs : List PoolTx) (l l' : Loop)
    → Counted env.selection_config l1 l2 l
    → process_l2_txs env txs l ≡ done l'
    → Counted env.selection_config l1 l2 l'
process_l2_txs-Counted env l1 l2 =
    process_l2_txs-rule env (λ _ l. Counted env.selection_config l1 l2 l)
      (λ t rest l k c room e.
        settle-Counted env l1 l2 (select_tx env t l) k
          (select_tx-Leaves env l1 l2 t l (c, can_add_lem l.n_l1 l.n_l2 env.selection_config room))
          e)
      (λ t rest l k c e. no_slots-Counted env l1 l2 t rest l k c e)
