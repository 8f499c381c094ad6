-- ===== src/TxSelector/Limits/Receiver.antt =====
-- A transaction of the coordinator for the account of a receiver, in `processL2Txs`
-- (v2/txselector/txselector.go).
use hermez_node.Prelude.{
  ℕ, ◌+◌, ◌≡◌, refl, Bool, true, false, Option, none, some, [], ◌∷◌, ◌++◌, arith, inl, inr, ◌⊎◌,
  leb, if◌then◌else◌, ◌==◌,
}
use hermez_node.Prelude.Result.{Result, ok, err}
use hermez_node.Common.L1Tx.{L1Tx}
use hermez_node.Common.Ids.{user_threshold}
use hermez_node.Common.Account.{Account}
use hermez_node.Common.PoolL2Tx.{ff_addr}
use hermez_node.StateDb.{get_account}
use hermez_node.TxSelector.{
  PoolTx, Env, Auth, Bytes, process_tx_to_eth_addr_bjj, empty_eth_signature,
  discarded_to_eth_addr_bjj, to_idx_not_found,
}
use hermez_node.TxSelector.Loop.{
  Loop, go, stop, put_aside, add_receiver, pure, ◌>>◌, ensure_receiver, run_l1, add_l1,
}
use hermez_node.TxSelector.Steps.{Leaves, run_l1-Leaves}
use hermez_node.TxSelector.Receivers.{Created, process_tx_to_eth_addr_bjj-Created}
use hermez_node.TxSelector.Limits.{Counted, Ready}
use hermez_node.TxSelector.Limits.Coordinator.{add_l1-Ready}

module _ (env : Env) (l1 l2 : ℕ) where
  add_receiver-Leaves :
      (t : PoolTx) (tx : L1Tx) (auth : Option Auth) (l : Loop)
      → Counted env.selection_config l1 l2 l
      → Created env l.n_l1 l.n_l2 l.position t.l2 tx auth
      → Leaves
          (Ready env l1 l2)
          (Counted env.selection_config l1 l2)
          ((add_receiver env t tx auth >> run_l1 tx) l)
  add_receiver-Leaves t tx auth l c (e, space, a) = by_address (t.l2.to_eth_addr == ff_addr) a
    where
      with_auth :
          (sig : Bytes)
          → Leaves
              (Ready env l1 l2)
              (Counted env.selection_config l1 l2)
              ((add_l1 tx sig >> run_l1 tx) l)
      with_auth sig =
          run_l1-Leaves (Ready env l1 l2) (Counted env.selection_config l1 l2) tx
            (record l {
              position = l.position + 1;
              l1_coordinator_txs = l.l1_coordinator_txs ++ (tx ∷ []);
              acc_auths = l.acc_auths ++ (sig ∷ []);
            })
            (λ s. add_l1-Ready env l1 l2 tx sig l s c e space)

      by_auth :
          (o : Option Auth)
          → (a : Auth) × (o ≡ some a)
          → Leaves
              (Ready env l1 l2)
              (Counted env.selection_config l1 l2)
              (((elim o [ none ↦ pure tt | some a ↦ add_l1 tx a.signature ]) >> run_l1 tx) l)
      by_auth none (a, q) = absurd (ground arith)
      by_auth (some b) q = with_auth b.signature

      by_address :
          (b : Bool)
          → (b ≡ true) ⊎ ((a : Auth) × (auth ≡ some a))
          → Leaves (Ready env l1 l2) (Counted env.selection_config l1 l2) (
              ((if b
                    then add_l1 tx empty_eth_signature
                    else elim auth [ none ↦ pure tt | some a ↦ add_l1 tx a.signature ])
                  >> run_l1 tx)
                l)
      by_address true q = with_auth empty_eth_signature
      by_address false (inl q) = absurd (ground arith)
      by_address false (inr q) = by_auth auth q

  pub ensure_receiver-Leaves :
      (t : PoolTx) (l : Loop)
      → (Ready env l1 l2) l
      → Leaves (Ready env l1 l2) (Counted env.selection_config l1 l2) (ensure_receiver env t l)
  unfolding ensure_receiver
  ensure_receiver-Leaves t l r =
      by_kind (t.l2.to_idx == 0) (leb user_threshold t.l2.to_idx)
        (process_tx_to_eth_addr_bjj env l.n_l1 l.n_l2 l.position t.l2 l.tp.db)
        (λ made auth e.
          process_tx_to_eth_addr_bjj-Created env l.n_l1 l.n_l2 l.position t.l2 l.tp.db made auth e)
        (get_account t.l2.to_idx l.tp.db)
    where
      by_answer :
          (p : Result (Option L1Tx × Option Auth))
          → ((made : L1Tx) (auth : Option Auth)
              → p ≡ ok (some made, auth)
              → Created env l.n_l1 l.n_l2 l.position t.l2 made auth)
          → Leaves (Ready env l1 l2) (Counted env.selection_config l1 l2) (elim p [
            | err e ↦ stop (put_aside (discarded_to_eth_addr_bjj e) t) l
            | ok (none, auth) ↦ go tt l
            | ok (some tx, auth) ↦ (add_receiver env t tx auth >> run_l1 tx) l
          ])
      by_answer (err e) k = r.0
      by_answer (ok (none, auth)) k = r
      by_answer (ok (some tx, auth)) k = add_receiver-Leaves t tx auth l r.0 (k tx auth refl)

      by_kind :
          (b c : Bool) (p : Result (Option L1Tx × Option Auth))
          → ((made : L1Tx) (auth : Option Auth)
              → p ≡ ok (some made, auth)
              → Created env l.n_l1 l.n_l2 l.position t.l2 made auth)
          → (q : Result Account)
          → Leaves (Ready env l1 l2) (Counted env.selection_config l1 l2) (
              if b
              then elim p [
                | err e ↦ stop (put_aside (discarded_to_eth_addr_bjj e) t) l
                | ok (none, auth) ↦ go tt l
                | ok (some tx, auth) ↦ (add_receiver env t tx auth >> run_l1 tx) l
              ]
              else if c
              then elim q [
                | err _ ↦ stop (put_aside (to_idx_not_found t.l2.to_idx) t) l
                | ok _ ↦ go tt l
              ]
              else go tt l)
      by_kind true c p k q = by_answer p k
      by_kind false true p k (ok a) = r
      by_kind false true p k (err e) = r.0
      by_kind false false p k q = r
