-- ===== src/TxSelector/Frames.antt =====
-- What a round of `processL2Txs` (v2/txselector/txselector.go) leaves as it is: the lists of the loop.
use hermez_node.Prelude.{
  ℕ, ◌+◌, ◌≡◌, refl, Bool, true, false, not, Option, none, some, [], ◌∷◌, ◌++◌, Bool-cases, inl,
  inr, leb, if◌then◌else◌, ◌==◌,
}
use hermez_node.Prelude.Result.{Result, ok, err, Result-cases}
use hermez_node.Common.L1Tx.{L1Tx}
use hermez_node.Common.Ids.{user_threshold}
use hermez_node.Common.Account.{Account}
use hermez_node.Common.PoolL2Tx.{ff_addr, PoolL2Tx}
use hermez_node.StateDb.{get_account}
use hermez_node.TxProcessor.Enough.{check_enough_balance}
use hermez_node.TxProcessor.State.{State}
use hermez_node.TxProcessor.Process.{Processed, process_l1_tx, process_l2_tx}
use hermez_node.TxSelector.{
  PoolTx, Env, Auth, Bytes, can_add_l2_tx_that_needs_new_coord_l1_tx, coord_account_for_token_id,
  process_tx_to_eth_addr_bjj, get_coord_idx, empty_eth_signature, discarded_to_eth_addr_bjj,
  to_idx_not_found, discarded_in_process_l2_tx, not_enough_space_l1_coordinator,
}
use hermez_node.TxSelector.Loop.{
  Loop, Step, go, stop, put_aside, discard, fatal, Check, add_receiver, modify, after_failure,
  with_fee_entry, pure, gets, stop_if, required, is_too_late, is_empty_exit, with_token, ◌>>=◌,
  ◌>>◌, check_tx, check_sender, ensure_coord_account, ensure_receiver, run_l1, run_l2, add_l1,
  select_tx,
}

-- The selector may fill in fields of a transaction, but not which one it is.
abbrev pub SameTx : PoolTx → PoolTx → Type 0
SameTx t u = (u.tx_id ≡ t.tx_id) × (u.atomic_group_id ≡ t.atomic_group_id)

abbrev pub SameLists : Loop → Loop → Type 0
SameLists b l =
    (l.selected ≡ b.selected) × (l.non_selected ≡ b.non_selected) × (l.unforgeable ≡ b.unforgeable)

-- A step for the transaction `t`, before which the lists are those of `b`.
abbrev pub Framed : {A : Type 0} → PoolTx → Loop → (A → Type 0) → Step A → Type 0
Framed t b P (go a l) = P a × SameLists b l
Framed t b P (stop (fatal e) l) = Unit
Framed t b P (stop (put_aside why u) l) = SameTx t u × SameLists b l
Framed t b P (stop (discard why u) l) = SameTx t u × SameLists b l

abbrev Any : Unit {0} → Type 0
Any a = Unit

module _ (t : PoolTx) (b : Loop) where
  bind-Framed :
      {A B : Type 0} (P : A → Type 0) (Q : B → Type 0) (m : Check A) (f : A → Check B) (l : Loop)
      → Framed t b P (m l)
      → ((a : A) (k : Loop) → P a → SameLists b k → Framed t b Q (f a k))
      → Framed t b Q ((m >>= f) l)
  bind-Framed {A} P Q m f l h k = by_step (m l) h
    where
      by_step :
          (s : Step A)
          → Framed t b P s
          → Framed t b Q (elim s [ go a u ↦ f a u | stop x u ↦ stop x u ])
      by_step (go a u) h = k a u h.0 h.1
      by_step (stop (fatal e) u) h = tt
      by_step (stop (put_aside why u) v) h = h
      by_step (stop (discard why u) v) h = h

  check_tx-Framed : (l : Loop) → SameLists b l → Framed t b Any (check_tx t l)
  unfolding check_tx
  check_tx-Framed l p = elim (Bool-cases (is_too_late t l.tp)) [
    | inl late ↦ rw (late, Framed) ((refl, refl), p)
    | inr early ↦ elim (Bool-cases (is_empty_exit t)) [
      | inl empty ↦ rw (early, empty, Framed) ((refl, refl), p)
      | inr some_amount ↦ rw (early, some_amount, Framed) (tt, p)
    ]
  ]

  check_sender-Framed : (l : Loop) → SameLists b l → Framed t b (SameTx t) (check_sender t l)
  unfolding check_sender
  check_sender-Framed l p = elim (Result-cases (get_account t.l2.from_idx l.tp.db)) [
    | inr (e, missing) ↦ rw (missing, Framed) tt
    | inl (a, found) ↦
        elim (Bool-cases (check_enough_balance (with_token a.token_id t).l2 l.tp).0) [
          | inl enough ↦ elim (Bool-cases (t.l2.nonce == a.nonce)) [
            | inl same ↦ rw (found, enough, same, Framed) ((refl, refl), p)
            | inr other ↦ rw (found, enough, other, Framed) ((refl, refl), p)
          ]
          | inr short ↦ rw (found, short, Framed) ((refl, refl), p)
        ]
  ]

  run_l1-Framed : (tx : L1Tx) (l : Loop) → SameLists b l → Framed t b Any (run_l1 tx l)
  run_l1-Framed tx l p = by_result (process_l1_tx tx l.tp)
    where
      by_result :
          (r : Result (Processed L1Tx) × State)
          → Framed t b Any (elim r.0 [
            | ok _ ↦ go tt (record l { tp = r.1; n_l1 = l.n_l1 + 1 })
            | err e ↦ stop (fatal e) (record l { tp = r.1 })
          ])
      by_result (ok a, s) = (tt, p)
      by_result (err e, s) = tt

  module _ (env : Env) (u : PoolTx) (same : SameTx t u) where
    ensure_coord_account-Framed :
        (l : Loop) → SameLists b l → Framed t b Any (ensure_coord_account env u l)
    unfolding ensure_coord_account
    ensure_coord_account-Framed l p =
        by_created (coord_account_for_token_id env u.l2.token_id l.position l.tp.db)
      where
        by_created :
            (c : Result (Option L1Tx))
            → Framed t b Any (
                (required (λ _. c) >>= λ created. elim created [
                  | none ↦ pure tt
                  | some tx ↦ do
                    k ← gets (λ k. k)
                    stop_if
                        (not (
                          can_add_l2_tx_that_needs_new_coord_l1_tx k.n_l1 k.n_l2
                            env.selection_config))
                        (put_aside not_enough_space_l1_coordinator u)
                    add_l1 tx env.coord_auth
                    run_l1 tx
                ])
                  l)
        by_created (err e) = tt
        by_created (ok none) = (tt, p)
        by_created (ok (some tx)) =
            elim (Bool-cases
              (can_add_l2_tx_that_needs_new_coord_l1_tx l.n_l1 l.n_l2 env.selection_config)) [
                | inr full ↦ rw (full, Framed) (same, p)
                | inl space ↦
                    rw (space, Framed)
                      (run_l1-Framed tx
                        (record l {
                          position = l.position + 1;
                          l1_coordinator_txs = l.l1_coordinator_txs ++ (tx ∷ []);
                          acc_auths = l.acc_auths ++ (env.coord_auth ∷ []);
                        })
                        p)
              ]

    add_receiver-Framed :
        (tx : L1Tx) (auth : Option Auth) (l : Loop)
        → SameLists b l
        → Framed t b Any ((add_receiver env u tx auth >> run_l1 tx) l)
    add_receiver-Framed tx auth l p = by_address (u.l2.to_eth_addr == ff_addr) auth
      where
        with_auth : (sig : Bytes) → Framed t b Any ((add_l1 tx sig >> run_l1 tx) l)
        with_auth sig =
            run_l1-Framed tx
              (record l {
                position = l.position + 1;
                l1_coordinator_txs = l.l1_coordinator_txs ++ (tx ∷ []);
                acc_auths = l.acc_auths ++ (sig ∷ []);
              })
              p

        by_address :
            (c : Bool) (o : Option Auth)
            → Framed t b Any (
                ((if c
                      then add_l1 tx empty_eth_signature
                      else elim o [ none ↦ pure tt | some a ↦ add_l1 tx a.signature ])
                    >> run_l1 tx)
                  l)
        by_address true o = with_auth empty_eth_signature
        by_address false none = run_l1-Framed tx l p
        by_address false (some a) = with_auth a.signature

    ensure_receiver-Framed : (l : Loop) → SameLists b l → Framed t b Any (ensure_receiver env u l)
    unfolding ensure_receiver
    ensure_receiver-Framed l p =
        by_kind (u.l2.to_idx == 0) (leb user_threshold u.l2.to_idx)
          (process_tx_to_eth_addr_bjj env l.n_l1 l.n_l2 l.position u.l2 l.tp.db)
          (get_account u.l2.to_idx l.tp.db)
      where
        by_kind :
            (c d : Bool) (r : Result (Option L1Tx × Option Auth)) (q : Result Account)
            → Framed t b Any (
                if c
                then elim r [
                  | err e ↦ stop (put_aside (discarded_to_eth_addr_bjj e) u) l
                  | ok (none, auth) ↦ go tt l
                  | ok (some tx, auth) ↦ (add_receiver env u tx auth >> run_l1 tx) l
                ]
                else if d
                then elim q [
                  | err _ ↦ stop (put_aside (to_idx_not_found u.l2.to_idx) u) l
                  | ok _ ↦ go tt l
                ]
                else go tt l)
        by_kind true d (err e) q = (same, p)
        by_kind true d (ok (none, auth)) q = (tt, p)
        by_kind true d (ok (some tx, auth)) q = add_receiver-Framed tx auth l p
        by_kind false true r (ok a) = (tt, p)
        by_kind false true r (err e) = (same, p)
        by_kind false false r q = (tt, p)

    run_l2-Framed : (l : Loop) → SameLists b l → Framed t b (SameTx t) (run_l2 env u l)
    unfolding run_l2
    run_l2-Framed l p = by_idx (get_coord_idx env u.l2.token_id l.tp.db)
      where
        by_result :
            (v : State) (r : Result (Processed PoolL2Tx) × State)
            → Framed t b (SameTx t) (elim r.0 [
              | ok q ↦ go (record u { l2 = q.tx }) (record l { tp = r.1; n_l2 = l.n_l2 + 1 })
              | err e ↦
                  stop
                    (put_aside
                      (discarded_in_process_l2_tx e)
                      (record u { l2 = after_failure env u.l2 v }))
                    (record l { tp = r.1 })
            ])
        by_result v (err e, s) = (same, p)
        by_result v (ok q, s) = (same, p)

        by_idx :
            (c : Result ℕ)
            → Framed t b (SameTx t) (
                (required (λ _. c) >>= λ coord_idx. do
                  modify (λ (k : Loop). record k { tp = with_fee_entry env coord_idx k.tp })
                  λ k.
                      let (r, s) = process_l2_tx ((u.l2.token_id, coord_idx) ∷ []) u.l2 k.tp in
                      elim r [
                        | ok q ↦
                            go (record u { l2 = q.tx }) (record k { tp = s; n_l2 = k.n_l2 + 1 })
                        | err e ↦
                            stop
                              (put_aside
                                (discarded_in_process_l2_tx e)
                                (record u { l2 = after_failure env u.l2 k.tp }))
                              (record k { tp = s })
                      ])
                  l)
        by_idx (err e) = tt
        by_idx (ok coord_idx) = by_result (with_fee_entry env coord_idx l.tp) (
            process_l2_tx ((u.l2.token_id, coord_idx) ∷ []) u.l2
              (with_fee_entry env coord_idx l.tp))

-- A round keeps the lists and which transaction it is about.
pub select_tx-Framed :
    (env : Env) (t : PoolTx) (l : Loop) → Framed t l (SameTx t) (select_tx env t l)
unfolding select_tx
select_tx-Framed env t l =
    bind-Framed t l Any (SameTx t) (check_tx t)
      (λ _. check_sender t >>= λ u.
        ensure_coord_account env u >> (ensure_receiver env u >> run_l2 env u))
      l (check_tx-Framed t l l (refl, refl, refl))
      (λ _ k _ p.
        bind-Framed t l (SameTx t) (SameTx t) (check_sender t)
          (λ u. ensure_coord_account env u >> (ensure_receiver env u >> run_l2 env u)) k
          (check_sender-Framed t l k p)
          (λ u m same q.
            bind-Framed t l Any (SameTx t) (ensure_coord_account env u)
              (λ _. ensure_receiver env u >> run_l2 env u) m
              (ensure_coord_account-Framed t l env u same m q)
              (λ _ n _ r.
                bind-Framed t l Any (SameTx t) (ensure_receiver env u) (λ _. run_l2 env u) n
                  (ensure_receiver-Framed t l env u same n r)
                  (λ _ o _ z. run_l2-Framed t l env u same o z))))
