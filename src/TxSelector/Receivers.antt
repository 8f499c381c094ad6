-- ===== src/TxSelector/Receivers.antt =====
-- What `processTxToEthAddrBJJ` (v2/txselector/txselector.go) returns.
use hermez_node.Prelude.{
  ℕ, ◌≡◌, refl, Bool, true, false, not, ◌==◌, ◌&&◌, if◌then◌else◌, Option, none, some, arith,
  Bool-cases, ◌⊎◌, inl, inr,
}
use hermez_node.Prelude.Result.{
  Result, ok, err, receiver_pending, no_authorization, wrong_authorization,
}
use hermez_node.Common.L1Tx.{L1Tx}
use hermez_node.Common.PoolL2Tx.{PoolL2Tx, empty_addr, empty_bjj_comp, ff_addr}
use hermez_node.StateDb.{StateDb, get_idx_by_eth_addr, get_idx_by_eth_addr_bjj}
use hermez_node.TxSelector.{
  Env, Auth, can_add_l2_tx_that_needs_new_coord_l1_tx, check_pending_to_create_future_txs,
  process_tx_to_eth_addr_bjj, create_tx, if_space, authorized, receiver_by_addr_and_bjj,
  receiver_by_addr, receiver_by_bjj, by_receiver,
}

module _ (env : Env) (n_l1 n_l2 position : ℕ) (tx : PoolL2Tx) where
  -- What is known of a transaction that creates the receiver's account.
  abbrev pub Created : L1Tx → Option Auth → Type 0
  Created made auth =
      (made.position ≡ position)
      × (can_add_l2_tx_that_needs_new_coord_l1_tx n_l1 n_l2 env.selection_config ≡ true)
      × (((tx.to_eth_addr == ff_addr) ≡ true) ⊎ ((a : Auth) × (auth ≡ some a)))

  abbrev Answers : Result (Option L1Tx × Option Auth) → Type 0
  Answers (ok (some made, auth)) = Created made auth
  Answers (ok (none, auth)) = Unit
  Answers (err e) = Unit

  if_space-Answers :
      (made : L1Tx) (auth : Option Auth)
      → made.position ≡ position
      → ((tx.to_eth_addr == ff_addr) ≡ true) ⊎ ((a : Auth) × (auth ≡ some a))
      → Answers (if_space env n_l1 n_l2 (some made, auth))
  if_space-Answers made auth e a =
      elim (Bool-cases (can_add_l2_tx_that_needs_new_coord_l1_tx n_l1 n_l2 env.selection_config)) [
        | inl space ↦ rw (space, Answers) (e, space, a)
        | inr full ↦ rw (full, Answers) tt
      ]

  no_account-Answers : Answers (if_space env n_l1 n_l2 (none, none))
  no_account-Answers =
      elim (Bool-cases (can_add_l2_tx_that_needs_new_coord_l1_tx n_l1 n_l2 env.selection_config)) [
        | inl space ↦ rw (space, Answers) tt
        | inr full ↦ rw (full, Answers) tt
      ]

  authorized-Answers : (a : Auth) → Answers (if_space env n_l1 n_l2 (authorized env position tx a))
  authorized-Answers a =
      if_space-Answers (create_tx position a.eth_addr a.bjj tx.token_id) (some a) refl
        (inr (a, refl))

  if-Answers :
      (b : Bool) (r q : Result (Option L1Tx × Option Auth))
      → (b ≡ true → Answers r)
      → Answers q
      → Answers (if b then r else q)
  if-Answers true r q h k = h refl
  if-Answers false r q h k = k

  found-Answers :
      (i : Result ℕ) (r : Result (Option L1Tx × Option Auth))
      → Answers r
      → Answers (elim i [ ok _ ↦ ok (none, none) | err _ ↦ r ])
  found-Answers (ok i) r h = tt
  found-Answers (err e) r h = h

  auth-Answers :
      (o : Option Auth) (f : Auth → Result (Option L1Tx × Option Auth))
      → ((a : Auth) → Answers (f a))
      → Answers (elim o [ none ↦ err no_authorization | some a ↦ f a ])
  auth-Answers none f h = tt
  auth-Answers (some a) f h = h a

  abbrev if_key : Auth → Result (Option L1Tx × Option Auth)
  if_key a =
      if not (a.bjj == tx.to_bjj)
      then err wrong_authorization
      else if_space env n_l1 n_l2 (authorized env position tx a)

  receiver_by_addr_and_bjj-Answers :
      (db : StateDb) → Answers (receiver_by_addr_and_bjj env n_l1 n_l2 position tx db)
  unfolding receiver_by_addr_and_bjj
  receiver_by_addr_and_bjj-Answers db =
      found-Answers (get_idx_by_eth_addr_bjj tx.to_eth_addr tx.to_bjj tx.token_id db)
        (elim (env.account_creation_auth tx.to_eth_addr) [
          | none ↦ err no_authorization
          | some a ↦ if_key a
        ])
        (auth-Answers (env.account_creation_auth tx.to_eth_addr) if_key (λ a.
          if-Answers (not (a.bjj == tx.to_bjj)) (err wrong_authorization)
            (if_space env n_l1 n_l2 (authorized env position tx a)) (λ _. tt)
            (authorized-Answers a)))

  receiver_by_addr-Answers :
      (db : StateDb) → Answers (receiver_by_addr env n_l1 n_l2 position tx db)
  unfolding receiver_by_addr
  receiver_by_addr-Answers db =
      found-Answers (get_idx_by_eth_addr tx.to_eth_addr tx.token_id db)
        (elim (env.account_creation_auth tx.to_eth_addr) [
          | none ↦ err no_authorization
          | some a ↦ if_space env n_l1 n_l2 (authorized env position tx a)
        ])
        (auth-Answers (env.account_creation_auth tx.to_eth_addr)
          (λ a. if_space env n_l1 n_l2 (authorized env position tx a)) authorized-Answers)

  receiver_by_bjj-Answers :
      (db : StateDb)
      → (tx.to_eth_addr == ff_addr) ≡ true
      → Answers (receiver_by_bjj env n_l1 n_l2 position tx db)
  unfolding receiver_by_bjj
  receiver_by_bjj-Answers db to_key =
      found-Answers (get_idx_by_eth_addr_bjj tx.to_eth_addr tx.to_bjj tx.token_id db)
        (if_space env n_l1 n_l2
          (some (create_tx position tx.to_eth_addr tx.to_bjj tx.token_id), none))
        (if_space-Answers (create_tx position tx.to_eth_addr tx.to_bjj tx.token_id) none refl
          (inl to_key))

  answers : (db : StateDb) → Answers (process_tx_to_eth_addr_bjj env n_l1 n_l2 position tx db)
  unfolding process_tx_to_eth_addr_bjj by_receiver
  answers db =
      if-Answers
        (check_pending_to_create_future_txs env.future_txs tx.token_id tx.to_eth_addr tx.to_bjj)
        (err receiver_pending) (by_receiver env n_l1 n_l2 position tx db) (λ _. tt)
        (if-Answers (not (tx.to_eth_addr == empty_addr) && not (tx.to_eth_addr == ff_addr))
          (if not (tx.to_bjj == empty_bjj_comp)
            then receiver_by_addr_and_bjj env n_l1 n_l2 position tx db
            else receiver_by_addr env n_l1 n_l2 position tx db)
          (if tx.to_eth_addr == ff_addr && not (tx.to_bjj == empty_bjj_comp)
            then receiver_by_bjj env n_l1 n_l2 position tx db
            else if_space env n_l1 n_l2 (none, none))
          (λ _.
            if-Answers (not (tx.to_bjj == empty_bjj_comp))
              (receiver_by_addr_and_bjj env n_l1 n_l2 position tx db)
              (receiver_by_addr env n_l1 n_l2 position tx db)
              (λ _. receiver_by_addr_and_bjj-Answers db) (receiver_by_addr-Answers db))
          (if-Answers (tx.to_eth_addr == ff_addr && not (tx.to_bjj == empty_bjj_comp))
            (receiver_by_bjj env n_l1 n_l2 position tx db) (if_space env n_l1 n_l2 (none, none))
            (λ h. receiver_by_bjj-Answers db (ground arith)) no_account-Answers))

  -- An account is created for the receiver only where there is room for the L1 transaction and the L2
  -- transaction; the former has the place that it was given; and where the receiver has an address,
  -- there is an authorization.
  pub process_tx_to_eth_addr_bjj-Created :
      (db : StateDb) (made : L1Tx) (auth : Option Auth)
      → process_tx_to_eth_addr_bjj env n_l1 n_l2 position tx db ≡ ok (some made, auth)
      → Created made auth
  process_tx_to_eth_addr_bjj-Created db made auth h = rw h at (answers db)
