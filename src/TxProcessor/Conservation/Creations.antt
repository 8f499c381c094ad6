-- ===== src/TxProcessor/Conservation/Creations.antt =====
-- Account creations (applyCreateAccount and applyCreateAccountDepositTransfer of
-- v2/txprocessor/txprocessor.go) and the total of a token.
use hermez_node.Prelude.{
  ℕ, ◌+◌, ◌≡◌, refl, ◌∙◌, ap, some, arith, ◌==◌, if◌then◌else◌, Bool, true, false, ◌⊎◌, inl, inr,
}
use hermez_node.Prelude.Int.{ℤ, pos, ◌+ℤ◌, ◌≤ℤ◌, int_laws, parts}
use hermez_node.Prelude.Dict.{lookup, lookup-insert}
use hermez_node.Prelude.Result.{ok}
use hermez_node.Common.Account.{Account}
use hermez_node.Common.L1Tx.{L1Tx}
use hermez_node.StateDb.{stored_at}
use hermez_node.TxProcessor.State.{State}
use hermez_node.TxProcessor.Monad.{Action, ◌>>=◌, ◌>>◌, pure}
use hermez_node.TxProcessor.Apply.{
  get, update, create, add_balance, sub_balance, check_balance, new_account, bump_current_idx,
  apply_create_account, apply_create_account_deposit_transfer,
}
use hermez_node.TxProcessor.Steps.{bind_ok, bind_from, Created, create_ok}
use hermez_node.TxProcessor.Totals.{
  part, share, total, total-insert-none, AllNonneg, share-sub, share-stored_at,
}
use hermez_node.TxProcessor.Totals.Transfers.{accounts_of, credit, credit_total, Credited}
use hermez_node.TxProcessor.Conservation.Deposits.{check_balance_ok}

share-new_account :
    (t : ℕ) (tx : L1Tx) → share t (new_account tx) ≡ part t tx.token_id tx.effective_deposit_amount
unfolding share
share-new_account t tx = refl

Created-total :
    (t i : ℕ) (a : Account) (s s' : State)
    → Created i a s s'
    → pos 0 ≤ℤ a.balance
    → total t (accounts_of s') ≡ total t (accounts_of s) +ℤ share t a
Created-total t i a s s' c h = rw (c.accounts) (
    total-insert-none t i (stored_at i a) (accounts_of s) c.absent
    ∙ ap (λ (x : ℤ). total t (accounts_of s) +ℤ x) (share-stored_at t i a h))

Created-AllNonneg :
    (i : ℕ) (a : Account) (s s' : State)
    → Created i a s s'
    → AllNonneg (accounts_of s)
    → AllNonneg (accounts_of s')
Created-AllNonneg i a s s' c nonneg j b e =
    nonneg_entry (i == j) (rw (c.accounts, lookup-insert) at e)
  where
    nonneg_entry :
        (same : Bool)
        → (if same then some (stored_at i a) else lookup j (accounts_of s)) ≡ some b
        → pos 0 ≤ℤ b.balance
    nonneg_entry true q = ground arith
    nonneg_entry false q = nonneg j b q

bump_keeps : (s s' : State) → bump_current_idx s ≡ (ok tt, s') → accounts_of s' ≡ accounts_of s
bump_keeps s s' h = ground arith

abbrev next_idx : State → ℕ
next_idx s = s.db.current_idx + 1

-- A created account adds its effective deposit to its token.
pub apply_create_account-total :
    (t : ℕ) (tx : L1Tx) (s s' : State)
    → pos 0 ≤ℤ tx.effective_deposit_amount
    → apply_create_account tx s ≡ (ok tt, s')
    → total t (accounts_of s')
      ≡ total t (accounts_of s) +ℤ part t tx.token_id tx.effective_deposit_amount
unfolding apply_create_account
apply_create_account-total t tx s s' hd h =
    go (bind_ok (create (next_idx s) (new_account tx)) (λ _. bump_current_idx) s h)
  where
    go :
        (a : Unit {0}) × (u : State) × (create (next_idx s) (new_account tx) s ≡ (ok a, u))
          × (bump_current_idx u ≡ (ok tt, s'))
        → total t (accounts_of s')
          ≡ total t (accounts_of s) +ℤ part t tx.token_id tx.effective_deposit_amount
    go (a, u, made, bumped) =
        ap (total t) (bump_keeps u s' bumped)
        ∙ Created-total t (next_idx s) (new_account tx) s u
            (create_ok (next_idx s) (new_account tx) s u made) hd
        ∙ ap (λ (x : ℤ). total t (accounts_of s) +ℤ x) (share-new_account t tx)

-- The token of the receiver of a creation with a transfer: of the new account, or of the account that
-- was there.
abbrev pub ReceiverToken : L1Tx → State → ℕ → Type 0
ReceiverToken tx s token =
    (token ≡ tx.token_id)
    ⊎ ((receiver : Account) × (lookup tx.to_idx (accounts_of s) ≡ some receiver)
        × (token ≡ receiver.token_id))

-- What a creation with a transfer has moved.
abbrev pub CreationMoved : ℕ → L1Tx → State → State → Type 0
CreationMoved t tx s s' =
    (token : ℕ) × ReceiverToken tx s token
    × (total t (accounts_of s') +ℤ part t tx.token_id tx.effective_amount
        ≡ total t (accounts_of s)
          +ℤ part t tx.token_id tx.effective_deposit_amount
          +ℤ part t token tx.effective_amount)

abbrev new_sender : L1Tx → Account
new_sender tx = sub_balance tx.effective_amount (new_account tx)

receiver_before :
    (i : ℕ) (tx : L1Tx) (r : Account) (s u : State)
    → Created i (new_sender tx) s u
    → lookup tx.to_idx (accounts_of u) ≡ some r
    → ReceiverToken tx s r.token_id
receiver_before i tx r s u c e = before (i == tx.to_idx) (rw (c.accounts, lookup-insert) at e)
  where
    before :
        (same : Bool)
        → (if same then some (stored_at i (new_sender tx)) else lookup tx.to_idx (accounts_of s))
          ≡ some r
        → ReceiverToken tx s r.token_id
    before true q = inl (ground arith)
    before false q = inr (r, q, refl)

-- The rest of the method once the new account is there.
abbrev credit_and_bump : L1Tx → ℕ → Action (Unit {0})
credit_and_bump tx i = do
  receiver ← if tx.to_idx == i then pure (new_sender tx) else get tx.to_idx
  update tx.to_idx (add_balance tx.effective_amount receiver)
  bump_current_idx

-- Reading the two writes as one.
credit_and_bump_ok :
    (tx : L1Tx) (i : ℕ) (u s' : State)
    → credit_and_bump tx i u ≡ (ok tt, s')
    → (v : State) × (credit i tx.to_idx (new_sender tx) tx.effective_amount u ≡ (ok tt, v))
      × (bump_current_idx v ≡ (ok tt, s'))
unfolding credit
credit_and_bump_ok tx i u s' h = found (bind_ok receiver (λ r. write r >> bump_current_idx) u h)
  where
    receiver : Action Account
    receiver = if tx.to_idx == i then pure (new_sender tx) else get tx.to_idx

    write : Account → Action (Unit {0})
    write r = update tx.to_idx (add_balance tx.effective_amount r)

    found :
        (r : Account) × (w : State) × (receiver u ≡ (ok r, w))
          × ((write r >> bump_current_idx) w ≡ (ok tt, s'))
        → (v : State) × ((receiver >>= write) u ≡ (ok tt, v)) × (bump_current_idx v ≡ (ok tt, s'))
    found (r, w, e, k) =
        let (a, v, q, b) = bind_ok (write r) (λ _. bump_current_idx) w k in
        (v, bind_from receiver write u e ∙ q, b)

creation_moved :
    (t i : ℕ) (tx : L1Tx) (s u v s' : State)
    → pos 0 ≤ℤ tx.effective_amount
    → AllNonneg (accounts_of s)
    → pos 0 ≤ℤ (new_sender tx).balance
    → Created i (new_sender tx) s u
    → credit i tx.to_idx (new_sender tx) tx.effective_amount u ≡ (ok tt, v)
    → bump_current_idx v ≡ (ok tt, s')
    → CreationMoved t tx s s'
creation_moved t i tx s u v s' hx nonneg hs c k b = go (
    credit_total t i tx.to_idx (new_sender tx) tx.effective_amount u v at_new hs hx
      (Created-AllNonneg i (new_sender tx) s u c nonneg) k)
  where
    at_new : lookup i (accounts_of u) ≡ some (stored_at i (new_sender tx))
    at_new = rw (c.accounts, lookup-insert) (ground arith)

    go : Credited t tx.to_idx tx.effective_amount u v → CreationMoved t tx s s'
    go (r, er, q) = (
      r.token_id,
      receiver_before i tx r s u c er,
      omega (
        int_laws,
        parts q,
        parts (ap (total t) (bump_keeps v s' b)),
        parts (Created-total t i (new_sender tx) s u c hs),
        parts (share-sub t (new_account tx) tx.effective_amount),
        parts (share-new_account t tx),
      ),
    )

-- A successful creation with a transfer of a non-negative effective amount, on a state without
-- negative balances, adds the effective deposit in the transaction's token, takes the effective
-- amount out of that token, and adds it in the token of the receiver, which is the new account or
-- an account that was there.
pub apply_create_account_deposit_transfer_total :
    (t : ℕ) (tx : L1Tx) (s s' : State)
    → pos 0 ≤ℤ tx.effective_amount
    → AllNonneg (accounts_of s)
    → apply_create_account_deposit_transfer tx s ≡ (ok tt, s')
    → CreationMoved t tx s s'
unfolding apply_create_account_deposit_transfer
apply_create_account_deposit_transfer_total t tx s s' hx nonneg h =
    first (bind_ok (check_balance (new_sender tx)) (λ _. make) s h)
  where
    i : ℕ
    i = next_idx s

    make : Action (Unit {0})
    make = do create i (new_sender tx); credit_and_bump tx i

    third :
        (u : State)
        → Created i (new_sender tx) s u
        → pos 0 ≤ℤ (new_sender tx).balance
        → (v : State) × (credit i tx.to_idx (new_sender tx) tx.effective_amount u ≡ (ok tt, v))
          × (bump_current_idx v ≡ (ok tt, s'))
        → CreationMoved t tx s s'
    third u c hs (v, k, b) = creation_moved t i tx s u v s' hx nonneg hs c k b

    second :
        pos 0 ≤ℤ (new_sender tx).balance
        → (a : Unit {0}) × (u : State) × (create i (new_sender tx) s ≡ (ok a, u))
          × (credit_and_bump tx i u ≡ (ok tt, s'))
        → CreationMoved t tx s s'
    second hs (a, u, made, k) =
        third u (create_ok i (new_sender tx) s u made) hs (credit_and_bump_ok tx i u s' k)

    first :
        (a : Unit {0}) × (u : State) × (check_balance (new_sender tx) s ≡ (ok a, u))
          × (make u ≡ (ok tt, s'))
        → CreationMoved t tx s s'
    first (a, u, checked, k) =
        let (same, hs) = check_balance_ok (new_sender tx) s u checked in
        second hs (bind_ok (create i (new_sender tx)) (λ _. credit_and_bump tx i) s (rw same at k))
