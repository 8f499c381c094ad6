-- ===== src/TxProcessor/Amounts/Checks.antt =====
-- What computeEffectiveAmounts (v2/txprocessor/txprocessor.go) lets pass.
use hermez_node.Prelude.{
  ap, ◌∙◌, ◌≤◌, ◌≡◌, ◌≢◌, refl, ◌⊎◌, inl, inr, Bool, true, false, not, leb, ◌==◌, ◌&&◌,
  if◌then◌else◌, arith, Bool-cases,
}
use hermez_node.Prelude.Int.{pos, ◌+ℤ◌, ◌≤ℤ◌, ltb_ℤ, ltb_ℤ_false}
use hermez_node.Prelude.Result.{ok, Result-cases}
use hermez_node.Common.Ids.{user_threshold}
use hermez_node.Common.Tx.{same_type, create_account_deposit}
use hermez_node.Common.Account.{Account}
use hermez_node.Common.L1Tx.{L1Tx}
use hermez_node.StateDb.{StateDb, get_account}
use hermez_node.TxProcessor.Amounts.{
  compute_effective_amounts, sender_amounts, receiver_amounts, create_transfer_amounts,
  full_amounts, zero_amount,
}

-- The receiver that a transaction with an amount needs: an account in its token. A transaction to
-- Idx 0 or 1 (no receiver, an exit) needs none.
abbrev pub HasReceiver : StateDb → L1Tx → Type 0
HasReceiver db tx =
    ((tx.to_idx ≡ 0) ⊎ (tx.to_idx ≡ 1))
    ⊎ ((receiver : Account) × (get_account tx.to_idx db ≡ ok receiver)
        × (receiver.token_id ≡ tx.token_id))

-- The sender that covers the amount: the owner's account, in the transaction's token, with a balance
-- that the deposit lifts to the amount at least.
abbrev pub HasSender : StateDb → L1Tx → Type 0
HasSender db tx =
    (sender : Account) × (get_account tx.from_idx db ≡ ok sender)
    × (sender.token_id ≡ tx.token_id)
    × (sender.eth_addr ≡ tx.from_eth_addr)
    × (tx.amount ≤ℤ sender.balance +ℤ tx.deposit_amount)

receiver_amounts_ok :
    (db : StateDb) (sender : Account) (tx : L1Tx)
    → sender.token_id ≡ tx.token_id
    → (receiver_amounts db sender tx).effective_amount ≢ pos 0
    → (tx.effective_amount ≢ pos 0) × HasReceiver db tx
unfolding receiver_amounts
receiver_amounts_ok db sender tx same h = elim (Result-cases (get_account tx.to_idx db)) [
  | inl (receiver, e) ↦ (ground arith, in_token receiver e (ground arith))
  | inr (x, e) ↦ (ground arith, inl (ground arith))
]
  where
    in_token :
        (receiver : Account)
        → get_account tx.to_idx db ≡ ok receiver
        → ((tx.to_idx ≡ 0) ⊎ (tx.to_idx ≡ 1)) ⊎ (receiver.token_id ≡ tx.token_id)
        → HasReceiver db tx
    in_token receiver e (inl none_needed) = inl none_needed
    in_token receiver e (inr q) = inr (receiver, e, q)

sender_amounts_ok :
    (db : StateDb) (tx : L1Tx)
    → (sender_amounts db (full_amounts tx)).effective_amount ≢ pos 0
    → HasSender db tx × HasReceiver db tx
unfolding sender_amounts
sender_amounts_ok db tx h = elim (Result-cases (get_account tx.from_idx db)) [
  | inl (sender, e) ↦
      checked sender e (Bool-cases (tx.token_id == sender.token_id))
        (Bool-cases (ltb_ℤ (sender.balance +ℤ tx.deposit_amount) tx.amount))
        (Bool-cases (tx.from_eth_addr == sender.eth_addr))
  | inr (x, e) ↦ absurd (h (rw (sender_amounts, e) refl))
]
  where
    checked :
        (sender : Account)
        → get_account tx.from_idx db ≡ ok sender
        → ((tx.token_id == sender.token_id) ≡ true) ⊎ ((tx.token_id == sender.token_id) ≡ false)
        → (ltb_ℤ (sender.balance +ℤ tx.deposit_amount) tx.amount ≡ true)
          ⊎ (ltb_ℤ (sender.balance +ℤ tx.deposit_amount) tx.amount ≡ false)
        → ((tx.from_eth_addr == sender.eth_addr) ≡ true)
          ⊎ ((tx.from_eth_addr == sender.eth_addr) ≡ false)
        → HasSender db tx × HasReceiver db tx
    checked sender e (inr t) b o = absurd (h (rw (sender_amounts, e, t) refl))
    checked sender e (inl t) (inl b) o = absurd (h (rw (sender_amounts, e, t, b) refl))
    checked sender e (inl t) (inr b) (inr o) = absurd (
        (receiver_amounts_ok db sender (zero_amount (full_amounts tx)) (ground arith)
            (rw (sender_amounts, e, t, b, o) at h)).0
          refl)
    checked sender e (inl t) (inr b) (inl o) = (
      (
        sender,
        e,
        ground arith,
        ground arith,
        ltb_ℤ_false (sender.balance +ℤ tx.deposit_amount) tx.amount b,
      ),
      (receiver_amounts_ok db sender (full_amounts tx) (ground arith)
          (rw (sender_amounts, e, t, b, o) at h)).1,
    )

-- A creation with a transfer: the deposit covers the amount, and the receiver is there.
abbrev pub CoveredByDeposit : StateDb → L1Tx → Type 0
CoveredByDeposit db tx =
    (tx.amount ≤ℤ tx.deposit_amount)
    × ((receiver : Account) × (get_account tx.to_idx db ≡ ok receiver)
        × (receiver.token_id ≡ tx.token_id))

create_transfer_amounts_ok :
    (db : StateDb) (tx : L1Tx)
    → (create_transfer_amounts db (full_amounts tx)).effective_amount ≢ pos 0
    → CoveredByDeposit db tx
unfolding create_transfer_amounts
create_transfer_amounts_ok db tx h = elim (Result-cases (get_account tx.to_idx db)) [
  | inl (receiver, e) ↦
      checked receiver e (Bool-cases (ltb_ℤ tx.deposit_amount tx.amount))
        (Bool-cases (tx.token_id == receiver.token_id))
  | inr (x, e) ↦ elim (Bool-cases (ltb_ℤ tx.deposit_amount tx.amount)) [
    | inl b ↦ absurd (h (rw (create_transfer_amounts, b) refl))
    | inr b ↦ absurd (h (rw (create_transfer_amounts, b, e) refl))
  ]
]
  where
    checked :
        (receiver : Account)
        → get_account tx.to_idx db ≡ ok receiver
        → (ltb_ℤ tx.deposit_amount tx.amount ≡ true) ⊎ (ltb_ℤ tx.deposit_amount tx.amount ≡ false)
        → ((tx.token_id == receiver.token_id) ≡ true) ⊎ ((tx.token_id == receiver.token_id) ≡ false)
        → CoveredByDeposit db tx
    checked receiver e (inl b) t = absurd (h (rw (create_transfer_amounts, b) refl))
    checked receiver e (inr b) (inr t) = absurd (h (rw (create_transfer_amounts, b, e, t) refl))
    checked receiver e (inr b) (inl t) =
        (ltb_ℤ_false tx.deposit_amount tx.amount b, (receiver, e, ground arith))

-- The branches of a chain of tests.
pick_third :
    (a b c : Bool) (x y z w : L1Tx)
    → a ≡ true
    → b ≡ false
    → c ≡ true
    → (if not a then x else if b then y else if c then z else w) ≡ z
pick_third a b c x y z w ea eb ec = rw (ea, eb, ec)

pick_last :
    (a b c : Bool) (x y z w : L1Tx)
    → a ≡ true
    → b ≡ false
    → c ≡ false
    → (if not a then x else if b then y else if c then z else w) ≡ w
pick_last a b c x y z w ea eb ec = rw (ea, eb, ec)

-- An L1 transaction other than a plain creation has an effective amount only when a user sent it
-- and the amount is covered: either it comes from Idx 0 and goes to an account that is there, in
-- its token, with a deposit that reaches the amount, or its sender is there, in its token and with
-- its Ethereum address, with a balance that the deposit lifts to the amount, and the receiver (if
-- it names one) is there in the same token.
pub compute_effective_amounts_covered :
    (db : StateDb) (tx : L1Tx)
    → same_type tx.tx_type create_account_deposit ≡ false
    → (compute_effective_amounts db tx).effective_amount ≢ pos 0
    → (tx.user_origin ≡ true)
      × (((tx.from_idx ≡ 0) × (user_threshold ≤ tx.to_idx) × CoveredByDeposit db tx)
          ⊎ (HasSender db tx × HasReceiver db tx))
unfolding compute_effective_amounts
compute_effective_amounts_covered db tx other h =
    by_origin (Bool-cases tx.user_origin)
      (Bool-cases (leb user_threshold tx.to_idx && tx.from_idx == 0))
  where
    picked :
        tx.user_origin ≡ true
        → (leb user_threshold tx.to_idx && tx.from_idx == 0) ≡ true
        → compute_effective_amounts db tx ≡ create_transfer_amounts db (full_amounts tx)
    picked user b =
        pick_third tx.user_origin _ _ _ _ (create_transfer_amounts db (full_amounts tx)) _ user
          other b

    picked_other :
        tx.user_origin ≡ true
        → (leb user_threshold tx.to_idx && tx.from_idx == 0) ≡ false
        → compute_effective_amounts db tx ≡ sender_amounts db (full_amounts tx)
    picked_other user b =
        pick_last tx.user_origin _ _ _ _ _ (sender_amounts db (full_amounts tx)) user other b

    by_origin :
        (tx.user_origin ≡ true) ⊎ (tx.user_origin ≡ false)
        → ((leb user_threshold tx.to_idx && tx.from_idx == 0) ≡ true)
          ⊎ ((leb user_threshold tx.to_idx && tx.from_idx == 0) ≡ false)
        → (tx.user_origin ≡ true)
          × (((tx.from_idx ≡ 0) × (user_threshold ≤ tx.to_idx) × CoveredByDeposit db tx)
              ⊎ (HasSender db tx × HasReceiver db tx))
    by_origin (inr coordinator) b = absurd (h (ground arith))
    by_origin (inl user) (inl b) = (
      user,
      inl (
        ground arith,
        ground arith,
        create_transfer_amounts_ok db tx
            (λ z. h (ap (λ (e : L1Tx). e.effective_amount) (picked user b) ∙ z)),
      ),
    )
    by_origin (inl user) (inr b) = (
      user,
      inr (
          sender_amounts_ok db tx
            (λ z. h (ap (λ (e : L1Tx). e.effective_amount) (picked_other user b) ∙ z))),
    )

-- The sender that a deposit needs: an account in the transaction's token.
abbrev pub DepositTaken : StateDb → L1Tx → Type 0
DepositTaken db tx =
    (sender : Account) × (get_account tx.from_idx db ≡ ok sender) × (sender.token_id ≡ tx.token_id)

sender_amounts_deposit :
    (db : StateDb) (tx : L1Tx)
    → (sender_amounts db (full_amounts tx)).effective_deposit_amount ≢ pos 0
    → DepositTaken db tx
unfolding sender_amounts
sender_amounts_deposit db tx h = elim (Result-cases (get_account tx.from_idx db)) [
  | inl (sender, e) ↦ checked sender e (Bool-cases (tx.token_id == sender.token_id))
  | inr (x, e) ↦ absurd (h (rw (sender_amounts, e) refl))
]
  where
    checked :
        (sender : Account)
        → get_account tx.from_idx db ≡ ok sender
        → ((tx.token_id == sender.token_id) ≡ true) ⊎ ((tx.token_id == sender.token_id) ≡ false)
        → DepositTaken db tx
    checked sender e (inl t) = (sender, e, ground arith)
    checked sender e (inr t) = absurd (h (rw (sender_amounts, e, t) refl))

-- An L1 transaction, other than a plain creation, from an Idx that is not 0 has an effective
-- deposit only if the account of that Idx is there, in its token.
pub compute_effective_amounts_deposit :
    (db : StateDb) (tx : L1Tx)
    → same_type tx.tx_type create_account_deposit ≡ false
    → tx.from_idx ≢ 0
    → (compute_effective_amounts db tx).effective_deposit_amount ≢ pos 0
    → DepositTaken db tx
unfolding compute_effective_amounts
compute_effective_amounts_deposit db tx other from h = by_origin (Bool-cases tx.user_origin)
  where
    at_sender : (leb user_threshold tx.to_idx && tx.from_idx == 0) ≡ false
    at_sender = ground arith

    by_origin : (tx.user_origin ≡ true) ⊎ (tx.user_origin ≡ false) → DepositTaken db tx
    by_origin (inr coordinator) = absurd (h (ground arith))
    by_origin (inl user) = sender_amounts_deposit db tx (λ z. h (
        ap (λ (e : L1Tx). e.effective_deposit_amount)
          (pick_last tx.user_origin _ _ _ _ _ (sender_amounts db (full_amounts tx)) user other
            at_sender)
        ∙ z))
