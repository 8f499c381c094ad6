-- ===== src/TxProcessor/Nonces.antt =====
-- The nonces of the accounts under an L2 transfer (applyTransfer of v2/txprocessor/txprocessor.go).
use hermez_node.Prelude.{
  ℕ, ◌+◌, ◌%◌, ◌^◌, ◌≡◌, refl, sym, ◌∙◌, ap, Option, none, some, arith, ◌==◌, ==_iff, if◌then◌else◌,
  Bool, true, false, Bool-cases, inl, inr,
}
use hermez_node.Prelude.Int.{ℤ}
use hermez_node.Prelude.Dict.{Dict, lookup, lookup-insert}
use hermez_node.Prelude.Result.{ok}
use hermez_node.Common.Account.{Account}
use hermez_node.Common.Tx.{Tx}
use hermez_node.StateDb.{Accounts, stored_at}
use hermez_node.TxProcessor.State.{State}
use hermez_node.TxProcessor.Apply.{get, update, add_balance, apply_transfer}
use hermez_node.TxProcessor.Steps.{bind_ok, get_ok, Written, update_ok, debit_l2_ok}
use hermez_node.TxProcessor.Totals.Transfers.{accounts_of, credit}
use hermez_node.TxProcessor.Totals.Apply.{TransferSteps, apply_transfer_steps, to_of}

-- The nonce of the account at an Idx, if there is one.
abbrev pub nonce_at : ℕ → Accounts → Option ℕ
nonce_at j d = elim (lookup j d) [ none ↦ none | some a ↦ some a.nonce ]

abbrev nonce_of : Option Account → Option ℕ
nonce_of o = elim o [ none ↦ none | some a ↦ some a.nonce ]

-- The nonces after a write.
nonce_at-Written :
    (i j : ℕ) (a : Account) (s s' : State)
    → Written i a s s'
    → nonce_at j (accounts_of s') ≡ (if i == j then some a.nonce else nonce_at j (accounts_of s))
nonce_at-Written i j a s s' w =
    ap (nonce_at j) w.accounts
    ∙ ap nonce_of (lookup-insert i j (stored_at i a) (accounts_of s))
    ∙ by_key (i == j)
  where
    by_key :
        (same : Bool)
        → nonce_of (if same then some (stored_at i a) else lookup j (accounts_of s))
          ≡ (if same then some a.nonce else nonce_at j (accounts_of s))
    by_key true = refl
    by_key false = refl

-- A write that keeps the nonce of the account that was there keeps all nonces.
nonce_at-kept :
    (i j : ℕ) (a : Account) (s s' : State)
    → Written i a s s'
    → nonce_at i (accounts_of s) ≡ some a.nonce
    → nonce_at j (accounts_of s') ≡ nonce_at j (accounts_of s)
nonce_at-kept i j a s s' w e = nonce_at-Written i j a s s' w ∙ by_key (i == j) refl
  where
    by_key :
        (same : Bool)
        → (i == j) ≡ same
        → (if same then some a.nonce else nonce_at j (accounts_of s)) ≡ nonce_at j (accounts_of s)
    by_key true q = sym e ∙ ap (λ (n : ℕ). nonce_at n (accounts_of s)) ((==_iff i j).0 q)
    by_key false q = refl

-- The receiver's part of a transfer keeps the nonces.
nonce_at-credit :
    (from_idx to_idx j : ℕ) (sender : Account) (x : ℤ) (s s' : State)
    → nonce_at from_idx (accounts_of s) ≡ some sender.nonce
    → credit from_idx to_idx sender x s ≡ (ok tt, s')
    → nonce_at j (accounts_of s') ≡ nonce_at j (accounts_of s)
unfolding credit
nonce_at-credit from_idx to_idx j sender x s s' e h = elim (Bool-cases (to_idx == from_idx)) [
  | inl same ↦
      nonce_at-kept to_idx j (add_balance x sender) s s' (update_ok to_idx _ s s' (rw same at h))
        (ap (λ (n : ℕ). nonce_at n (accounts_of s)) ((==_iff to_idx from_idx).0 same) ∙ e)
  | inr other ↦
      found (bind_ok (get to_idx) (λ r. update to_idx (add_balance x r)) s (rw other at h))
]
  where
    found :
        (r : Account) × (u : State) × (get to_idx s ≡ (ok r, u))
          × (update to_idx (add_balance x r) u ≡ (ok tt, s'))
        → nonce_at j (accounts_of s') ≡ nonce_at j (accounts_of s)
    found (r, u, got, written) =
        let (same, a, q, er) = get_ok to_idx s r u got in
        nonce_at-kept to_idx j (add_balance x r) s s' (update_ok to_idx _ s s' (rw same at written))
          (ap nonce_of q ∙ ap some (sym (ap (λ (b : Account). b.nonce) er)))

-- A successful L2 transfer counts the sender's nonce up by one, in 64 bits, and changes no other nonce,
-- the receiver's included.
pub apply_transfer-nonce_at :
    (c : Dict ℕ) (tx : Tx) (aux_to_idx j : ℕ) (s s' : State)
    → tx.is_l1 ≡ false
    → apply_transfer c tx aux_to_idx s ≡ (ok tt, s')
    → (found : Account) × (lookup tx.from_idx (accounts_of s) ≡ some found)
      × (nonce_at j (accounts_of s') ≡ (
          if tx.from_idx == j
          then some ((found.nonce + 1) % 2 ^ 64)
          else nonce_at j (accounts_of s)))
apply_transfer-nonce_at c tx aux j s s' l2 h = go (apply_transfer_steps c tx aux s s' h)
  where
    go :
        TransferSteps c tx (to_of tx aux) s s'
        → (found : Account) × (lookup tx.from_idx (accounts_of s) ≡ some found)
          × (nonce_at j (accounts_of s') ≡ (
              if tx.from_idx == j
              then some ((found.nonce + 1) % 2 ^ 64)
              else nonce_at j (accounts_of s)))
    go r =
        let (fee, ef, _, fees, es, hs) = debit_l2_ok c tx _ s r.sender r.paid l2 r.debited in
        let up : r.sender.nonce ≡ (r.found.nonce + 1) % 2 ^ 64 = ap (λ (a : Account). a.nonce) es in
        (
          r.found,
          r.at_from,
          nonce_at-credit tx.from_idx (to_of tx aux) j r.sender tx.amount r.written s'
                (nonce_at-Written tx.from_idx tx.from_idx r.sender r.paid r.written r.write
                  ∙ ground arith)
                r.credited
              ∙ nonce_at-Written tx.from_idx j r.sender r.paid r.written r.write
              ∙ ap (λ (n : ℕ). if tx.from_idx == j then some n else nonce_at j (accounts_of r.paid))
                  up
              ∙ ap
                  (λ (d : Accounts).
                    if tx.from_idx == j then some ((r.found.nonce + 1) % 2 ^ 64) else nonce_at j d)
                  (ap (λ (v : hermez_node.StateDb.StateDb). v.accounts) fees.db),
        )
