-- ===== src/TxProcessor/Totals/Transfers.antt =====
-- What the apply* methods do to the total of a token.
use hermez_node.Prelude.{
  ℕ, ◌≡◌, refl, ◌∙◌, ap, some, ◌==◌, if◌then◌else◌, Bool-cases, inl, inr, ==_iff,
}
use hermez_node.Prelude.Int.{ℤ, pos, ◌+ℤ◌, ◌≤ℤ◌, int_laws, parts}
use hermez_node.Prelude.Dict.{lookup}
use hermez_node.Prelude.Result.{ok}
use hermez_node.Common.Account.{Account}
use hermez_node.StateDb.{Accounts, stored_at}
use hermez_node.TxProcessor.State.{State}
use hermez_node.TxProcessor.Monad.{Action, ◌>>=◌, pure}
use hermez_node.TxProcessor.Apply.{get, update, add_balance}
use hermez_node.TxProcessor.Steps.{bind_ok, get_ok, Written, update_ok}
use hermez_node.TxProcessor.Totals.{
  part, share, total, total-insert-some, AllNonneg, share-stored_at, share-add, share-same,
}

abbrev pub accounts_of : State → Accounts
accounts_of s = s.db.accounts

-- Writing an account over another moves the total by the difference of their shares.
pub Written-total :
    (t i : ℕ) (a old : Account) (s s' : State)
    → Written i a s s'
    → lookup i (accounts_of s) ≡ some old
    → pos 0 ≤ℤ a.balance
    → total t (accounts_of s') +ℤ share t old ≡ total t (accounts_of s) +ℤ share t a
Written-total t i a old s s' w e h = rw (w.accounts) (
    total-insert-some t i (stored_at i a) old (accounts_of s) e
    ∙ ap (λ (x : ℤ). total t (accounts_of s) +ℤ x) (share-stored_at t i a h))

-- The receiver's part of a transfer, after the sender has been written: the amount is added to the
-- entry that is found, or to the sender's own account as just written.
unfoldable pub credit : (from_idx to_idx : ℕ) (sender : Account) (x : ℤ) → Action (Unit {0})
credit from_idx to_idx sender x = do
  receiver ← if to_idx == from_idx then pure sender else get to_idx
  update to_idx (add_balance x receiver)

-- Adding to an entry, as it was read.
credited :
    (t i : ℕ) (receiver old : Account) (x : ℤ) (s s' : State)
    → receiver.token_id ≡ old.token_id
    → share t old ≡ share t receiver
    → lookup i (accounts_of s) ≡ some old
    → pos 0 ≤ℤ receiver.balance
    → pos 0 ≤ℤ x
    → update i (add_balance x receiver) s ≡ (ok tt, s')
    → total t (accounts_of s') ≡ total t (accounts_of s) +ℤ part t old.token_id x
credited t i receiver old x s s' tokens shares e hr hx h = rw (← tokens) (
    omega (
      int_laws,
      parts (
          Written-total t i (add_balance x receiver) old s s' (update_ok i _ s s' h) e
            (omega int_laws)),
      parts shares,
      parts (share-add t receiver x),
    ))

-- What a credit has done: an entry was found, and its token's total grew by the amount.
abbrev pub Credited : ℕ → ℕ → ℤ → State → State → Type 0
Credited t to_idx x s s' =
    (receiver : Account) × (lookup to_idx (accounts_of s) ≡ some receiver)
    × (total t (accounts_of s') ≡ total t (accounts_of s) +ℤ part t receiver.token_id x)

credit_found :
    (t to_idx : ℕ) (x : ℤ) (s : State) (r : Account) (u s' : State)
    → pos 0 ≤ℤ x
    → AllNonneg (accounts_of s)
    → get to_idx s ≡ (ok r, u)
    → update to_idx (add_balance x r) u ≡ (ok tt, s')
    → Credited t to_idx x s s'
credit_found t to_idx x s r u s' hx nonneg got h = go (get_ok to_idx s r u got)
  where
    go :
        (u ≡ s)
          × (found : Account) × (lookup to_idx s.db.accounts ≡ some found)
          × (r ≡ record found { idx = to_idx })
        → Credited t to_idx x s s'
    go (same, found, e, er) = (
      found,
      e,
      credited t to_idx (record found { idx = to_idx }) found x s s' refl
          (share-same t found (record found { idx = to_idx }) refl refl) e (nonneg to_idx found e)
          hx (rw (same, er) at h),
    )

pub credit_total :
    (t from_idx to_idx : ℕ) (sender : Account) (x : ℤ) (s s' : State)
    → lookup from_idx (accounts_of s) ≡ some (stored_at from_idx sender)
    → pos 0 ≤ℤ sender.balance
    → pos 0 ≤ℤ x
    → AllNonneg (accounts_of s)
    → credit from_idx to_idx sender x s ≡ (ok tt, s')
    → Credited t to_idx x s s'
unfolding credit
credit_total t from_idx to_idx sender x s s' e hs hx nonneg h =
    elim (Bool-cases (to_idx == from_idx)) [
      | inl same ↦ itself ((==_iff to_idx from_idx).0 same) (rw same at h)
      | inr other ↦
          let (r, u, got, written) =
            bind_ok (get to_idx) (λ r. update to_idx (add_balance x r)) s (rw other at h) in
          credit_found t to_idx x s r u s' hx nonneg got written
    ]
  where
    itself :
        to_idx ≡ from_idx
        → update to_idx (add_balance x sender) s ≡ (ok tt, s')
        → Credited t to_idx x s s'
    itself same h =
        let at_to : lookup to_idx (accounts_of s) ≡ some (stored_at from_idx sender) = rw same e in
        (
          stored_at from_idx sender,
          at_to,
          credited t to_idx sender (stored_at from_idx sender) x s s' refl
              (share-stored_at t from_idx sender hs) at_to hs hx h,
        )
