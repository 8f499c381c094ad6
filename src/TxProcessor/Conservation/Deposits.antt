-- ===== src/TxProcessor/Conservation/Deposits.antt =====
-- Deposits and account creations (applyDeposit, applyCreateAccount and
-- applyCreateAccountDepositTransfer of v2/txprocessor/txprocessor.go) and the total of a token.
use hermez_node.Prelude.{ℕ, ◌≡◌, refl, ◌∙◌, ap, some, arith, if◌then◌else◌, Bool, true, false}
use hermez_node.Prelude.Int.{ℤ, pos, ◌+ℤ◌, ◌≤ℤ◌, int_laws, parts}
use hermez_node.Prelude.Dict.{lookup}
use hermez_node.Prelude.Result.{Result, ok}
use hermez_node.Common.Account.{Account}
use hermez_node.Common.L1Tx.{L1Tx}
use hermez_node.TxProcessor.State.{State}
use hermez_node.TxProcessor.Monad.{Action, ◌>>◌, pure}
use hermez_node.TxProcessor.Apply.{
  get, update, add_balance, sub_balance, check_balance, apply_deposit,
}
use hermez_node.TxProcessor.Steps.{bind_ok, get_ok, Written, update_ok}
use hermez_node.TxProcessor.Totals.{part, share, total, AllNonneg, share-same, share-sub, share-add}
use hermez_node.TxProcessor.Totals.Transfers.{accounts_of, credit, Written-total}
use hermez_node.TxProcessor.Totals.Apply.{transfer_core}

pub check_balance_ok :
    (a : Account) (s s' : State) → check_balance a s ≡ (ok tt, s') → (s' ≡ s) × (pos 0 ≤ℤ a.balance)
check_balance_ok a s s' h = ground arith

-- The sender's account after a deposit and the debit of the amount.
abbrev pub after_deposit : L1Tx → Account → Account
after_deposit tx found =
    sub_balance tx.effective_amount
      (add_balance tx.effective_deposit_amount (record found { idx = tx.from_idx }))

share-after_deposit :
    (t : ℕ) (tx : L1Tx) (found : Account)
    → share t (after_deposit tx found) +ℤ part t found.token_id tx.effective_amount
      ≡ share t found +ℤ part t found.token_id tx.effective_deposit_amount
share-after_deposit t tx found =
    share-sub t (add_balance tx.effective_deposit_amount (record found { idx = tx.from_idx }))
      tx.effective_amount
    ∙ share-add t (record found { idx = tx.from_idx }) tx.effective_deposit_amount
    ∙ ap (λ (x : ℤ). x +ℤ part t found.token_id tx.effective_deposit_amount)
        (share-same t (record found { idx = tx.from_idx }) found refl refl)

-- The second half of applyDeposit.
abbrev transfer_half : L1Tx → Bool → Account → Action (Unit {0})
transfer_half tx with_transfer sender =
    if with_transfer then credit tx.from_idx tx.to_idx sender tx.effective_amount else pure tt

-- The steps of a successful deposit.
pub record DepositSteps (tx : L1Tx) (with_transfer : Bool) (s s' : State) : Type 0 where
  pub found : Account
  pub written : State
  pub at_from : lookup tx.from_idx (accounts_of s) ≡ some found
  pub covered : pos 0 ≤ℤ (after_deposit tx found).balance
  pub write : Written tx.from_idx (after_deposit tx found) s written
  pub rest : transfer_half tx with_transfer (after_deposit tx found) written ≡ (ok tt, s')

pub apply_deposit_steps :
    (tx : L1Tx) (with_transfer : Bool) (s s' : State)
    → apply_deposit tx with_transfer s ≡ (ok tt, s')
    → DepositSteps tx with_transfer s s'
unfolding apply_deposit credit
apply_deposit_steps tx b s s' h = first (bind_ok (get tx.from_idx) after_get s h)
  where
    finish : Account → Action (Unit {0})
    finish a = do update tx.from_idx a; transfer_half tx b a

    after_get : Account → Action (Unit {0})
    after_get a = do
      check_balance (sub_balance tx.effective_amount (add_balance tx.effective_deposit_amount a))
      finish (sub_balance tx.effective_amount (add_balance tx.effective_deposit_amount a))

    third :
        (found : Account)
        → lookup tx.from_idx (accounts_of s) ≡ some found
        → pos 0 ≤ℤ (after_deposit tx found).balance
        → (a : Unit {0}) × (u : State) × (update tx.from_idx (after_deposit tx found) s ≡ (ok a, u))
          × (transfer_half tx b (after_deposit tx found) u ≡ (ok tt, s'))
        → DepositSteps tx b s s'
    third found e cov (a, u, w, k) = record {
      found = found;
      written = u;
      at_from = e;
      covered = cov;
      write = update_ok tx.from_idx (after_deposit tx found) s u w;
      rest = k;
    }

    second :
        (found : Account)
        → lookup tx.from_idx (accounts_of s) ≡ some found
        → (a : Unit {0}) × (u : State) × (check_balance (after_deposit tx found) s ≡ (ok a, u))
          × (finish (after_deposit tx found) u ≡ (ok tt, s'))
        → DepositSteps tx b s s'
    second found e (a, u, c, k) =
        let (same, cov) = check_balance_ok (after_deposit tx found) s u c in
        third found e cov (
          bind_ok (update tx.from_idx (after_deposit tx found))
            (λ _. transfer_half tx b (after_deposit tx found)) s (rw same at k))

    first :
        (a : Account) × (u : State) × (get tx.from_idx s ≡ (ok a, u))
          × (after_get a u ≡ (ok tt, s'))
        → DepositSteps tx b s s'
    first (a, u, g, k) =
        let (same, found, e, er) = get_ok tx.from_idx s a u g in
        second found e (
          bind_ok (check_balance (after_deposit tx found)) (λ _. finish (after_deposit tx found)) s
            (rw (same, er) at k))

-- A successful plain deposit adds the deposited amount to the account's token, and takes the amount.
pub apply_deposit-total :
    (t : ℕ) (tx : L1Tx) (s s' : State)
    → apply_deposit tx false s ≡ (ok tt, s')
    → (found : Account) × (lookup tx.from_idx (accounts_of s) ≡ some found)
      × (total t (accounts_of s') +ℤ part t found.token_id tx.effective_amount
          ≡ total t (accounts_of s) +ℤ part t found.token_id tx.effective_deposit_amount)
apply_deposit-total t tx s s' h = go (apply_deposit_steps tx false s s' h)
  where
    go :
        DepositSteps tx false s s'
        → (found : Account) × (lookup tx.from_idx (accounts_of s) ≡ some found)
          × (total t (accounts_of s') +ℤ part t found.token_id tx.effective_amount
              ≡ total t (accounts_of s) +ℤ part t found.token_id tx.effective_deposit_amount)
    go r = (
      r.found,
      r.at_from,
      omega (
        int_laws,
        parts (ap (λ (p : Result (Unit {0}) × State). total t (accounts_of p.1)) r.rest),
        parts (
            Written-total t tx.from_idx (after_deposit tx r.found) r.found s r.written r.write
              r.at_from r.covered),
        parts (share-after_deposit t tx r.found),
      ),
    )

-- What a deposit with a transfer has moved.
abbrev pub DepositMoved : ℕ → L1Tx → State → State → Type 0
DepositMoved t tx s s' =
    (found : Account) × (receiver : Account) × (lookup tx.from_idx (accounts_of s) ≡ some found)
    × (lookup tx.to_idx (accounts_of s) ≡ some receiver)
    × (total t (accounts_of s') +ℤ part t found.token_id tx.effective_amount
        ≡ total t (accounts_of s)
          +ℤ part t found.token_id tx.effective_deposit_amount
          +ℤ part t receiver.token_id tx.effective_amount)

-- A successful deposit with a transfer of a non-negative effective amount, on a state without
-- negative balances, adds the effective deposit in the token of the sender's account, takes the
-- effective amount out of that token, and adds it in the token of the receiver's account; both
-- accounts were there.
pub apply_deposit_transfer_total :
    (t : ℕ) (tx : L1Tx) (s s' : State)
    → pos 0 ≤ℤ tx.effective_amount
    → AllNonneg (accounts_of s)
    → apply_deposit tx true s ≡ (ok tt, s')
    → DepositMoved t tx s s'
apply_deposit_transfer_total t tx s s' hx nonneg h = go (apply_deposit_steps tx true s s' h)
  where
    sums :
        (r : DepositSteps tx true s s')
        → (receiver : Account) × (lookup tx.to_idx (accounts_of s) ≡ some receiver)
          × (total t (accounts_of s') +ℤ share t r.found
              ≡ total t (accounts_of s)
                +ℤ share t (after_deposit tx r.found)
                +ℤ part t receiver.token_id tx.effective_amount)
        → DepositMoved t tx s s'
    sums r (receiver, er, q) = (
      r.found,
      receiver,
      r.at_from,
      er,
      omega (int_laws, parts q, parts (share-after_deposit t tx r.found)),
    )

    go : DepositSteps tx true s s' → DepositMoved t tx s s'
    go r = sums r (
        transfer_core t tx.from_idx tx.to_idx r.found (after_deposit tx r.found) tx.effective_amount
          s r.written s' r.at_from refl r.covered hx nonneg r.write r.rest)
