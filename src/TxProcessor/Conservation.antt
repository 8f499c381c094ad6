-- ===== src/TxProcessor/Conservation.antt =====
-- Transfers (applyTransfer of v2/txprocessor/txprocessor.go) and the total of each token.
pub mod ExitTree
pub mod Exits
pub mod Deposits
pub mod Creations
pub mod Fees
pub mod Facts
pub mod Kinds
pub mod L1
use hermez_node.Prelude.{
  ℕ, ◌≡◌, refl, sym, ◌∙◌, ap, Option, none, some, arith, ◌==◌, if◌then◌else◌, Bool, true,
}
use hermez_node.Prelude.Int.{ℤ, pos, ◌+ℤ◌, ◌-ℤ◌, ◌≤ℤ◌, int_laws, parts}
use hermez_node.Prelude.Dict.{Dict, lookup}
use hermez_node.Prelude.Result.{Result, ok, err}
use hermez_node.Common.Account.{Account}
use hermez_node.Common.Tx.{Tx}
use hermez_node.TxProcessor.State.{State}
use hermez_node.TxProcessor.Apply.{sub_balance, debit, apply_transfer}
use hermez_node.TxProcessor.Steps.{Written, debit_l1_ok, FeesOnly}
use hermez_node.TxProcessor.Totals.{part, share, total, AllNonneg, share-same, share-sub}
use hermez_node.TxProcessor.Totals.Transfers.{accounts_of, credit}
use hermez_node.TxProcessor.Totals.Apply.{TransferSteps, apply_transfer_steps, to_of, transfer_core}

-- The debited account has lost `x` of its token, and nothing of another.
share-debited :
    (t i n : ℕ) (found : Account) (x : ℤ)
    → share t (sub_balance x (record found { idx = i; nonce = n })) +ℤ part t found.token_id x
      ≡ share t found
share-debited t i n found x =
    share-sub t (record found { idx = i; nonce = n }) x
    ∙ share-same t (record found { idx = i; nonce = n }) found refl refl

-- What a successful transfer moved: `cost` left the sender, the amount reached the receiver.
abbrev pub Moved : ℕ → Tx → ℕ → ℤ → State → State → Type 0
Moved t tx to_idx cost s s' =
    (found : Account) × (receiver : Account) × (lookup tx.from_idx (accounts_of s) ≡ some found)
    × (lookup to_idx (accounts_of s) ≡ some receiver)
    × (total t (accounts_of s') +ℤ part t found.token_id cost
        ≡ total t (accounts_of s) +ℤ part t receiver.token_id tx.amount)

moved :
    (t : ℕ) (tx : Tx) (to_idx n : ℕ) (found sender : Account) (cost : ℤ) (s paid u s' : State)
    → lookup tx.from_idx (accounts_of s) ≡ some found
    → paid.db ≡ s.db
    → sender ≡ sub_balance cost (record found { idx = tx.from_idx; nonce = n })
    → pos 0 ≤ℤ sender.balance
    → pos 0 ≤ℤ tx.amount
    → AllNonneg (accounts_of s)
    → Written tx.from_idx sender paid u
    → credit tx.from_idx to_idx sender tx.amount u ≡ (ok tt, s')
    → Moved t tx to_idx cost s s'
moved t tx to_idx n found sender cost s paid u s' e db es hs hx nonneg w k = go (
    rw db at (
      transfer_core t tx.from_idx to_idx found sender tx.amount paid u s' (rw db e)
        (ap (λ (a : Account). a.token_id) es) hs hx (rw db nonneg) w k))
  where
    go :
        (receiver : Account) × (lookup to_idx (accounts_of s) ≡ some receiver)
          × (total t (accounts_of s') +ℤ share t found
              ≡ total t (accounts_of s) +ℤ share t sender +ℤ part t receiver.token_id tx.amount)
        → Moved t tx to_idx cost s s'
    go (receiver, er, sums) = (
      found,
      receiver,
      e,
      er,
      omega (
        int_laws,
        parts sums,
        parts (ap (share t) es),
        parts (share-debited t tx.from_idx n found cost),
      ),
    )

-- A successful L1 transfer of a non-negative amount, on a state without negative balances, takes
-- just that amount from an account that is there, in its token, and gives it to an account that is
-- there, in its token.
pub apply_transfer_l1 :
    (t : ℕ) (c : Dict ℕ) (tx : Tx) (aux_to_idx : ℕ) (s s' : State)
    → tx.is_l1 ≡ true
    → pos 0 ≤ℤ tx.amount
    → AllNonneg (accounts_of s)
    → apply_transfer c tx aux_to_idx s ≡ (ok tt, s')
    → Moved t tx (to_of tx aux_to_idx) tx.amount s s'
apply_transfer_l1 t c tx aux s s' l1 hx nonneg h = go (apply_transfer_steps c tx aux s s' h)
  where
    go : TransferSteps c tx (to_of tx aux) s s' → Moved t tx (to_of tx aux) tx.amount s s'
    go r =
        let (same, es, hs) = debit_l1_ok c tx _ s r.sender r.paid l1 r.debited in
        moved t tx (to_of tx aux) r.found.nonce r.found r.sender tx.amount s r.paid r.written s'
          r.at_from (ap (λ (u : State). u.db) same) es hs hx nonneg r.write r.credited
