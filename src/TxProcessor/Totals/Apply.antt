-- ===== src/TxProcessor/Totals/Apply.antt =====
-- Transfers, deposits, creations and exits (v2/txprocessor/txprocessor.go, apply*) and the total of
-- a token.
use hermez_node.Prelude.{ℕ, ◌≡◌, refl, some, arith, ◌==◌, if◌then◌else◌, Bool, true, false, ==_iff}
use hermez_node.Prelude.Int.{ℤ, pos, ◌+ℤ◌, ◌≤ℤ◌, int_laws, parts}
use hermez_node.Prelude.Dict.{Dict, lookup, lookup-insert}
use hermez_node.Prelude.Result.{ok}
use hermez_node.Common.Account.{Account}
use hermez_node.Common.Tx.{Tx}
use hermez_node.StateDb.{stored_at}
use hermez_node.TxProcessor.State.{State}
use hermez_node.TxProcessor.Monad.{Action, ◌>>=◌, ◌>>◌}
use hermez_node.TxProcessor.Apply.{get, update, debit, apply_transfer}
use hermez_node.TxProcessor.Steps.{bind_ok, get_ok, Written, update_ok}
use hermez_node.TxProcessor.Totals.{part, share, total, AllNonneg}
use hermez_node.TxProcessor.Totals.Transfers.{
  accounts_of, Written-total, credit, credit_total, Credited,
}

pub Written-AllNonneg :
    (i : ℕ) (a : Account) (s s' : State)
    → Written i a s s'
    → AllNonneg (accounts_of s)
    → AllNonneg (accounts_of s')
Written-AllNonneg i a s s' w nonneg j b e =
    nonneg_entry (i == j) (rw (w.accounts, lookup-insert) at e)
  where
    nonneg_entry :
        (same : Bool)
        → (if same then some (stored_at i a) else lookup j (accounts_of s)) ≡ some b
        → pos 0 ≤ℤ b.balance
    nonneg_entry true q = ground arith
    nonneg_entry false q = nonneg j b q

-- The entry of `j` before the write of `i`, with the token that it has after it.
pub Written-before :
    (i j : ℕ) (a found r : Account) (s s' : State)
    → Written i a s s'
    → lookup i (accounts_of s) ≡ some found
    → a.token_id ≡ found.token_id
    → lookup j (accounts_of s') ≡ some r
    → (b : Account) × (lookup j (accounts_of s) ≡ some b) × (r.token_id ≡ b.token_id)
Written-before i j a found r s s' w e tokens er =
    before (i == j) refl (rw (w.accounts, lookup-insert) at er)
  where
    before :
        (same : Bool)
        → (i == j) ≡ same
        → (if same then some (stored_at i a) else lookup j (accounts_of s)) ≡ some r
        → (b : Account) × (lookup j (accounts_of s) ≡ some b) × (r.token_id ≡ b.token_id)
    before true q h = (found, rw (← (==_iff i j).0 q) e, ground arith)
    before false q h = (r, h, refl)

-- A sender is written and a receiver credited.
pub transfer_core :
    (t from_idx to_idx : ℕ) (found sender : Account) (x : ℤ) (s u s' : State)
    → lookup from_idx (accounts_of s) ≡ some found
    → sender.token_id ≡ found.token_id
    → pos 0 ≤ℤ sender.balance
    → pos 0 ≤ℤ x
    → AllNonneg (accounts_of s)
    → Written from_idx sender s u
    → credit from_idx to_idx sender x u ≡ (ok tt, s')
    → (receiver : Account) × (lookup to_idx (accounts_of s) ≡ some receiver)
      × (total t (accounts_of s') +ℤ share t found
          ≡ total t (accounts_of s) +ℤ share t sender +ℤ part t receiver.token_id x)
transfer_core t from_idx to_idx found sender x s u s' e tokens hs hx nonneg w h = go (
    credit_total t from_idx to_idx sender x u s' written hs hx
      (Written-AllNonneg from_idx sender s u w nonneg) h)
  where
    written : lookup from_idx (accounts_of u) ≡ some (stored_at from_idx sender)
    written = rw (w.accounts, lookup-insert) (ground arith)

    go :
        Credited t to_idx x u s'
        → (receiver : Account) × (lookup to_idx (accounts_of s) ≡ some receiver)
          × (total t (accounts_of s') +ℤ share t found
              ≡ total t (accounts_of s) +ℤ share t sender +ℤ part t receiver.token_id x)
    go (r, er, grown) =
        let (b, eb, same) = Written-before from_idx to_idx sender found r s u w e tokens er in
        (
          b,
          eb,
          rw (← same) (
              omega
                (int_laws, parts grown, parts (Written-total t from_idx sender found s u w e hs))),
        )

-- The steps of a successful transfer.
pub record TransferSteps (c : Dict ℕ) (tx : Tx) (to_idx : ℕ) (s s' : State) : Type 0 where
  pub found : Account
  pub sender : Account
  pub paid : State
  pub written : State
  pub at_from : lookup tx.from_idx (accounts_of s) ≡ some found
  pub debited : debit c tx (record found { idx = tx.from_idx }) s ≡ (ok sender, paid)
  pub write : Written tx.from_idx sender paid written
  pub credited : credit tx.from_idx to_idx sender tx.amount written ≡ (ok tt, s')

abbrev pub to_of : Tx → ℕ → ℕ
to_of tx aux_to_idx = if aux_to_idx == 0 then tx.to_idx else aux_to_idx

pub apply_transfer_steps :
    (c : Dict ℕ) (tx : Tx) (aux_to_idx : ℕ) (s s' : State)
    → apply_transfer c tx aux_to_idx s ≡ (ok tt, s')
    → TransferSteps c tx (to_of tx aux_to_idx) s s'
unfolding apply_transfer credit
apply_transfer_steps c tx aux s s' h = first (bind_ok (get tx.from_idx) after_get s h)
  where
    to_idx : ℕ
    to_idx = to_of tx aux

    finish : Account → Action (Unit {0})
    finish sender = do update tx.from_idx sender; credit tx.from_idx to_idx sender tx.amount

    after_get : Account → Action (Unit {0})
    after_get found = debit c tx found >>= finish

    third :
        (found sender : Account) (paid : State)
        → lookup tx.from_idx (accounts_of s) ≡ some found
        → debit c tx (record found { idx = tx.from_idx }) s ≡ (ok sender, paid)
        → (a : Unit {0}) × (t : State) × (update tx.from_idx sender paid ≡ (ok a, t))
          × (credit tx.from_idx to_idx sender tx.amount t ≡ (ok tt, s'))
        → TransferSteps c tx to_idx s s'
    third found sender paid e d (a, t, w, k) = record {
      found = found;
      sender = sender;
      paid = paid;
      written = t;
      at_from = e;
      debited = d;
      write = update_ok tx.from_idx sender paid t w;
      credited = k;
    }

    second :
        (found : Account)
        → lookup tx.from_idx (accounts_of s) ≡ some found
        → (a : Account) × (t : State) × (debit c tx (record found { idx = tx.from_idx }) s
            ≡ (ok a, t))
          × (finish a t ≡ (ok tt, s'))
        → TransferSteps c tx to_idx s s'
    second found e (a, t, d, k) =
        third found a t e d
          (bind_ok (update tx.from_idx a) (λ _. credit tx.from_idx to_idx a tx.amount) t k)

    first :
        (a : Account) × (t : State) × (get tx.from_idx s ≡ (ok a, t))
          × (after_get a t ≡ (ok tt, s'))
        → TransferSteps c tx to_idx s s'
    first (a, t, g, k) =
        let (same, found, e, er) = get_ok tx.from_idx s a t g in
        second found e
          (bind_ok (debit c tx (record found { idx = tx.from_idx })) finish s (rw (same, er) at k))
