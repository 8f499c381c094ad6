-- ===== src/TxProcessor/Conservation/Exits.antt =====
-- Exits (applyExit of v2/txprocessor/txprocessor.go) and the total of a token, over the state tree and
-- over the exit tree.
use hermez_node.Prelude.{
  ℕ, ◌≡◌, refl, sym, ◌∙◌, ap, Option, none, some, true, false, if◌then◌else◌, ◌+◌, ◌%◌, ◌^◌,
}
use hermez_node.Prelude.Int.{ℤ, pos, ◌+ℤ◌, ◌≤ℤ◌, int_laws, parts, is_zero}
use hermez_node.Prelude.Dict.{Dict, lookup}
use hermez_node.Prelude.Result.{ok}
use hermez_node.Common.Account.{Account}
use hermez_node.Common.Fee.{calc_fee_amount}
use hermez_node.Common.Tx.{Tx}
use hermez_node.StateDb.{Accounts, stored_at, get_in_tree, update_in_tree, create_in_tree}
use hermez_node.TxProcessor.State.{State}
use hermez_node.TxProcessor.Monad.{Action, ◌>>=◌, pure}
use hermez_node.TxProcessor.Apply.{Exit, get, update, sub_balance, debit, apply_exit, add_exit}
use hermez_node.TxProcessor.Steps.{bind_ok, get_ok, Written, update_ok, debit_l1_ok, debit_l2_ok}
use hermez_node.TxProcessor.Totals.{part, share, total, AllNonneg, share-same, share-sub}
use hermez_node.TxProcessor.Totals.Transfers.{accounts_of, Written-total}
use hermez_node.TxProcessor.Conservation.ExitTree.{ExitGrows, add_exit_ok}

-- The exit tree's part of applyExit, once the account has been debited.
abbrev exit_half : Tx → ℤ → Account → Option Accounts → Action Exit
exit_half tx original_amount acc tree = elim tree [
  | none ↦ pure none
  | some exits ↦ if is_zero original_amount then pure none else add_exit tx acc exits
]

-- The steps of a successful exit.
pub record ExitSteps (c : Dict ℕ) (tx : Tx) (original_amount : ℤ) (s : State) (e : Exit)
    (s' : State) : Type 0 where
  pub found : Account
  pub sender : Account
  pub paid : State
  pub written : State
  pub at_from : lookup tx.from_idx (accounts_of s) ≡ some found
  pub debited : debit c tx (record found { idx = tx.from_idx }) s ≡ (ok sender, paid)
  pub write : Written tx.from_idx sender paid written
  pub exited : exit_half tx original_amount sender written.exit_tree written ≡ (ok e, s')

pub apply_exit_steps :
    (c : Dict ℕ) (tx : Tx) (original_amount : ℤ) (s : State) (e : Exit) (s' : State)
    → apply_exit c tx original_amount s ≡ (ok e, s')
    → ExitSteps c tx original_amount s e s'
unfolding apply_exit
apply_exit_steps c tx orig s e s' h = first (bind_ok (get tx.from_idx) after_get s h)
  where
    last : Account → Action Exit
    last acc u = exit_half tx orig acc u.exit_tree u

    finish : Account → Action Exit
    finish acc = update tx.from_idx acc >>= λ _. last acc

    after_get : Account → Action Exit
    after_get found = debit c tx found >>= finish

    third :
        (found sender : Account) (paid : State)
        → lookup tx.from_idx (accounts_of s) ≡ some found
        → debit c tx (record found { idx = tx.from_idx }) s ≡ (ok sender, paid)
        → (a : Unit {0}) × (u : State) × (update tx.from_idx sender paid ≡ (ok a, u))
          × (last sender u ≡ (ok e, s'))
        → ExitSteps c tx orig s e s'
    third found sender paid q d (a, u, w, k) = record {
      found = found;
      sender = sender;
      paid = paid;
      written = u;
      at_from = q;
      debited = d;
      write = update_ok tx.from_idx sender paid u w;
      exited = k;
    }

    second :
        (found : Account)
        → lookup tx.from_idx (accounts_of s) ≡ some found
        → (a : Account) × (u : State) × (debit c tx (record found { idx = tx.from_idx }) s
            ≡ (ok a, u))
          × (finish a u ≡ (ok e, s'))
        → ExitSteps c tx orig s e s'
    second found q (a, u, d, k) =
        third found a u q d (bind_ok (update tx.from_idx a) (λ _. last a) u k)

    first :
        (a : Account) × (u : State) × (get tx.from_idx s ≡ (ok a, u)) × (after_get a u ≡ (ok e, s'))
        → ExitSteps c tx orig s e s'
    first (a, u, g, k) =
        let (same, found, q, er) = get_ok tx.from_idx s a u g in
        second found q
          (bind_ok (debit c tx (record found { idx = tx.from_idx })) finish s (rw (same, er) at k))

-- What a successful exit moved: `cost` left the state, the amount entered the exit tree.
abbrev pub ExitMoved : ℕ → Tx → ℤ → Accounts → State → State → Type 0
ExitMoved t tx cost exits s s' =
    (found : Account) × (acc : Account) × (exits' : Accounts) × (lookup tx.from_idx (accounts_of s)
      ≡ some found)
    × (acc.token_id ≡ found.token_id)
    × (total t (accounts_of s') +ℤ part t found.token_id cost ≡ total t (accounts_of s))
    × (s'.exit_tree ≡ some exits')
    × ExitGrows t tx acc exits exits'

share-exited :
    (t i n : ℕ) (found : Account) (x : ℤ)
    → share t (sub_balance x (record found { idx = i; nonce = n })) +ℤ part t found.token_id x
      ≡ share t found
share-exited t i n found x =
    share-sub t (record found { idx = i; nonce = n }) x
    ∙ share-same t (record found { idx = i; nonce = n }) found refl refl

exit_half-some :
    (tx : Tx) (orig : ℤ) (acc : Account) (tree : Option Accounts) (exits : Accounts)
    → tree ≡ some exits
    → is_zero orig ≡ false
    → exit_half tx orig acc tree ≡ add_exit tx acc exits
exit_half-some tx orig acc tree exits e z = rw (e, z) refl

exit_moved :
    (t : ℕ) (tx : Tx) (orig : ℤ) (n : ℕ) (found sender : Account) (cost : ℤ) (exits : Accounts)
    (s paid u : State) (e : Exit) (s' : State)
    → lookup tx.from_idx (accounts_of s) ≡ some found
    → paid.db ≡ s.db
    → paid.exit_tree ≡ some exits
    → is_zero orig ≡ false
    → sender ≡ sub_balance cost (record found { idx = tx.from_idx; nonce = n })
    → pos 0 ≤ℤ sender.balance
    → pos 0 ≤ℤ tx.amount
    → AllNonneg exits
    → Written tx.from_idx sender paid u
    → exit_half tx orig sender u.exit_tree u ≡ (ok e, s')
    → ExitMoved t tx cost exits s s'
exit_moved t tx orig n found sender cost exits s paid u e s' at_from db tree some_amount es hs hx
      nonneg w k =
    go (
      add_exit_ok t tx sender exits u e s' hx nonneg (
        sym (
          ap (λ (m : Action Exit). m u)
            (exit_half-some tx orig sender u.exit_tree exits (w.exit_tree ∙ tree) some_amount))
        ∙ k))
  where
    go :
        (exits' : Accounts) × (s' ≡ record u { exit_tree = some exits' })
          × ExitGrows t tx sender exits exits'
        → ExitMoved t tx cost exits s s'
    go (exits', same, grows) = (
      found,
      sender,
      exits',
      at_from,
      ap (λ (a : Account). a.token_id) es,
      ap (λ (v : State). total t (accounts_of v) +ℤ part t found.token_id cost) same
          ∙ omega (
            int_laws,
            parts (Written-total t tx.from_idx sender found paid u w (rw db at_from) hs),
            parts (
                ap (λ (d : Accounts). total t d)
                  (ap (λ (v : hermez_node.StateDb.StateDb). v.accounts) db)),
            parts (ap (share t) es),
            parts (share-exited t tx.from_idx n found cost),
          ),
      ap (λ (v : State). v.exit_tree) same,
      grows,
    )

-- A successful forced exit of a non-negative amount that was asked for as non-zero, on an exit
-- tree without negative balances, takes the amount out of the sender's account, and adds it to the
-- exit tree, in the token of the leaf that is there for the sender's Idx, or of the sender's
-- account where there is none.
pub apply_exit_l1 :
    (t : ℕ) (c : Dict ℕ) (tx : Tx) (orig : ℤ) (exits : Accounts) (s : State) (e : Exit) (s' : State)
    → tx.is_l1 ≡ true
    → pos 0 ≤ℤ tx.amount
    → is_zero orig ≡ false
    → s.exit_tree ≡ some exits
    → AllNonneg exits
    → apply_exit c tx orig s ≡ (ok e, s')
    → ExitMoved t tx tx.amount exits s s'
apply_exit_l1 t c tx orig exits s e s' l1 hx some_amount tree nonneg h =
    go (apply_exit_steps c tx orig s e s' h)
  where
    go : ExitSteps c tx orig s e s' → ExitMoved t tx tx.amount exits s s'
    go r =
        let (same, es, hs) = debit_l1_ok c tx _ s r.sender r.paid l1 r.debited in
        exit_moved t tx orig r.found.nonce r.found r.sender tx.amount exits s r.paid r.written e s'
          r.at_from (ap (λ (u : State). u.db) same) (ap (λ (u : State). u.exit_tree) same ∙ tree)
          some_amount es hs hx nonneg r.write r.exited

-- A successful L2 exit of a non-negative amount that was asked for as non-zero, on an exit tree
-- without negative balances, takes amount and fee out of the sender's account, and adds the amount
-- to the exit tree, in the token of the leaf that is there for the sender's Idx, or of the
-- sender's account where there is none.
pub apply_exit_l2 :
    (t : ℕ) (c : Dict ℕ) (tx : Tx) (orig : ℤ) (exits : Accounts) (s : State) (e : Exit) (s' : State)
    → tx.is_l1 ≡ false
    → pos 0 ≤ℤ tx.amount
    → is_zero orig ≡ false
    → s.exit_tree ≡ some exits
    → AllNonneg exits
    → apply_exit c tx orig s ≡ (ok e, s')
    → (fee : ℤ) × (calc_fee_amount tx.amount tx.fee ≡ ok fee)
      × ExitMoved t tx (tx.amount +ℤ fee) exits s s'
apply_exit_l2 t c tx orig exits s e s' l2 hx some_amount tree nonneg h =
    go (apply_exit_steps c tx orig s e s' h)
  where
    go :
        ExitSteps c tx orig s e s'
        → (fee : ℤ) × (calc_fee_amount tx.amount tx.fee ≡ ok fee)
          × ExitMoved t tx (tx.amount +ℤ fee) exits s s'
    go r =
        let (fee, ef, _, fees, es, hs) = debit_l2_ok c tx _ s r.sender r.paid l2 r.debited in
        (
          fee,
          ef,
          exit_moved t tx orig ((r.found.nonce + 1) % 2 ^ 64) r.found r.sender (tx.amount +ℤ fee)
              exits s r.paid r.written e s' r.at_from fees.db (fees.exit_tree ∙ tree) some_amount es
              hs hx nonneg r.write r.exited,
        )
