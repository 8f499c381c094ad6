-- ===== src/TxProcessor/Conservation/Fees.antt =====
-- The distribution of the accumulated fees at the end of ProcessTxs (v2/txprocessor/txprocessor.go).
use hermez_node.Prelude.{
  ℕ, ◌≡◌, refl, sym, ◌∙◌, ap, Option, none, some, ◌==◌, ==_iff, if◌then◌else◌, Bool, true, false,
  List, [], ◌∷◌,
}
use hermez_node.Prelude.Int.{ℤ, pos, ◌+ℤ◌, ◌≤ℤ◌, int_laws, parts}
use hermez_node.Prelude.Dict.{Dict, lookup, insert, lookup-insert}
use hermez_node.Prelude.Result.{Result, ok}
use hermez_node.Common.Account.{Account}
use hermez_node.StateDb.{Accounts}
use hermez_node.TxProcessor.State.{State}
use hermez_node.TxProcessor.Monad.{Action, ◌>>◌}
use hermez_node.TxProcessor.Apply.{get, update, add_balance, amount_at}
use hermez_node.TxProcessor.Batch.{distribute_fees}
use hermez_node.TxProcessor.Steps.{bind_ok, get_ok, Written, update_ok}
use hermez_node.TxProcessor.Totals.{part, total, AllNonneg, share-add, share-same}
use hermez_node.TxProcessor.Totals.Transfers.{accounts_of, Written-total}
use hermez_node.TxProcessor.Totals.Apply.{Written-AllNonneg}

-- `x` if the account found is of token `t`
abbrev pub found_part : ℕ → Option Account → ℤ → ℤ
found_part t none x = pos 0
found_part t (some a) x = part t a.token_id x

-- The fees in token `t` that are due to a list of coordinator accounts.
abbrev pub fees_due : ℕ → Dict ℤ → Accounts → List ℕ → ℤ
fees_due t fees accounts [] = pos 0
fees_due t fees accounts (i ∷ is) =
    found_part t (lookup i accounts) (amount_at i fees) +ℤ fees_due t fees accounts is

-- No accumulated fee is negative.
abbrev pub FeesNonneg : Dict ℤ → Type 0
FeesNonneg fees = (i : ℕ) → pos 0 ≤ℤ amount_at i fees

-- A write that keeps the token of the account keeps what is due.
found_part-insert :
    (t i j : ℕ) (a old : Account) (x : ℤ) (d : Accounts)
    → lookup i d ≡ some old
    → a.token_id ≡ old.token_id
    → found_part t (lookup j (insert i a d)) x ≡ found_part t (lookup j d) x
found_part-insert t i j a old x d e tokens =
    ap (λ (o : Option Account). found_part t o x) (lookup-insert i j a d) ∙ other (i == j) refl
  where
    other :
        (same : Bool)
        → (i == j) ≡ same
        → found_part t (if same then some a else lookup j d) x ≡ found_part t (lookup j d) x
    other true q =
        ap (λ (n : ℕ). part t n x) tokens
        ∙ ap (λ (o : Option Account). found_part t o x)
            (sym e ∙ ap (λ (n : ℕ). lookup n d) ((==_iff i j).0 q))
    other false q = refl

fees_due-insert :
    (t i : ℕ) (a old : Account) (fees : Dict ℤ) (d : Accounts) (is : List ℕ)
    → lookup i d ≡ some old
    → a.token_id ≡ old.token_id
    → fees_due t fees (insert i a d) is ≡ fees_due t fees d is
fees_due-insert t i a old fees d [] e tokens = refl
fees_due-insert t i a old fees d (j ∷ is) e tokens =
    ap (λ (x : ℤ). x +ℤ fees_due t fees (insert i a d) is)
      (found_part-insert t i j a old (amount_at j fees) d e tokens)
    ∙ ap (λ (x : ℤ). found_part t (lookup j d) (amount_at j fees) +ℤ x)
        (fees_due-insert t i a old fees d is e tokens)

-- What one step of the loop has done.
record Paid (i : ℕ) (s u : State) : Type 0 where
  found : Account
  at : lookup i (accounts_of s) ≡ some found
  write : Written i (add_balance (amount_at i s.accumulated_fees) (record found { idx = i })) s u

Paid-total :
    (t i : ℕ) (s u : State) (p : Paid i s u)
    → AllNonneg (accounts_of s)
    → FeesNonneg s.accumulated_fees
    → total t (accounts_of u)
      ≡ total t (accounts_of s) +ℤ part t p.found.token_id (amount_at i s.accumulated_fees)
Paid-total t i s u p nonneg fees = omega (
  int_laws,
  parts (
      Written-total t i
        (add_balance (amount_at i s.accumulated_fees) (record (p.found) { idx = i })) p.found s u
        p.write p.at (balance_covers _ _ (nonneg i p.found p.at) (fees i))),
  parts (share-add t (record (p.found) { idx = i }) (amount_at i s.accumulated_fees)),
  parts (share-same t p.found (record (p.found) { idx = i }) refl refl),
)
  where
    balance_covers : (a b : ℤ) → pos 0 ≤ℤ a → pos 0 ≤ℤ b → pos 0 ≤ℤ a +ℤ b
    balance_covers a b h k = omega int_laws

-- When the fees have been distributed, with no balance and no accumulated fee negative, the total
-- of every token has grown by just the fees in that token that were due to the coordinator's
-- accounts.
pub distribute_fees-total :
    (t : ℕ) (is : List ℕ) (s s' : State)
    → AllNonneg (accounts_of s)
    → FeesNonneg s.accumulated_fees
    → distribute_fees is s ≡ (ok tt, s')
    → total t (accounts_of s')
      ≡ total t (accounts_of s) +ℤ fees_due t s.accumulated_fees (accounts_of s) is
unfolding distribute_fees
distribute_fees-total t [] s s' nonneg fees h =
    ap (λ (v : State). total t (accounts_of v))
      (sym (ap (λ (r : Result (Unit {0}) × State). r.1) h))
    ∙ omega int_laws
distribute_fees-total t (i ∷ is) s s' nonneg fees h =
    first (λ u. distribute_fees-total t is u s') (bind_ok (get i) after_get s h)
  where
    after_get : Account → Action (Unit {0})
    after_get coord =
        update i (add_balance (amount_at i s.accumulated_fees) coord) >> distribute_fees is

    Grown : Type 0
    Grown =
        total t (accounts_of s')
        ≡ total t (accounts_of s) +ℤ fees_due t s.accumulated_fees (accounts_of s) (i ∷ is)

    Rest : Type 0
    Rest =
        (u : State)
        → AllNonneg (accounts_of u)
        → FeesNonneg u.accumulated_fees
        → distribute_fees is u ≡ (ok tt, s')
        → total t (accounts_of s')
          ≡ total t (accounts_of u) +ℤ fees_due t u.accumulated_fees (accounts_of u) is

    third : Rest → (u : State) → Paid i s u → distribute_fees is u ≡ (ok tt, s') → Grown
    third rest u p k = omega (
      int_laws,
      parts (
          rest u (Written-AllNonneg i _ s u p.write nonneg) (rw (p.write.accumulated_fees) fees) k),
      parts (Paid-total t i s u p nonneg fees),
      parts (ap (λ (f : Dict ℤ). fees_due t f (accounts_of u) is) p.write.accumulated_fees),
      parts (ap (λ (d : Accounts). fees_due t s.accumulated_fees d is) p.write.accounts),
      parts (fees_due-insert t i _ p.found s.accumulated_fees (accounts_of s) is p.at refl),
      parts (ap (λ (o : Option Account). found_part t o (amount_at i s.accumulated_fees)) p.at),
    )

    second :
        Rest
        → (found : Account) → lookup i (accounts_of s) ≡ some found
        → (a : Unit {0}) × (u : State) × (update i
              (add_balance (amount_at i s.accumulated_fees) (record found { idx = i }))
              s
            ≡ (ok a, u))
          × (distribute_fees is u ≡ (ok tt, s'))
        → Grown
    second rest found e (a, u, w, k) =
        third rest u (record { found = found; at = e; write = update_ok i _ s u w }) k

    first :
        Rest
        → (a : Account) × (u : State) × (get i s ≡ (ok a, u)) × (after_get a u ≡ (ok tt, s'))
        → Grown
    first rest (a, u, g, k) =
        let (same, found, e, er) = get_ok i s a u g in
        second rest found e (
          bind_ok
            (update i (add_balance (amount_at i s.accumulated_fees) (record found { idx = i })))
            (λ _. distribute_fees is) s (rw (same, er) at k))
