-- ===== src/TxProcessor/Totals.antt =====
-- The sum of a token's balances over a tree, under the writes of an account.
pub mod Transfers
pub mod Apply
use hermez_node.Prelude.{
  ℕ, ◌≡◌, refl, Option, none, some, List, [], ◌∷◌, arith, ◌==◌, ltb, if◌then◌else◌, Bool,
  Bool-cases, inl, inr,
}
use mathlib.Core.Option.{some-injective}
use hermez_node.Prelude.Int.{ℤ, pos, negsuc, ◌+ℤ◌, ◌-ℤ◌, ◌≤ℤ◌, int_laws, parts}
use hermez_node.Prelude.Dict.{Dict, lookup, insert}
use hermez_node.Common.Account.{Account}
use hermez_node.StateDb.{Accounts, stored_at}

-- `x` if it is of token `t`
unfoldable pub part : ℕ → ℕ → ℤ → ℤ
part t token x = if token == t then x else pos 0

unfoldable pub share : ℕ → Account → ℤ
unfolding part
share t a = part t a.token_id a.balance

-- The sum of the balances in token `t`.
unfoldable pub total : ℕ → Accounts → ℤ
total t [] = pos 0
total t ((_, a) ∷ d) = share t a +ℤ total t d

pub total-insert-some :
    (t k : ℕ) (v old : Account) (d : Accounts)
    → lookup k d ≡ some old
    → total t (insert k v d) +ℤ share t old ≡ total t d +ℤ share t v
unfolding total lookup insert
total-insert-some t k v old [] e = ground arith
total-insert-some t k v old ((j, w) ∷ d) e = elim (Bool-cases (j == k)) [
  | inl same ↦
      let found : w ≡ old = some-injective w old (rw same at e) in rw (same, found) (omega int_laws)
  | inr other ↦ rw other (omega (int_laws, parts (total-insert-some t k v old d (rw other at e))))
]

pub total-insert-none :
    (t k : ℕ) (v : Account) (d : Accounts)
    → lookup k d ≡ none
    → total t (insert k v d) ≡ total t d +ℤ share t v
unfolding total lookup insert
total-insert-none t k v [] e = omega int_laws
total-insert-none t k v ((j, w) ∷ d) e = elim (Bool-cases (j == k)) [
  | inl same ↦ ground arith
  | inr other ↦ rw other (omega (int_laws, parts (total-insert-none t k v d (rw other at e))))
]

-- The share of an account after a change of its balance.
pub share-add :
    (t : ℕ) (a : Account) (x : ℤ)
    → share t (record a { balance = a.balance +ℤ x }) ≡ share t a +ℤ part t a.token_id x
unfolding share part
share-add t a x = grind int_laws

pub share-sub :
    (t : ℕ) (a : Account) (x : ℤ)
    → share t (record a { balance = a.balance -ℤ x }) +ℤ part t a.token_id x ≡ share t a
unfolding share part
share-sub t a x = grind int_laws

-- The share depends on token and balance alone.
pub share-same :
    (t : ℕ) (a b : Account)
    → a.token_id ≡ b.token_id
    → a.balance ≡ b.balance
    → share t a ≡ share t b
unfolding share part
share-same t a b p q = rw (p, q)

-- No balance in the tree is negative.
abbrev pub AllNonneg : Accounts → Type 0
AllNonneg d = (i : ℕ) (a : Account) → lookup i d ≡ some a → pos 0 ≤ℤ a.balance

-- What is stored of a non-negative balance is that balance.
pub share-stored_at :
    (t i : ℕ) (a : Account) → pos 0 ≤ℤ a.balance → share t (stored_at i a) ≡ share t a
unfolding share part
share-stored_at t i a h = ground arith
