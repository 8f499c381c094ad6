-- ===== src/TxProcessor/Conservation/ExitTree.antt =====
-- The exit tree under an exit (applyExit of v2/txprocessor/txprocessor.go) and the total of a token.
use hermez_node.Prelude.{
  ◌⊎◌, ℕ, ◌≡◌, refl, ◌∙◌, ap, none, some, arith, Bool, true, false, Bool-cases, inl, inr,
}
use hermez_node.Prelude.Int.{ℤ, pos, ◌+ℤ◌, ◌≤ℤ◌, int_laws, parts}
use hermez_node.Prelude.Dict.{lookup, insert}
use hermez_node.Prelude.Result.{Result, Error, ok, err, Result-cases}
use hermez_node.Common.Account.{Account}
use hermez_node.Common.Tx.{Tx}
use hermez_node.StateDb.{Accounts, stored_at, get_in_tree, update_in_tree, create_in_tree}
use hermez_node.StateDb.Writes.{update_in_tree_ok, create_in_tree_ok, get_in_tree_ok}
use hermez_node.TxProcessor.State.{State}
use hermez_node.TxProcessor.Apply.{
  Exit, add_balance, add_exit, put_exit, exit_account, is_not_found,
}
use hermez_node.TxProcessor.Totals.{
  part, share, total, AllNonneg, share-same, share-add, share-stored_at, total-insert-some,
  total-insert-none,
}

-- The exit tree grows by the amount, in the token of the leaf that was there or is made.
abbrev pub ExitGrows : ℕ → Tx → Account → Accounts → Accounts → Type 0
ExitGrows t tx acc exits exits' =
    ((found : Account) × (lookup tx.from_idx exits ≡ some found)
      × (total t exits' ≡ total t exits +ℤ part t found.token_id tx.amount))
    ⊎ ((lookup tx.from_idx exits ≡ none)
        × (total t exits' ≡ total t exits +ℤ part t acc.token_id tx.amount))

share-exit_account :
    (t : ℕ) (tx : Tx) (acc : Account)
    → share t (exit_account tx acc) ≡ part t acc.token_id tx.amount
unfolding share
share-exit_account t tx acc = refl

put_exit_ok :
    (r : Result Accounts) (a : Account) (is_new : Bool) (s : State) (e : Exit) (s' : State)
    → put_exit r a is_new s ≡ (ok e, s')
    → (exits : Accounts) × (r ≡ ok exits)
      × (e ≡ some (a, is_new))
      × (s' ≡ record s { exit_tree = some exits })
put_exit_ok (ok exits) a is_new s e s' h = (exits, refl, ground arith, ground arith)
put_exit_ok (err x) a is_new s e s' h = ground arith

grown_leaf :
    (t i : ℕ) (found : Account) (x : ℤ) (d : Accounts)
    → lookup i d ≡ some found
    → pos 0 ≤ℤ found.balance
    → pos 0 ≤ℤ x
    → total t (insert i (stored_at i (add_balance x (record found { idx = i }))) d)
      ≡ total t d +ℤ part t found.token_id x
grown_leaf t i found x d e hb hx = omega (
  int_laws,
  parts (total-insert-some t i (stored_at i (add_balance x (record found { idx = i }))) found d e),
  parts (share-stored_at t i (add_balance x (record found { idx = i })) (omega int_laws)),
  parts (share-add t (record found { idx = i }) x),
  parts (share-same t found (record found { idx = i }) refl refl),
)

new_leaf :
    (t i : ℕ) (tx : Tx) (acc : Account) (d : Accounts)
    → lookup i d ≡ none
    → pos 0 ≤ℤ tx.amount
    → total t (insert i (stored_at i (exit_account tx acc)) d)
      ≡ total t d +ℤ part t acc.token_id tx.amount
new_leaf t i tx acc d e hx =
    total-insert-none t i (stored_at i (exit_account tx acc)) d e
    ∙ ap (λ (x : ℤ). total t d +ℤ x)
        (share-stored_at t i (exit_account tx acc) hx ∙ share-exit_account t tx acc)

-- What adding an exit does: only the exit tree changes, and it grows.
pub add_exit_ok :
    (t : ℕ) (tx : Tx) (acc : Account) (exits : Accounts) (s : State) (e : Exit) (s' : State)
    → pos 0 ≤ℤ tx.amount
    → AllNonneg exits
    → add_exit tx acc exits s ≡ (ok e, s')
    → (exits' : Accounts) × (s' ≡ record s { exit_tree = some exits' })
      × ExitGrows t tx acc exits exits'
add_exit_ok t tx acc exits s e s' hx nonneg h =
    by_leaf (Result-cases (get_in_tree tx.from_idx exits))
  where
    Grown : Type 0
    Grown =
        (exits' : Accounts) × (s' ≡ record s { exit_tree = some exits' })
        × ExitGrows t tx acc exits exits'

    updated :
        (found : Account)
        → lookup tx.from_idx exits ≡ some found
        → put_exit
            (update_in_tree s.db.accepts_bjj tx.from_idx
              (add_balance tx.amount (record found { idx = tx.from_idx }))
              exits)
            (add_balance tx.amount (record found { idx = tx.from_idx }))
            false
            s
          ≡ (ok e, s')
        → Grown
    updated found at_from k =
        let (d, r, _, same) = put_exit_ok _ _ false s e s' k in
        (
          d,
          same,
          inl (
            found,
            at_from,
            ap (total t) (update_in_tree_ok s.db.accepts_bjj tx.from_idx _ exits d r)
                ∙ grown_leaf t tx.from_idx found tx.amount exits at_from
                    (nonneg tx.from_idx found at_from) hx,
          ),
        )

    created :
        put_exit
            (create_in_tree s.db.accepts_bjj tx.from_idx (exit_account tx acc) exits)
            (exit_account tx acc)
            true
            s
          ≡ (ok e, s')
        → Grown
    created k =
        let (d, r, _, same) = put_exit_ok _ _ true s e s' k in
        let (missing, made) = create_in_tree_ok s.db.accepts_bjj tx.from_idx _ exits d r in
        (d, same, inr (missing, ap (total t) made ∙ new_leaf t tx.from_idx tx acc exits missing hx))

    by_leaf :
        ((a : Account) × (get_in_tree tx.from_idx exits ≡ ok a))
          ⊎ ((x : Error) × (get_in_tree tx.from_idx exits ≡ err x))
        → Grown
    by_leaf (inl (a, q)) =
        let (found, at_from, er) = get_in_tree_ok tx.from_idx exits a q in
        updated found at_from (rw (add_exit, q, er) at h)
    by_leaf (inr (x, q)) = elim (Bool-cases (is_not_found x)) [
      | inl absent ↦ created (rw (add_exit, q, absent) at h)
      | inr other ↦ ground arith
    ]
