-- ===== src/StateDb/Writes.antt =====
-- What a successful operation of the StateDB (v2/db/statedb/statedb.go) has done.
use hermez_node.Prelude.{ℕ, Bool, ◌≤◌, ◌≡◌, none, some, arith, Option-cases, inl, inr}
use hermez_node.Prelude.Dict.{lookup, insert}
use hermez_node.Prelude.Result.{ok}
use hermez_node.Common.Ids.{max_idx_value, idx_bytes}
use hermez_node.Common.Account.{Account}
use hermez_node.StateDb.{
  StateDb, Accounts, stored_at, update_account, create_account, update_in_tree, create_in_tree,
  get_in_tree, set_idx_by_eth_addr_bjj,
}

pub update_account_ok :
    (i : ℕ) (a : Account) (db db' : StateDb)
    → update_account i a db ≡ ok db'
    → db' ≡ record db { accounts = insert i (stored_at i a) db.accounts }
unfolding update_account update_in_tree
update_account_ok i a db db' h = ground arith

pub set_idx_keeps :
    (i addr pk token : ℕ) (db db' : StateDb)
    → set_idx_by_eth_addr_bjj i addr pk token db ≡ ok db'
    → (db'.accounts ≡ db.accounts) × (db'.current_idx ≡ db.current_idx)
unfolding set_idx_by_eth_addr_bjj idx_bytes
set_idx_keeps i addr pk token db db' h = ground arith

pub create_account_ok :
    (i : ℕ) (a : Account) (db db' : StateDb)
    → create_account i a db ≡ ok db'
    → (i ≤ max_idx_value)
      × (lookup i db.accounts ≡ none)
      × (set_idx_by_eth_addr_bjj i a.eth_addr a.bjj a.token_id
            (record db { accounts = insert i (stored_at i a) db.accounts })
          ≡ ok db')
unfolding create_account create_in_tree
create_account_ok i a db db' h = elim (Option-cases (lookup i db.accounts)) [
  | inl missing ↦ (ground arith, missing, ground arith)
  | inr (found, e) ↦ ground arith
]

pub update_in_tree_ok :
    (accepts : ℕ → Bool) (i : ℕ) (a : Account) (d d' : Accounts)
    → update_in_tree accepts i a d ≡ ok d'
    → d' ≡ insert i (stored_at i a) d
unfolding update_in_tree
update_in_tree_ok accepts i a d d' h = ground arith

pub create_in_tree_ok :
    (accepts : ℕ → Bool) (i : ℕ) (a : Account) (d d' : Accounts)
    → create_in_tree accepts i a d ≡ ok d'
    → (lookup i d ≡ none) × (d' ≡ insert i (stored_at i a) d)
unfolding create_in_tree
create_in_tree_ok accepts i a d d' h = elim (Option-cases (lookup i d)) [
  | inl missing ↦ (missing, ground arith)
  | inr (found, e) ↦ ground arith
]

pub get_in_tree_ok :
    (i : ℕ) (d : Accounts) (a : Account)
    → get_in_tree i d ≡ ok a
    → (found : Account) × (lookup i d ≡ some found) × (a ≡ record found { idx = i })
unfolding get_in_tree
get_in_tree_ok i d a h = elim (Option-cases (lookup i d)) [
  | inl missing ↦ ground arith
  | inr (found, e) ↦ (found, e, ground arith)
]
