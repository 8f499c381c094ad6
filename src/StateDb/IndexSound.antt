-- ===== src/StateDb/IndexSound.antt =====
-- The accounts that the entries of the two indices of the StateDB (v2/db/statedb/utils.go) name.
use hermez_node.Prelude.{
  ℕ, ◌≡◌, ◌≤◌, refl, sym, ap, ◌∙◌, ◌⊎◌, inl, inr, Bool, true, false, ◌==◌, if◌then◌else◌, none,
  some, arith, ==_iff,
}
use mathlib.Core.Option.{none-ne-some}
use hermez_node.Prelude.Dict.{lookup, insert, lookup-insert}
use hermez_node.Prelude.Result.{ok}
use hermez_node.Common.Ids.{max_idx_value, idx_bytes}
use hermez_node.Common.Account.{Account}
use hermez_node.StateDb.{StateDb, set_idx_by_eth_addr_bjj, create_account, stored_at}
use hermez_node.StateDb.Writes.{create_account_ok, set_idx_keeps}

-- The account at an Idx has the address and the token, and the key.
abbrev pub Registered : StateDb → ℕ → ℕ → ℕ → ℕ → Type 0
Registered db i addr pk token =
    (a : Account) × (lookup i db.accounts ≡ some a)
    × (a.eth_addr ≡ addr)
    × (a.bjj ≡ pk)
    × (a.token_id ≡ token)

-- Every entry of the two indices names an account of its address and token, and of its key.
pub record IndexSound (db : StateDb) : Type 0 where
  pub by_key :
      (addr pk token i : ℕ) → db.addr_bjj addr pk token ≡ some i → Registered db i addr pk token
  pub by_addr :
      (addr token i : ℕ) → db.addr addr token ≡ some i → (pk : ℕ) × Registered db i addr pk token

-- The entry that a registration may leave in an index: the old one, or its own.
abbrev Entry : StateDb → ℕ → ℕ → ℕ → ℕ → ℕ → ℕ → ℕ → ℕ → Type 0
Entry db i addr pk token a k t j =
    (db.addr_bjj a k t ≡ some j) ⊎ ((a ≡ addr) × (k ≡ pk) × (t ≡ token) × (j ≡ i))

set_idx_by_key :
    (i addr pk token : ℕ) (db db' : StateDb) (a k t j : ℕ)
    → set_idx_by_eth_addr_bjj i addr pk token db ≡ ok db'
    → db'.addr_bjj a k t ≡ some j
    → Entry db i addr pk token a k t j
unfolding set_idx_by_eth_addr_bjj idx_bytes
set_idx_by_key i addr pk token db db' a k t j e h = ground arith

set_idx_by_addr :
    (i addr pk token : ℕ) (db db' : StateDb) (a t j : ℕ)
    → set_idx_by_eth_addr_bjj i addr pk token db ≡ ok db'
    → db'.addr a t ≡ some j
    → (db.addr a t ≡ some j) ⊎ ((a ≡ addr) × (t ≡ token) × (j ≡ i))
unfolding set_idx_by_eth_addr_bjj idx_bytes
set_idx_by_addr i addr pk token db db' a t j e h = ground arith

insert_absent :
    (i j : ℕ) (a b : Account) (db : StateDb)
    → lookup i db.accounts ≡ none
    → lookup j db.accounts ≡ some b
    → lookup j (insert i a db.accounts) ≡ some b
insert_absent i j a b db absent e = lookup-insert i j a db.accounts ∙ other (i == j) refl
  where
    other :
        (same : Bool) → (i == j) ≡ same → (if same then some a else lookup j db.accounts) ≡ some b
    other true q =
        absurd (
          none-ne-some b (sym absent ∙ ap (λ (n : ℕ). lookup n db.accounts) ((==_iff i j).0 q) ∙ e))
    other false q = e

-- A registered account stays so when another Idx gets an account.
Registered-insert :
    (i j addr pk token : ℕ) (a : Account) (db db' : StateDb)
    → lookup i db.accounts ≡ none
    → db'.accounts ≡ insert i a db.accounts
    → Registered db j addr pk token
    → Registered db' j addr pk token
Registered-insert i j addr pk token a db db' absent grown (b, e, same_addr, same_key, same_token) =
    (b, ap (lookup j) grown ∙ insert_absent i j a b db absent e, same_addr, same_key, same_token)

-- The new account itself.
Registered-self :
    (i : ℕ) (a : Account) (db db' : StateDb)
    → db'.accounts ≡ insert i (stored_at i a) db.accounts
    → Registered db' i a.eth_addr a.bjj a.token_id
Registered-self i a db db' grown = (
  stored_at i a,
  ap (lookup i) grown ∙ lookup-insert i i (stored_at i a) db.accounts ∙ ground arith,
  refl,
  refl,
  refl,
)

-- Where every entry of the two indices names an account of its address and token, and of its key,
-- a successful CreateAccount keeps that so.
pub create_account-IndexSound :
    (i : ℕ) (a : Account) (db db' : StateDb)
    → IndexSound db
    → create_account i a db ≡ ok db'
    → IndexSound db'
create_account-IndexSound i a db db' sound h = go (create_account_ok i a db db' h)
  where
    grown_db : StateDb
    grown_db = record db { accounts = insert i (stored_at i a) db.accounts }

    go :
        (i ≤ max_idx_value)
          × (lookup i db.accounts ≡ none)
          × (set_idx_by_eth_addr_bjj i a.eth_addr a.bjj a.token_id grown_db ≡ ok db')
        → IndexSound db'
    go (small, absent, e) = record {
      by_key = λ addr pk token j q.
          key_entry addr pk token j
            (set_idx_by_key i a.eth_addr a.bjj a.token_id grown_db db' addr pk token j e q);
      by_addr = λ addr token j q.
          addr_entry addr token j
            (set_idx_by_addr i a.eth_addr a.bjj a.token_id grown_db db' addr token j e q);
    }
      where
        grown : db'.accounts ≡ insert i (stored_at i a) db.accounts
        grown = (set_idx_keeps i a.eth_addr a.bjj a.token_id grown_db db' e).0

        key_entry :
            (addr pk token j : ℕ)
            → Entry grown_db i a.eth_addr a.bjj a.token_id addr pk token j
            → Registered db' j addr pk token
        key_entry addr pk token j (inl old) =
            Registered-insert i j addr pk token (stored_at i a) db db' absent grown
              (sound.by_key addr pk token j old)
        key_entry addr pk token j (inr (ea, ek, et, ej)) =
            rw (ea, ek, et, ej) (Registered-self i a db db' grown)

        addr_entry :
            (addr token j : ℕ)
            → (grown_db.addr addr token ≡ some j)
              ⊎ ((addr ≡ a.eth_addr) × (token ≡ a.token_id) × (j ≡ i))
            → (pk : ℕ) × Registered db' j addr pk token
        addr_entry addr token j (inl old) =
            let (pk, r) = sound.by_addr addr token j old in
            (pk, Registered-insert i j addr pk token (stored_at i a) db db' absent grown r)
        addr_entry addr token j (inr (ea, et, ej)) =
            (a.bjj, rw (ea, et, ej) (Registered-self i a db db' grown))
