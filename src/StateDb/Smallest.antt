-- ===== src/StateDb/Smallest.antt =====
-- Which of several accounts of one address and key GetIdxByEthAddrBJJ finds
-- (v2/db/statedb/utils.go), while CreateAccount (v2/db/statedb/statedb.go) adds accounts.
use hermez_node.Prelude.{
  ℕ, ◌≡◌, ◌≢◌, ◌≤◌, refl, sym, ap, ◌∙◌, inl, inr, ◌==◌, ◌&&◌, leb, if◌then◌else◌, Bool, true, false,
  Option, none, some, arith, Option-cases, Bool-cases, ==_iff,
}
use hermez_node.Prelude.Dict.{lookup, insert, lookup-insert}
use hermez_node.Prelude.Result.{ok}
use hermez_node.Common.Ids.{max_idx_value, idx_bytes}
use hermez_node.Common.Account.{Account}
use hermez_node.Common.PoolL2Tx.{empty_addr, empty_bjj_comp}
use hermez_node.StateDb.{
  StateDb, get_idx_by_eth_addr_bjj, set_idx_by_eth_addr_bjj, create_account, stored_at,
}
use hermez_node.StateDb.Writes.{create_account_ok, set_idx_keeps}
use hermez_node.StateDb.Index.{registered, set_idx_smallest}

-- For a non-empty address and a non-empty key, GetIdxByEthAddrBJJ finds an Idx that is not above that
-- of any account of that address, key and token.
pub record FindsSmallest (db : StateDb) : Type 0 where
  pub at_most :
      (addr pk token j : ℕ) (b : Account)
      → addr ≢ empty_addr
      → pk ≢ empty_bjj_comp
      → lookup j db.accounts ≡ some b
      → (b.eth_addr ≡ addr) × (b.bjj ≡ pk) × (b.token_id ≡ token)
      → (i : ℕ) × (get_idx_by_eth_addr_bjj addr pk token db ≡ ok i) × (i ≤ j)

-- There is an entry, and it is not above `j`.
abbrev UpTo : ℕ → Option ℕ → Type 0
UpTo j o = (i : ℕ) × (o ≡ some i) × (i ≤ j)

module _ (addr pk token : ℕ) (ha : addr ≢ empty_addr) (hk : pk ≢ empty_bjj_comp) where
  entry_of :
      (db : StateDb) (i : ℕ)
      → get_idx_by_eth_addr_bjj addr pk token db ≡ ok i
      → db.addr_bjj addr pk token ≡ some i
  unfolding get_idx_by_eth_addr_bjj
  entry_of db i h = ground arith

  found_at :
      (db : StateDb) (j : ℕ)
      → UpTo j (db.addr_bjj addr pk token)
      → (i : ℕ) × (get_idx_by_eth_addr_bjj addr pk token db ≡ ok i) × (i ≤ j)
  unfolding get_idx_by_eth_addr_bjj
  found_at db j (i, e, le) = (i, ground arith, le)

  set_idx_other :
      (i a k t : ℕ) (db db' : StateDb)
      → set_idx_by_eth_addr_bjj i a k t db ≡ ok db'
      → (addr == a && pk == k && token == t) ≡ false
      → db'.addr_bjj addr pk token ≡ db.addr_bjj addr pk token
  unfolding set_idx_by_eth_addr_bjj idx_bytes
  set_idx_other i a k t db db' h other = ground arith

  -- A registration under any address and key, the empty ones too.
  set_idx_registered :
      (i a k t : ℕ) (db db' : StateDb)
      → i ≤ max_idx_value
      → set_idx_by_eth_addr_bjj i a k t db ≡ ok db'
      → db'.addr_bjj addr pk token ≡ registered i a k t db addr pk token
  set_idx_registered i a k t db db' small h =
      elim (Bool-cases (addr == a && pk == k && token == t)) [
        | inr other ↦ rw other (set_idx_other i a k t db db' h other)
        | inl same ↦
            let ea : a ≡ addr = ground arith in
            let ek : k ≡ pk = ground arith in
            let (m, e, at) = set_idx_smallest i a k t db (rw ea ha) (rw ek hk) small in
            let q : db' ≡ m = cc in
            ap (λ (d : StateDb). d.addr_bjj addr pk token) q ∙ at addr pk token
      ]

  -- An entry that is small enough stays so.
  still_UpTo :
      (i a k t j : ℕ) (db : StateDb)
      → UpTo j (db.addr_bjj addr pk token)
      → UpTo j (registered i a k t db addr pk token)
  still_UpTo i a k t j db (x, e, le) = elim (Bool-cases (addr == a && pk == k && token == t)) [
    | inr other ↦ rw other (x, e, le)
    | inl same ↦
        let ea : a ≡ addr = ground arith in
        let ek : k ≡ pk = ground arith in
        let et : t ≡ token = ground arith in
        rw (same, ea, ek, et, e)
          (elim (Bool-cases (leb x i)) [
            | inl below ↦ rw below (x, refl, le)
            | inr above ↦ rw above (i, refl, ground arith)
          ])
  ]

  -- The entry of the account that is registered.
  own_UpTo : (i : ℕ) (db : StateDb) → UpTo i (registered i addr pk token db addr pk token)
  own_UpTo i db = elim (Option-cases (db.addr_bjj addr pk token)) [
    | inl missing ↦ (i, ground arith, omega arith)
    | inr (old, e) ↦ elim (Bool-cases (leb old i)) [
      | inl below ↦ (old, ground arith, ground arith)
      | inr above ↦ (i, ground arith, omega arith)
    ]
  ]

-- CreateAccount keeps it so that, for a non-empty address and a non-empty key, GetIdxByEthAddrBJJ
-- finds an Idx that is not above that of any account of that address, key and token.
pub create_account-FindsSmallest :
    (i : ℕ) (a : Account) (db db' : StateDb)
    → FindsSmallest db
    → create_account i a db ≡ ok db'
    → FindsSmallest db'
create_account-FindsSmallest i a db db' finds h = go (create_account_ok i a db db' h)
  where
    grown_db : StateDb
    grown_db = record db { accounts = insert i (stored_at i a) db.accounts }

    go :
        (i ≤ max_idx_value)
          × (lookup i db.accounts ≡ none)
          × (set_idx_by_eth_addr_bjj i a.eth_addr a.bjj a.token_id grown_db ≡ ok db')
        → FindsSmallest db'
    go (small, absent, e) = record {
      at_most = λ addr pk token j b ha hk there same. found_at addr pk token ha hk db' j (
          rw
            (set_idx_registered addr pk token ha hk i a.eth_addr a.bjj a.token_id grown_db db' small
              e)
            (entry addr pk token j b ha hk same (i == j) refl (
              sym (lookup-insert i j (stored_at i a) db.accounts)
              ∙ sym (ap (lookup j) (set_idx_keeps i a.eth_addr a.bjj a.token_id grown_db db' e).0)
              ∙ there)));
    }
      where
        entry :
            (addr pk token j : ℕ) (b : Account)
            → addr ≢ empty_addr
            → pk ≢ empty_bjj_comp
            → (b.eth_addr ≡ addr) × (b.bjj ≡ pk) × (b.token_id ≡ token)
            → (c : Bool) → (i == j) ≡ c
            → (if c then some (stored_at i a) else lookup j db.accounts) ≡ some b
            → UpTo j (registered i a.eth_addr a.bjj a.token_id grown_db addr pk token)
        entry addr pk token j b ha hk (ea, ek, et) true q z =
            let ij : i ≡ j = (==_iff i j).0 q in
            let xa : a.eth_addr ≡ addr = ground arith in
            let xk : a.bjj ≡ pk = ground arith in
            let xt : a.token_id ≡ token = ground arith in
            rw (ij, xa, xk, xt) (own_UpTo addr pk token ha hk j grown_db)
        entry addr pk token j b ha hk same false q z =
            let (x, found, le) = finds.at_most addr pk token j b ha hk z same in
            still_UpTo addr pk token ha hk i a.eth_addr a.bjj a.token_id j grown_db
              (x, entry_of addr pk token ha hk db x found, le)
