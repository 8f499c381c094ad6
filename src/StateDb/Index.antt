-- ===== src/StateDb/Index.antt =====
-- The index of the StateDB by address and key (v2/db/statedb/utils.go): which Idx they stand for.
use hermez_node.Prelude.{
  ℕ, ◌≡◌, ◌≢◌, ◌≤◌, ◌&&◌, ◌==◌, inl, inr, leb, if◌then◌else◌, Option, none, some, arith,
  Option-cases, Bool-cases,
}
use hermez_node.Prelude.Result.{ok}
use hermez_node.Common.Ids.{max_idx_value, idx_bytes}
use hermez_node.Common.PoolL2Tx.{empty_addr, empty_bjj_comp}
use hermez_node.StateDb.{StateDb, get_idx_by_eth_addr_bjj, set_idx_by_eth_addr_bjj, put_idx}

-- What an entry of the index of (address, key, token) becomes when an account is registered: the
-- smaller of the two Idx, where a missing entry counts as the larger.
abbrev pub smaller : Option ℕ → ℕ → Option ℕ
smaller none i = some i
smaller (some old) i = if leb old i then some old else some i

-- The index by (address, key, token) after `i` is registered under one of them.
abbrev pub registered : ℕ → ℕ → ℕ → ℕ → StateDb → ℕ → ℕ → ℕ → Option ℕ
registered i addr pk token db a k t =
    if a == addr && k == pk && t == token
    then smaller (db.addr_bjj addr pk token) i
    else db.addr_bjj a k t

module _ (i addr pk token : ℕ) (db : StateDb) (ha : addr ≢ empty_addr) (hk : pk ≢ empty_bjj_comp)
    (small : i ≤ max_idx_value) where
  set_idx_none :
      db.addr_bjj addr pk token ≡ none
      → (db' : StateDb) × (set_idx_by_eth_addr_bjj i addr pk token db ≡ ok db')
        × ((a k t : ℕ) → db'.addr_bjj a k t ≡ registered i addr pk token db a k t)
  unfolding set_idx_by_eth_addr_bjj get_idx_by_eth_addr_bjj idx_bytes
  set_idx_none e = (put_idx i addr pk token db, ground arith, λ a k t. ground arith)

  set_idx_some :
      (old : ℕ)
      → db.addr_bjj addr pk token ≡ some old
      → (db' : StateDb) × (set_idx_by_eth_addr_bjj i addr pk token db ≡ ok db')
        × ((a k t : ℕ) → db'.addr_bjj a k t ≡ registered i addr pk token db a k t)
  unfolding set_idx_by_eth_addr_bjj get_idx_by_eth_addr_bjj idx_bytes
  set_idx_some old e = elim (Bool-cases (leb old i)) [
    | inl le ↦ (db, ground arith, λ a k t. ground arith)
    | inr gt ↦ (put_idx i addr pk token db, ground arith, λ a k t. ground arith)
  ]

-- Registering an Idx below 2^48 with a non-empty address and a non-empty key succeeds, and leaves
-- under its (address, key, token) the smaller of that Idx and the entry that was there, if there was
-- one; every other entry of that index stays.
pub set_idx_smallest :
    (i addr pk token : ℕ) (db : StateDb)
    → addr ≢ empty_addr
    → pk ≢ empty_bjj_comp
    → i ≤ max_idx_value
    → (db' : StateDb) × (set_idx_by_eth_addr_bjj i addr pk token db ≡ ok db')
      × ((a k t : ℕ) → db'.addr_bjj a k t ≡ registered i addr pk token db a k t)
set_idx_smallest i addr pk token db ha hk small = elim (Option-cases (db.addr_bjj addr pk token)) [
  | inl missing ↦ set_idx_none i addr pk token db ha hk small missing
  | inr (old, e) ↦ set_idx_some i addr pk token db ha hk small old e
]
