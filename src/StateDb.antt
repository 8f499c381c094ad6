-- ===== src/StateDb.antt =====
-- v2/db/statedb/statedb.go and utils.go: the account store under its two indices. The key-value
-- store and the Merkle tree (which the repository does not implement) enter as maps: an account is
-- found under its Idx, an Idx under (address, key, token) and under (address, token). Account hashes
-- are taken to be collision free, so the hop over the hash of a leaf is left out; what is stored is
-- what AccountFromBytes reads back (Common.Account.RoundTrip). `accepts_bjj` says which keys
-- poseidon.Hash takes, that is, whose Y coordinate lies in the field.
pub mod Writes
pub mod Index
pub mod Smallest
pub mod IndexSound
mod Tests
use hermez_node.Prelude.{
  ℕ, ◌+◌, Bool, true, false, not, ltb, leb, ◌==◌, ◌&&◌, ◌||◌, if◌then◌else◌, Option, none, some,
}
use hermez_node.Prelude.Int.{ℤ, pos}
use hermez_node.Prelude.Dict.{Dict, lookup, insert}
use hermez_node.Prelude.Result.{
  Result, ok, err, ◌>>=◌, ◌>>◌, fail_if, num_overflow, not_in_ff, idx_overflow, not_found,
  idx_not_found, addr_not_found, get_idx_no_case, account_already_exists,
}
use hermez_node.Common.Ids.{idx_bytes, max_idx_value, max_nonce_value}
use hermez_node.Common.Account.{Account, magnitude, balance_too_long}
use hermez_node.Common.PoolL2Tx.{empty_addr, empty_bjj_comp}

-- The accounts of a tree (the state or the exits), by Idx.
abbrev pub Accounts : Type 0
Accounts = Dict Account

-- The entries under `PrefixKeyAddrBJJ` and under `PrefixKeyAddr`.
abbrev pub AddrBjjIndex : Type 0
AddrBjjIndex = ℕ → ℕ → ℕ → Option ℕ

abbrev pub AddrIndex : Type 0
AddrIndex = ℕ → ℕ → Option ℕ

pub record StateDb : Type 0 where
  pub accounts : Accounts
  pub current_idx : ℕ
  pub current_batch : ℕ
  pub addr_bjj : AddrBjjIndex
  pub addr : AddrIndex
  pub accepts_bjj : ℕ → Bool

-- What is stored of an account.
abbrev pub stored_at : ℕ → Account → Account
stored_at i a = record a { idx = i; batch_num = 0; balance = pos (magnitude a.balance) }

-- `GetAccountInTreeDB`
unfoldable pub get_in_tree : ℕ → Accounts → Result Account
get_in_tree i accounts =
    if ltb max_idx_value i
    then err idx_overflow
    else elim (lookup i accounts) [ none ↦ err not_found | some a ↦ ok (record a { idx = i }) ]

-- The errors of `HashValue` and `Bytes`.
abbrev pub check_leaf : (ℕ → Bool) → Account → Result (Unit {0})
check_leaf accepts_bjj a = do
  fail_if (ltb max_nonce_value a.nonce || balance_too_long a.balance) num_overflow
  fail_if (not (accepts_bjj a.bjj)) not_in_ff

-- `CreateAccountInTreeDB`
unfoldable pub create_in_tree : (ℕ → Bool) → ℕ → Account → Accounts → Result Accounts
create_in_tree accepts_bjj i a accounts = do
  check_leaf accepts_bjj a
  fail_if (ltb max_idx_value i) idx_overflow
  elim (lookup i accounts) [
    | none ↦ ok (insert i (stored_at i a) accounts)
    | some _ ↦ err account_already_exists
  ]

-- `UpdateAccountInTreeDB`
unfoldable pub update_in_tree : (ℕ → Bool) → ℕ → Account → Accounts → Result Accounts
update_in_tree accepts_bjj i a accounts = do
  check_leaf accepts_bjj a
  fail_if (ltb max_idx_value i) idx_overflow
  ok (insert i (stored_at i a) accounts)

-- `StateDB.GetAccount`
unfoldable pub get_account : ℕ → StateDb → Result Account
unfolding get_in_tree
get_account i db = get_in_tree i db.accounts

-- `StateDB.GetIdxByEthAddr`; its error is a new one, which does not unwrap to ErrIdxNotFound
unfoldable pub get_idx_by_eth_addr : ℕ → ℕ → StateDb → Result ℕ
get_idx_by_eth_addr addr token db = elim (db.addr addr token) [
  | none ↦ err addr_not_found
  | some i ↦ ok i
]

-- `StateDB.GetIdxByEthAddrBJJ`
unfoldable pub get_idx_by_eth_addr_bjj : ℕ → ℕ → ℕ → StateDb → Result ℕ
unfolding get_idx_by_eth_addr
get_idx_by_eth_addr_bjj addr pk token db =
    if not (addr == empty_addr) && pk == empty_bjj_comp
    then get_idx_by_eth_addr addr token db
    else if not (addr == empty_addr) && not (pk == empty_bjj_comp)
    then elim (db.addr_bjj addr pk token) [ none ↦ err idx_not_found | some i ↦ ok i ]
    else err get_idx_no_case

-- The two `Put`s of `setIdxByEthAddrBJJ`.
abbrev pub put_idx : ℕ → ℕ → ℕ → ℕ → StateDb → StateDb
put_idx i addr pk token db = record db {
  addr_bjj = λ a k t. if a == addr && k == pk && t == token then some i else db.addr_bjj a k t;
  addr = λ a t. if a == addr && t == token then some i else db.addr a t;
}

-- The new entries of `setIdxByEthAddrBJJ`, unless `Idx.Bytes` fails.
abbrev pub store_idx : ℕ → ℕ → ℕ → ℕ → StateDb → Result StateDb
store_idx i addr pk token db = elim (idx_bytes i) [
  | ok _ ↦ ok (put_idx i addr pk token db)
  | err e ↦ err e
]

-- `setIdxByEthAddrBJJ`
unfoldable pub set_idx_by_eth_addr_bjj : ℕ → ℕ → ℕ → ℕ → StateDb → Result StateDb
unfolding get_idx_by_eth_addr_bjj
set_idx_by_eth_addr_bjj i addr pk token db = elim (get_idx_by_eth_addr_bjj addr pk token db) [
  | ok old_idx ↦ if leb old_idx i then ok db else store_idx i addr pk token db
  | err _ ↦ store_idx i addr pk token db
]

-- `StateDB.CreateAccount`
unfoldable pub create_account : ℕ → Account → StateDb → Result StateDb
unfolding create_in_tree set_idx_by_eth_addr_bjj
create_account i a db = elim (create_in_tree db.accepts_bjj i a db.accounts) [
  | ok accounts ↦
      set_idx_by_eth_addr_bjj i a.eth_addr a.bjj a.token_id (record db { accounts = accounts })
  | err e ↦ err e
]

-- `StateDB.UpdateAccount`
unfoldable pub update_account : ℕ → Account → StateDb → Result StateDb
unfolding update_in_tree
update_account i a db = elim (update_in_tree db.accepts_bjj i a db.accounts) [
  | ok accounts ↦ ok (record db { accounts = accounts })
  | err e ↦ err e
]

-- `StateDB.SetCurrentIdx`
abbrev pub set_current_idx : ℕ → StateDb → StateDb
set_current_idx i db = record db { current_idx = i }

-- `StateDB.MakeCheckpoint`, in memory: the number of the batch that the state is at
abbrev pub make_checkpoint : StateDb → StateDb
make_checkpoint db = record db { current_batch = db.current_batch + 1 }
