-- ===== src/StateDb/Tests.antt =====
-- Runs of the StateDB on concrete accounts, and its theorems there.
use hermez_node.Prelude.{ℕ, ◌≡◌, ◌^◌, refl, true, none, [], arith}
use hermez_node.Prelude.Int.{pos}
use hermez_node.Prelude.Result.{ok, err, idx_overflow}
use hermez_node.Common.Ids.{idx_bytes}
use hermez_node.Prelude.Dict.{lookup, insert}
use hermez_node.Common.Account.{Account}
use hermez_node.StateDb.{
  StateDb, create_account, get_idx_by_eth_addr_bjj, set_idx_by_eth_addr_bjj, get_idx_by_eth_addr,
}
use hermez_node.StateDb.Index.{registered, set_idx_smallest}
use hermez_node.StateDb.Smallest.{FindsSmallest, create_account-FindsSmallest}
use hermez_node.StateDb.IndexSound.{IndexSound, create_account-IndexSound}

abbrev empty_db : StateDb
empty_db = record {
  accounts = [];
  current_idx = 255;
  current_batch = 0;
  addr_bjj = λ a k t. none;
  addr = λ a t. none;
  accepts_bjj = λ k. true;
}

abbrev alice : Account
alice = record {
  idx = 0;
  token_id = 1;
  batch_num = 0;
  bjj = 7;
  eth_addr = 9;
  nonce = 0;
  balance = pos 100;
}

-- The StateDB after the creation of alice's account.
abbrev with_alice : StateDb
with_alice = elim (create_account 256 alice empty_db) [ ok db ↦ db | err e ↦ empty_db ]

created_alice : create_account 256 alice empty_db ≡ ok with_alice
unfolding create_account lookup insert idx_bytes
created_alice = refl

empty_sound : IndexSound empty_db
empty_sound = record {
  by_key = λ addr pk token i h. absurd (ground arith);
  by_addr = λ addr token i h. absurd (ground arith);
}

create_account-IndexSound_example : IndexSound with_alice
create_account-IndexSound_example =
    create_account-IndexSound 256 alice empty_db with_alice empty_sound created_alice

set_idx_smallest_example :
    (db' : StateDb) × (set_idx_by_eth_addr_bjj 300 9 7 1 with_alice ≡ ok db')
    × ((a k t : ℕ) → db'.addr_bjj a k t ≡ registered 300 9 7 1 with_alice a k t)
set_idx_smallest_example =
    set_idx_smallest 300 9 7 1 with_alice (ground arith) (ground arith) (omega arith)

empty_db-FindsSmallest : FindsSmallest empty_db
unfolding lookup
empty_db-FindsSmallest = record {
  at_most = λ addr pk token j b ha hk there same. absurd (ground arith);
}

with_alice-FindsSmallest : FindsSmallest with_alice
with_alice-FindsSmallest =
    create_account-FindsSmallest 256 alice empty_db with_alice empty_db-FindsSmallest created_alice

-- A second account of the same address, key and token.
abbrev with_both : StateDb
with_both = elim (create_account 300 alice with_alice) [ ok db ↦ db | err e ↦ empty_db ]

created_both : create_account 300 alice with_alice ≡ ok with_both
unfolding create_account lookup insert idx_bytes
created_both = refl

create_account-FindsSmallest_example : FindsSmallest with_both
create_account-FindsSmallest_example =
    create_account-FindsSmallest 300 alice with_alice with_both with_alice-FindsSmallest
      created_both

first_found : get_idx_by_eth_addr 9 1 with_alice ≡ ok 256
unfolding create_account get_idx_by_eth_addr lookup insert idx_bytes
first_found = refl

-- A second key of alice's address, on a larger Idx, takes the entry of the address over.
abbrev with_second_key : StateDb
with_second_key = elim (create_account 300 (record alice { bjj = 8 }) with_alice) [
  | ok db ↦ db
  | err e ↦ empty_db
]

second_found : get_idx_by_eth_addr 9 1 with_second_key ≡ ok 300
unfolding create_account get_idx_by_eth_addr get_idx_by_eth_addr_bjj lookup insert idx_bytes
second_found = refl

-- An Idx that does not fit in its bytes is not stored.
refused : set_idx_by_eth_addr_bjj (2 ^ 48) 9 8 1 with_alice ≡ err idx_overflow
unfolding set_idx_by_eth_addr_bjj get_idx_by_eth_addr_bjj idx_bytes create_account lookup
refused = refl
