-- ===== src/Common/PoolL2Tx/Types.antt =====
-- PoolL2Tx.SetType of v2/common/pooll2tx.go: which type an L2 transaction gets.
use hermez_node.Prelude.{ℕ, ◌≤◌, ◌≡◌, ◌≢◌, ◌↔◌, arith}
use hermez_node.Prelude.Result.{ok}
use hermez_node.Common.Tx.{transfer, exit, transfer_to_bjj, transfer_to_eth_addr}
use hermez_node.Common.PoolL2Tx.{type_of, empty_bjj_comp, empty_addr, ff_addr}

-- SetType, on every branch: a transfer names an Idx of a user; an exit goes to Idx 1 and names neither
-- address nor key; to Idx 0 goes a transfer to a key, with the address of all ones, or a transfer to
-- an address alone, which is neither empty nor all ones.
pub pool_type_of_iff :
    (to bjj addr : ℕ)
    → ((type_of to bjj addr ≡ ok transfer) ↔ (256 ≤ to))
      × ((type_of to bjj addr ≡ ok exit)
          ↔ ((to ≡ 1) × (bjj ≡ empty_bjj_comp) × (addr ≡ empty_addr)))
      × ((type_of to bjj addr ≡ ok transfer_to_bjj)
          ↔ ((to ≡ 0) × (bjj ≢ empty_bjj_comp) × (addr ≡ ff_addr)))
      × ((type_of to bjj addr ≡ ok transfer_to_eth_addr)
          ↔ ((to ≡ 0) × (bjj ≡ empty_bjj_comp) × (addr ≢ ff_addr) × (addr ≢ empty_addr)))
unfolding type_of
pool_type_of_iff to bjj addr = (ground arith, ground arith, ground arith, ground arith)
