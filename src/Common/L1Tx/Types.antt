-- ===== src/Common/L1Tx/Types.antt =====
-- L1Tx.SetType of v2/common/l1tx.go: which type an L1 transaction gets.
use hermez_node.Prelude.{ℕ, ◌*◌, ◌≤◌, ◌^◌, ◌≡◌, ◌≢◌, ◌↔◌, arith}
use hermez_node.Prelude.Int.{ℤ, pos}
use hermez_node.Prelude.Result.{ok}
use hermez_node.Common.Ids.{low64}
use hermez_node.Common.Tx.{
  TxType, deposit, create_account_deposit, create_account_deposit_transfer, deposit_transfer,
  force_transfer, force_exit,
}
use hermez_node.Common.L1Tx.{type_of}

-- What `SetType` says of the two Idx of a transaction of a type.
pub type_of_deposit : (from to : ℕ) (d : ℤ) → type_of from to d ≡ ok deposit → from ≢ 0
unfolding type_of
type_of_deposit from to d h = ground arith

pub type_of_deposit_transfer :
    (from to : ℕ) (d : ℤ)
    → type_of from to d ≡ ok deposit_transfer
    → (from ≢ 0) × (to ≢ 0) × (to ≢ 1)
unfolding type_of
type_of_deposit_transfer from to d h = ground arith

pub type_of_force_transfer :
    (from to : ℕ) (d : ℤ) → type_of from to d ≡ ok force_transfer → (from ≢ 0) × (to ≢ 0) × (to ≢ 1)
unfolding type_of
type_of_force_transfer from to d h = ground arith

pub type_of_creation_transfer :
    (from to : ℕ) (d : ℤ)
    → type_of from to d ≡ ok create_account_deposit_transfer
    → (to ≢ 0) × (to ≢ 1)
unfolding type_of
type_of_creation_transfer from to d h = ground arith

-- The six types of an L1 transaction.
abbrev pub IsL1 : TxType → Type 0
IsL1 deposit = Unit {0}
IsL1 create_account_deposit = Unit {0}
IsL1 create_account_deposit_transfer = Unit {0}
IsL1 deposit_transfer = Unit {0}
IsL1 force_transfer = Unit {0}
IsL1 force_exit = Unit {0}
IsL1 _ = ⊥

pub type_of_l1 : (from to : ℕ) (d : ℤ) (ty : TxType) → type_of from to d ≡ ok ty → IsL1 ty
unfolding type_of
type_of_l1 from to d deposit h = tt
type_of_l1 from to d create_account_deposit h = tt
type_of_l1 from to d create_account_deposit_transfer h = tt
type_of_l1 from to d deposit_transfer h = tt
type_of_l1 from to d force_transfer h = tt
type_of_l1 from to d force_exit h = tt
type_of_l1 from to d _ h = ground arith

-- SetType, on every branch. A creation is from Idx 0, to 0 or to an Idx of a user; any other type is
-- from an Idx of a user, to 0 (deposit), to 1 (forced exit) or to an Idx of a user, where the low 64
-- bits of the deposit decide between a forced transfer and a deposit with a transfer.
pub type_of_iff :
    (from to : ℕ) (d : ℤ)
    → ((type_of from to d ≡ ok create_account_deposit) ↔ ((from ≡ 0) × (to ≡ 0)))
      × ((type_of from to d ≡ ok create_account_deposit_transfer) ↔ ((from ≡ 0) × (256 ≤ to)))
      × ((type_of from to d ≡ ok deposit) ↔ ((256 ≤ from) × (to ≡ 0)))
      × ((type_of from to d ≡ ok force_exit) ↔ ((256 ≤ from) × (to ≡ 1)))
      × ((type_of from to d ≡ ok force_transfer) ↔ ((256 ≤ from) × (256 ≤ to) × (low64 d ≡ 0)))
      × ((type_of from to d ≡ ok deposit_transfer) ↔ ((256 ≤ from) × (256 ≤ to) × (low64 d ≢ 0)))
unfolding type_of
type_of_iff from to d =
    (ground arith, ground arith, ground arith, ground arith, ground arith, ground arith)

-- A deposit of a multiple of 2^64, however large, is taken for none: from and to an Idx of a user,
-- SetType calls the transaction a forced transfer.
pub type_of_wraps :
    (from to k : ℕ) → 256 ≤ from → 256 ≤ to → type_of from to (pos (k * 2 ^ 64)) ≡ ok force_transfer
unfolding type_of
type_of_wraps from to k hf ht = ground arith
