-- ===== src/TxProcessor/Example.antt =====
-- A small state of the TxProcessor, for its tests.
use hermez_node.Prelude.{
  ℕ, ◌+◌, Bool, true, none, some, [], ◌∷◌, arith, All, ◌==◌, Bool-cases, inl, inr,
}
use hermez_node.Prelude.Int.{pos, ◌≤ℤ◌}
use hermez_node.Prelude.Dict.{lookup}
use hermez_node.Common.Account.{Account}
use hermez_node.Common.Tx.{Tx, TxType}
use hermez_node.StateDb.{Accounts}
use hermez_node.TxProcessor.State.{State, synchronizer}
use hermez_node.TxProcessor.Totals.{AllNonneg}
use hermez_node.TxProcessor.Monad.{Action}

abbrev pub account : ℕ → ℕ → Account
account addr balance = record {
  idx = 0;
  token_id = 1;
  batch_num = 0;
  bjj = addr + 10;
  eth_addr = addr;
  nonce = 0;
  balance = pos balance;
}

-- Two users and a coordinator, all in token 1.
abbrev pub accounts : Accounts
accounts = (256, account 1 1000) ∷ (257, account 2 50) ∷ (258, account 3 0) ∷ []

abbrev pub state : State
state = record {
  config = record { mode = synchronizer; max_fee_tx = 2; max_tx = 4; max_l1_tx = 2 };
  db = record {
    accounts = accounts;
    current_idx = 258;
    current_batch = 6;
    addr_bjj = λ a k t. none;
    addr = λ a t. none;
    accepts_bjj = λ k. true;
  };
  exit_tree = some [];
  accumulated_fees = (258, pos 30) ∷ [];
  collected_fees = (1, pos 30) ∷ [];
  updated_accounts = [];
}

-- Non-negative balances, entry by entry.
AllNonneg-of : (d : Accounts) → All (λ (e : ℕ × Account). pos 0 ≤ℤ (e.1).balance) d → AllNonneg d
unfolding lookup
AllNonneg-of [] h j b e = absurd (ground arith)
AllNonneg-of ((i, a) ∷ d) (ha, hd) j b e = elim (Bool-cases (i == j)) [
  | inl same ↦ ground arith
  | inr other ↦ AllNonneg-of d hd j b (rw other at e)
]

pub accounts-nonneg : AllNonneg accounts
accounts-nonneg = AllNonneg-of accounts (omega arith, (omega arith, (omega arith, tt)))

pub no_exits-nonneg : AllNonneg []
no_exits-nonneg = AllNonneg-of [] tt

abbrev pub transfer_tx : Bool → TxType → ℕ → Tx
transfer_tx l1 ty to = record {
  is_l1 = l1;
  tx_type = ty;
  from_idx = 256;
  to_idx = to;
  amount = pos 100;
  token_id = 1;
  fee = 192;
}

-- The state that a method leaves behind.
abbrev pub after : {A : Type 0} → Action A → State → State
after m s = (m s).1
