-- ===== src/Common/CodecTests.antt =====
-- Runs of the transactions and codecs of v2/common on concrete values, and their theorems there.
use hermez_node.Prelude.{
  ℕ, ◌+◌, ◌*◌, ◌-◌, ◌^◌, ◌<◌, ◌≤◌, ◌≡◌, ◌≢◌, ◌↔◌, refl, List, [], Bool, true, false, arith, leb,
  if◌then◌else◌,
}
use hermez_node.Prelude.Int.{pos}
use hermez_node.Prelude.Result.{ok, err}
use hermez_node.Common.Ids.{low64}
use hermez_node.Common.Float40.{new_float40}
use hermez_node.Common.Tx.{
  deposit, create_account_deposit, create_account_deposit_transfer, deposit_transfer,
  force_transfer, force_exit, transfer,
}
use hermez_node.Common.Account.{Account, account_bytes, account_from_bytes, magnitude}
use hermez_node.Common.Account.RoundTrip.{account_from_bytes-account_bytes, stored}
use hermez_node.Common.L1Tx
use hermez_node.Common.L1Tx.{L1Tx}
use hermez_node.Common.L1Tx.Types.{type_of_iff, type_of_wraps}
use hermez_node.Common.L1Tx.Codec.{bytes_user, l1_user_tx_from_bytes, decoded}
use hermez_node.Common.L1Tx.Codec.RoundTrip.{l1_user_tx_from_bytes-bytes_user}
use hermez_node.Common.PoolL2Tx.{PoolL2Tx}
use hermez_node.Common.PoolL2Tx.Codec.{
  tx_compressed_data, tx_compressed_data_v2, rq_tx_compressed_data_v2,
}
use hermez_node.Common.PoolL2Tx.Codec.Layout.{
  requested, rq_tx_compressed_data_v2_lem, layout, tx_compressed_data_lem,
}

-- A stand-in for babyjub.UnpackSignY and PackSignY: the sign is the top bit.
abbrev unpack_top : ℕ → Bool × ℕ
unpack_top k = if leb (2 ^ 255) k then (true, k - 2 ^ 255) else (false, k)

abbrev pack_top : Bool → ℕ → ℕ
pack_top sign y = (if sign then 2 ^ 255 else 0) + y

abbrev any_field : ℕ → Bool
any_field x = true

abbrev user_tx : L1Tx
user_tx = record (decoded true 256 257 0xabcdef 77 1 (pos 10) (pos 5000)) {
  tx_type = deposit_transfer;
}

ten : new_float40 (pos 10) ≡ ok 10
unfolding new_float40
ten = refl

five_thousand : new_float40 (pos 5000) ≡ ok 5000
unfolding new_float40
five_thousand = refl

l1_user_tx_from_bytes-bytes_user_example :
    (b : List ℕ) × (bytes_user user_tx ≡ ok b)
    × (l1_user_tx_from_bytes b ≡ ok (decoded true 256 257 0xabcdef 77 1 (pos 10) (pos 5000)))
l1_user_tx_from_bytes-bytes_user_example =
    l1_user_tx_from_bytes-bytes_user user_tx 10 5000 10 5000 refl (omega arith) (omega arith)
      (omega arith) (omega arith) (omega arith) refl refl ten five_thousand

abbrev from_a : ℕ
from_a = 256

abbrev to_a : ℕ
to_a = 257

type_of_iff_example :
    ((L1Tx.type_of from_a to_a (pos 5000) ≡ ok create_account_deposit)
      ↔ ((from_a ≡ 0) × (to_a ≡ 0)))
    × ((L1Tx.type_of from_a to_a (pos 5000) ≡ ok create_account_deposit_transfer)
        ↔ ((from_a ≡ 0) × (256 ≤ to_a)))
    × ((L1Tx.type_of from_a to_a (pos 5000) ≡ ok deposit) ↔ ((256 ≤ from_a) × (to_a ≡ 0)))
    × ((L1Tx.type_of from_a to_a (pos 5000) ≡ ok force_exit) ↔ ((256 ≤ from_a) × (to_a ≡ 1)))
    × ((L1Tx.type_of from_a to_a (pos 5000) ≡ ok force_transfer)
        ↔ ((256 ≤ from_a) × (256 ≤ to_a) × (low64 (pos 5000) ≡ 0)))
    × ((L1Tx.type_of from_a to_a (pos 5000) ≡ ok deposit_transfer)
        ↔ ((256 ≤ from_a) × (256 ≤ to_a) × (low64 (pos 5000) ≢ 0)))
type_of_iff_example = type_of_iff from_a to_a (pos 5000)

type_of_wraps_example : L1Tx.type_of 256 257 (pos (3 * 2 ^ 64)) ≡ ok force_transfer
type_of_wraps_example = type_of_wraps 256 257 3 (omega arith) (omega arith)

abbrev pool_tx : PoolL2Tx
pool_tx = record {
  from_idx = 256;
  to_idx = 257;
  aux_to_idx = 0;
  to_eth_addr = 0;
  to_bjj = 2 ^ 255 + 5;
  token_id = 1;
  amount = pos 10;
  fee = 126;
  nonce = 4;
  max_num_batch = 0;
  rq_from_idx = 257;
  rq_to_idx = 256;
  rq_to_eth_addr = 0;
  rq_to_bjj = 0;
  rq_token_id = 2;
  rq_amount = pos 20;
  rq_fee = 0;
  rq_nonce = 9;
  rq_offset = 1;
  tx_type = transfer;
}

tx_compressed_data_lem_example :
    tx_compressed_data unpack_top pool_tx 5 ≡ ok (layout unpack_top pool_tx 5)
tx_compressed_data_lem_example =
    tx_compressed_data_lem unpack_top pool_tx 5 (omega arith) (omega arith) (omega arith)
      (omega arith) (omega arith)

rq_tx_compressed_data_v2_lem_example :
    rq_tx_compressed_data_v2 unpack_top pool_tx
    ≡ tx_compressed_data_v2 unpack_top (requested pool_tx)
rq_tx_compressed_data_v2_lem_example = rq_tx_compressed_data_v2_lem unpack_top pool_tx

abbrev to_none : ℕ
to_none = 0

abbrev key : ℕ
key = 7

abbrev account : Account
account = record {
  idx = 256;
  token_id = 1;
  batch_num = 3;
  bjj = 2 ^ 255 + 5;
  eth_addr = 0xabcdef;
  nonce = 4;
  balance = pos 1000;
}

-- The leaf bytes of the account.
abbrev written : Account → List ℕ
written a = elim (account_bytes unpack_top a) [ ok b ↦ b | err e ↦ [] ]

account_written : account_bytes unpack_top account ≡ ok (written account)
unfolding account_bytes
account_written = refl

pack-unpack_top : (k : ℕ) → k < 2 ^ 256 → pack_top (unpack_top k).0 (unpack_top k).1 ≡ k
pack-unpack_top k h = ground arith

account_from_bytes-account_bytes_example :
    (account.nonce < 2 ^ 40)
    × (magnitude account.balance < 2 ^ 192)
    × (account_from_bytes pack_top any_field (written account) ≡ ok (stored account))
account_from_bytes-account_bytes_example =
    account_from_bytes-account_bytes unpack_top pack_top any_field pack-unpack_top account
      (written account) (omega arith) (omega arith) (omega arith) (omega arith) refl refl
      account_written
