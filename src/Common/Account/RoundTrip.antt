-- ===== src/Common/Account/RoundTrip.antt =====
-- Account.Bytes against AccountFromBytes (v2/common/account.go).
use native.Mathlib.Nat.{div-div-eq-div-mul, div-eq_of_lt}
use hermez_node.Prelude.{
  ℕ, ◌/◌, ◌^◌, ◌<◌, ◌≡◌, refl, List, [], ◌∷◌, ◌++◌, Bool, true, false, ◌==◌, if◌then◌else◌, arith,
}
use hermez_node.Prelude.Int.{pos}
use hermez_node.Prelude.Result.{ok}
use hermez_node.Bytes.{be, from_be, zeros}
use hermez_node.Bytes.Laws.{from_be-be_of_lt}
use hermez_node.Common.Ids.{token_id_bytes, token_id_from_bytes}
use hermez_node.Common.Ids.RoundTrip.{nonce_from_bytes-be, token_id_from_bytes-token_id_bytes}
use hermez_node.Common.Account.{Account, magnitude, field_of, account_bytes, account_from_bytes}

-- The layout of the leaf.
leaf : Bool → ℕ → ℕ → ℕ → ℕ → ℕ → List ℕ
unfolding be
leaf sign nonce token mag y addr =
    zeros 22
    ++ ((if sign then 1 else 0)
        ∷ (be 5 nonce ++ (be 4 token ++ (be 32 mag ++ (be 32 y ++ (zeros 12 ++ be 20 addr))))))

-- What is read back of a stored account: its place and batch are not in the leaf, and neither is
-- the sign of its balance.
abbrev pub stored : Account → Account
stored a = record a { idx = 0; batch_num = 0; balance = pos (magnitude a.balance) }

module _ (unpack_sign_y : ℕ → Bool × ℕ) where
  account_bytes-leaf :
      (a : Account) (b : List ℕ)
      → account_bytes unpack_sign_y a ≡ ok b
      → (a.nonce < 2 ^ 40)
        × (magnitude a.balance < 2 ^ 192)
        × (b
            ≡ leaf
                (unpack_sign_y a.bjj).0
                a.nonce
                a.token_id
                (magnitude a.balance)
                (unpack_sign_y a.bjj).1
                a.eth_addr)
  unfolding account_bytes leaf
  account_bytes-leaf a b h = ground arith

leaf_parts :
    (sign : Bool) (nonce token mag y addr : ℕ)
    → (field_of 28 32 (leaf sign nonce token mag y addr) ≡ be 4 token)
      × (field_of 23 28 (leaf sign nonce token mag y addr) ≡ be 5 nonce)
      × (field_of 22 23 (leaf sign nonce token mag y addr) ≡ (if sign then 1 else 0) ∷ [])
      × (field_of 40 64 (leaf sign nonce token mag y addr) ≡ be 24 mag)
      × (field_of 32 40 (leaf sign nonce token mag y addr) ≡ be 8 (mag / 256 ^ 24))
      × (field_of 64 96 (leaf sign nonce token mag y addr) ≡ be 32 y)
      × (field_of 108 128 (leaf sign nonce token mag y addr) ≡ be 20 addr)
unfolding leaf be
leaf_parts sign nonce token mag y addr =
    (refl, refl, refl, refl, simp div-div-eq-div-mul, refl, refl)

high_zero : (mag : ℕ) → mag < 2 ^ 192 → from_be (be 8 (mag / 256 ^ 24)) ≡ 0
high_zero mag h = rw (div-eq_of_lt h) (from_be-be_of_lt 8 0 (omega arith))

sign_bit : (sign : Bool) → (from_be ((if sign then 1 else 0) ∷ []) == 1) ≡ sign
unfolding from_be
sign_bit true = refl
sign_bit false = refl

module _ (pack_sign_y : Bool → ℕ → ℕ) (in_field : ℕ → Bool) where
  account_from_bytes-leaf :
      (sign : Bool) (nonce token mag y addr : ℕ)
      → nonce < 2 ^ 40
      → token < 2 ^ 32
      → mag < 2 ^ 192
      → y < 2 ^ 256
      → addr < 2 ^ 160
      → in_field mag ≡ true
      → in_field y ≡ true
      → account_from_bytes pack_sign_y in_field (leaf sign nonce token mag y addr)
        ≡ ok (record {
          idx = 0;
          token_id = token;
          batch_num = 0;
          bjj = pack_sign_y sign y;
          eth_addr = addr;
          nonce = nonce;
          balance = pos mag;
        })
  unfolding account_from_bytes
  account_from_bytes-leaf sign nonce token mag y addr hn ht hm hy ha fm fy =
      let (p1, p2, p3, p4, p5, p6, p7) = leaf_parts sign nonce token mag y addr in
      let t : token_id_from_bytes (be 4 token) ≡ ok token =
        unfold token_id_bytes in (token_id_from_bytes-token_id_bytes token ht) in
      simp (
        p1,
        p2,
        p3,
        p4,
        p5,
        p6,
        p7,
        t,
        nonce_from_bytes-be nonce hn,
        sign_bit,
        high_zero mag hm,
        from_be-be_of_lt 24 mag hm,
        from_be-be_of_lt 32 y hy,
        from_be-be_of_lt 20 addr ha,
        fm,
        fy,
      )

module _ (unpack_sign_y : ℕ → Bool × ℕ) (pack_sign_y : Bool → ℕ → ℕ) (in_field : ℕ → Bool)
    (pack-unpack : (k : ℕ)
      → k < 2 ^ 256
      → pack_sign_y (unpack_sign_y k).0 (unpack_sign_y k).1 ≡ k) where
  -- An account that Account.Bytes has written is read back by AccountFromBytes, without its Idx and
  -- batch and with the magnitude of its balance; its nonce has 40 bits and its balance 192, as the writer
  -- checks. Token, address, key and the key's Y coordinate have 32, 160, 256 and 256 bits, the coordinate
  -- and the balance are in the field, and packing a compressed key undoes unpacking it.
  pub account_from_bytes-account_bytes :
      (a : Account) (b : List ℕ)
      → a.token_id < 2 ^ 32
      → a.eth_addr < 2 ^ 160
      → a.bjj < 2 ^ 256
      → (unpack_sign_y a.bjj).1 < 2 ^ 256
      → in_field (unpack_sign_y a.bjj).1 ≡ true
      → in_field (magnitude a.balance) ≡ true
      → account_bytes unpack_sign_y a ≡ ok b
      → (a.nonce < 2 ^ 40)
        × (magnitude a.balance < 2 ^ 192)
        × (account_from_bytes pack_sign_y in_field b ≡ ok (stored a))
  account_from_bytes-account_bytes a b ht ha hk hy fy fb h =
      let (hn, hm, e) = account_bytes-leaf unpack_sign_y a b h in
      (
        hn,
        hm,
        rw
            (
              e,
              account_from_bytes-leaf pack_sign_y in_field _ _ _ _ _ _ hn ht hm hy ha fb fy,
              pack-unpack a.bjj hk,
            )
            refl,
      )
