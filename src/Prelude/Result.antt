-- ===== src/Prelude/Result.antt =====
-- Go's (value, error) pair. The errors are the sentinel values of v2/common,
-- v2/db/statedb and v2/txprocessor, and one constructor for
-- each formatted message that the modelled code returns; `out_of_range` is the run-time panic of an
-- index or a slice expression, `nil_dereference` that of a method call on nil.
use mathlib.Core.Path.{◌≡◌, refl}
use mathlib.Core.Logic.{◌⊎◌, inl, inr}
use mathlib.Core.Bool.{Bool, true, false}

pub data Error : Type 0 where
  not_in_ff num_overflow nonce_overflow idx_overflow : Error
  float40_overflow float40_e31 float40_not_enough_precission : Error
  fee_overflow bad_length invalid_idx wrong_type missing_num : Error
  not_found idx_not_found addr_not_found get_idx_no_case account_already_exists : Error
  not_enough_balance no_coord_idx zero_to_idx too_many_coord_idxs too_many_txs too_many_l1_txs :
      Error
  coordinator_origin user_origin : Error
  not_atomic invalid_rq_offset receiver_pending no_authorization wrong_authorization no_l1_slot :
      Error
  checkpoint_gap no_checkpoint no_synchronizer : Error
  out_of_range nil_dereference : Error

pub data Result {ℓ} (V : Type ℓ) : Type ℓ where
  ok : V → Result V
  err : Error → Result V

infixl 5 ◌>>=◌ ◌>>◌
abbrev pub ◌>>=◌ {ℓ κ} : {V : Type ℓ} {W : Type κ} → Result V → (V → Result W) → Result W
ok v >>= next = next v
err why >>= next = err why

abbrev pub ◌>>◌ {ℓ} : {W : Type ℓ} → Result (Unit {0}) → Result W → Result W
check >> next = check >>= λ _. next

-- `if c { return e }`
abbrev pub fail_if : Bool → Error → Result (Unit {0})
fail_if true e = err e
fail_if false e = ok tt

pub >>=-eq-ok {ℓ κ} :
    {V : Type ℓ} {W : Type κ} (first : Result V) (next : V → Result W) {w : W}
    → (first >>= next) ≡ ok w
    → (v : V) × (first ≡ ok v) × (next v ≡ ok w)
>>=-eq-ok (ok v) next h = (v, refl, h)
>>=-eq-ok (err why) next h = cc

pub Result-cases {ℓ} :
    {V : Type ℓ} (r : Result V) → ((v : V) × (r ≡ ok v)) ⊎ ((why : Error) × (r ≡ err why))
Result-cases (ok v) = inl (v, refl)
Result-cases (err why) = inr (why, refl)
