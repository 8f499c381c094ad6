-- ===== src/TxProcessor/Conservation/Facts.antt =====
-- What the effective amounts of an L1 transaction (v2/txprocessor/txprocessor.go, ProcessL1Tx) owe to
-- the checks.
use hermez_node.Prelude.{
  ℕ, ◌≤◌, ◌≡◌, ◌≢◌, refl, sym, ◌∙◌, ap, some, arith, true, Bool-cases, ◌⊎◌, inl, inr,
}
use mathlib.Core.Option.{some-injective}
use hermez_node.Prelude.Int.{ℤ, pos, ◌+ℤ◌, ◌≤ℤ◌, is_zero}
use hermez_node.Prelude.Dict.{lookup}
use hermez_node.Prelude.Result.{Result, ok}
use hermez_node.Common.Ids.{user_threshold}
use hermez_node.Common.Account.{Account}
use hermez_node.Common.Tx.{TxType}
use hermez_node.Common.L1Tx.{L1Tx, type_of}
use hermez_node.Common.L1Tx.Types.{IsL1}
use hermez_node.StateDb.{get_account}
use hermez_node.TxProcessor.State.{State}
use hermez_node.TxProcessor.Amounts.Checks.{HasSender, HasReceiver, CoveredByDeposit}
use hermez_node.TxProcessor.Process.{Processed, created_account, is_l1_type}
use hermez_node.TxProcessor.Steps.{get_ok}
use hermez_node.TxProcessor.Totals.{part, total, AllNonneg}
use hermez_node.TxProcessor.Totals.Transfers.{accounts_of}

pub part-zero : (t a : ℕ) → part t a (pos 0) ≡ pos 0
unfolding part
part-zero t a = ground arith

is_zero_cases : (x : ℤ) → (x ≡ pos 0) ⊎ (x ≢ pos 0)
is_zero_cases x = elim (Bool-cases (is_zero x)) [
  | inl z ↦ inl (ground arith)
  | inr z ↦ inr (ground arith)
]

-- A part is the same in two tokens that agree where there is something to count.
pub part_tokens : (t a b : ℕ) (x : ℤ) → (x ≢ pos 0 → a ≡ b) → part t a x ≡ part t b x
part_tokens t a b x h = elim (is_zero_cases x) [
  | inl z ↦ rw z (part-zero t a ∙ sym (part-zero t b))
  | inr nz ↦ rw (h nz) refl
]

-- The transaction with its effective amounts.
abbrev pub with_amounts : ℤ → ℤ → L1Tx → L1Tx
with_amounts x d tx = record tx { effective_amount = x; effective_deposit_amount = d }

-- What the effective amounts `x` and `d` of a transaction owe to the checks, and to the rules of the
-- contract that has sent it.
pub record Facts (tx : L1Tx) (x d : ℤ) (s : State) : Type 0 where
  pub typed : type_of tx.from_idx tx.to_idx tx.deposit_amount ≡ ok tx.tx_type
  pub amount_nonneg : pos 0 ≤ℤ x
  pub deposit_nonneg : pos 0 ≤ℤ d
  pub nonneg : AllNonneg (accounts_of s)
  pub sender_token :
      (a : Account)
      → tx.from_idx ≢ 0
      → lookup tx.from_idx (accounts_of s) ≡ some a
      → x ≢ pos 0
      → a.token_id ≡ tx.token_id
  pub deposit_token :
      (a : Account)
      → tx.from_idx ≢ 0
      → lookup tx.from_idx (accounts_of s) ≡ some a
      → d ≢ pos 0
      → a.token_id ≡ tx.token_id
  pub receiver_token :
      (a : Account)
      → tx.to_idx ≢ 0
      → tx.to_idx ≢ 1
      → lookup tx.to_idx (accounts_of s) ≡ some a
      → x ≢ pos 0
      → a.token_id ≡ tx.token_id

pub account_in_token :
    (s : State) (i : ℕ) (a : Account) (token : ℕ)
    → lookup i (accounts_of s) ≡ some a
    → (b : Account) × (get_account i s.db ≡ ok b) × (b.token_id ≡ token)
    → a.token_id ≡ token
account_in_token s i a token e (b, got, same) =
    go (get_ok i s b s (ap (λ (r : Result Account). (r, s)) got))
  where
    go :
        (s ≡ s)
          × (found : Account) × (lookup i s.db.accounts ≡ some found)
          × (b ≡ record found { idx = i })
        → a.token_id ≡ token
    go (_, found, q, er) =
        ap (λ (c : Account). c.token_id) (some-injective a found (sym e ∙ q))
        ∙ sym (ap (λ (c : Account). c.token_id) er)
        ∙ same

pub sender_in_token :
    (s : State) (tx : L1Tx) (a : Account)
    → tx.from_idx ≢ 0
    → lookup tx.from_idx (accounts_of s) ≡ some a
    → (tx.user_origin ≡ true)
      × (((tx.from_idx ≡ 0) × (user_threshold ≤ tx.to_idx) × CoveredByDeposit s.db tx)
          ⊎ (HasSender s.db tx × HasReceiver s.db tx))
    → a.token_id ≡ tx.token_id
sender_in_token s tx a from e (_, inl (zero, _, _)) = absurd (from zero)
sender_in_token s tx a from e (_, inr ((b, got, same, _, _), _)) =
    account_in_token s tx.from_idx a tx.token_id e (b, got, same)

pub receiver_in_token :
    (s : State) (tx : L1Tx) (a : Account)
    → tx.to_idx ≢ 0
    → tx.to_idx ≢ 1
    → lookup tx.to_idx (accounts_of s) ≡ some a
    → (tx.user_origin ≡ true)
      × (((tx.from_idx ≡ 0) × (user_threshold ≤ tx.to_idx) × CoveredByDeposit s.db tx)
          ⊎ (HasSender s.db tx × HasReceiver s.db tx))
    → a.token_id ≡ tx.token_id
receiver_in_token s tx a to0 to1 e (_, inl (_, _, (_, got))) =
    account_in_token s tx.to_idx a tx.token_id e got
receiver_in_token s tx a to0 to1 e (_, inr (_, inl (inl z))) = absurd (to0 z)
receiver_in_token s tx a to0 to1 e (_, inr (_, inl (inr z))) = absurd (to1 z)
receiver_in_token s tx a to0 to1 e (_, inr (_, inr got)) =
    account_in_token s tx.to_idx a tx.token_id e got

pub lowered_nonneg : {a b : ℤ} → (a ≡ b) ⊎ (a ≡ pos 0) → pos 0 ≤ℤ b → pos 0 ≤ℤ a
lowered_nonneg (inl q) h = rw q h
lowered_nonneg (inr q) h = rw q (ground arith)

pub IsL1-is_l1_type : (ty : TxType) → IsL1 ty → is_l1_type ty ≡ true
IsL1-is_l1_type ty h = ground arith

-- The tokens that enter the state are those deposited.
abbrev pub Enters : ℕ → L1Tx → ℤ → State → State → Type 0
Enters t tx d s s' = total t (accounts_of s') ≡ total t (accounts_of s) +ℤ part t tx.token_id d

pub created_account_ok :
    (tx : L1Tx) (s : State) (p : Processed L1Tx) (s' : State)
    → created_account tx s ≡ (ok p, s')
    → s' ≡ s
created_account_ok tx s p s' h = ground arith
