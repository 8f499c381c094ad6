-- ===== src/TxProcessor/Conservation/Kinds.antt =====
-- What each kind of L1 transaction (v2/txprocessor/txprocessor.go) does to the total of a token.
use hermez_node.Prelude.{ℕ, ◌≡◌, ◌≢◌, refl, ◌∙◌, ap, some, [], true, false, inl, inr}
use hermez_node.Prelude.Int.{ℤ, pos, ◌+ℤ◌, int_laws, parts}
use hermez_node.Prelude.Dict.{lookup}
use hermez_node.Prelude.Result.{ok}
use hermez_node.Common.Account.{Account}
use hermez_node.Common.L1Tx
use hermez_node.Common.L1Tx.{L1Tx, type_of}
use hermez_node.TxProcessor.State.{State}
use hermez_node.TxProcessor.Apply.{
  apply_deposit, apply_create_account_deposit_transfer, apply_transfer,
}
use hermez_node.TxProcessor.Totals.{part, total}
use hermez_node.TxProcessor.Totals.Transfers.{accounts_of}
use hermez_node.TxProcessor.Conservation.{apply_transfer_l1, Moved}
use hermez_node.TxProcessor.Conservation.Deposits.{
  apply_deposit-total, apply_deposit_transfer_total, DepositMoved,
}
use hermez_node.TxProcessor.Conservation.Creations.{
  apply_create_account_deposit_transfer_total, CreationMoved, ReceiverToken,
}
use hermez_node.TxProcessor.Conservation.Facts.{part-zero, part_tokens, with_amounts, Facts, Enters}

pub deposit-Enters :
    (t : ℕ) (tx : L1Tx) (x d : ℤ) (s s' : State)
    → Facts tx x d s
    → tx.from_idx ≢ 0
    → x ≡ pos 0
    → apply_deposit (with_amounts x d tx) false s ≡ (ok tt, s')
    → Enters t tx d s s'
deposit-Enters t tx x d s s' f from none_moved h =
    go (apply_deposit-total t (with_amounts x d tx) s s' h)
  where
    go :
        (found : Account) × (lookup tx.from_idx (accounts_of s) ≡ some found)
          × (total t (accounts_of s') +ℤ part t found.token_id x
              ≡ total t (accounts_of s) +ℤ part t found.token_id d)
        → Enters t tx d s s'
    go (found, e, q) = omega (
      int_laws,
      parts q,
      parts (ap (part t found.token_id) none_moved ∙ part-zero t found.token_id),
      parts (part_tokens t found.token_id tx.token_id d (f.deposit_token found from e)),
    )

pub deposit_transfer-Enters :
    (t : ℕ) (tx : L1Tx) (x d : ℤ) (s s' : State)
    → Facts tx x d s
    → tx.from_idx ≢ 0
    → tx.to_idx ≢ 0
    → tx.to_idx ≢ 1
    → apply_deposit (with_amounts x d tx) true s ≡ (ok tt, s')
    → Enters t tx d s s'
deposit_transfer-Enters t tx x d s s' f from to0 to1 h =
    go (apply_deposit_transfer_total t (with_amounts x d tx) s s' f.amount_nonneg f.nonneg h)
  where
    go : DepositMoved t (with_amounts x d tx) s s' → Enters t tx d s s'
    go (found, receiver, e, er, q) = omega (
      int_laws,
      parts q,
      parts (part_tokens t found.token_id tx.token_id x (f.sender_token found from e)),
      parts (part_tokens t found.token_id tx.token_id d (f.deposit_token found from e)),
      parts (part_tokens t receiver.token_id tx.token_id x (f.receiver_token receiver to0 to1 er)),
    )

pub force_transfer-Enters :
    (t : ℕ) (tx : L1Tx) (x d : ℤ) (s s' : State)
    → Facts tx x d s
    → tx.from_idx ≢ 0
    → tx.to_idx ≢ 0
    → tx.to_idx ≢ 1
    → d ≡ pos 0
    → apply_transfer [] (L1Tx.generic_tx (with_amounts x d tx)) 0 s ≡ (ok tt, s')
    → Enters t tx d s s'
force_transfer-Enters t tx x d s s' f from to0 to1 no_deposit h = go (
    apply_transfer_l1 t [] (L1Tx.generic_tx (with_amounts x d tx)) 0 s s' refl f.amount_nonneg
      f.nonneg h)
  where
    go : Moved t (L1Tx.generic_tx (with_amounts x d tx)) tx.to_idx x s s' → Enters t tx d s s'
    go (found, receiver, e, er, q) = omega (
      int_laws,
      parts q,
      parts (part_tokens t found.token_id tx.token_id x (f.sender_token found from e)),
      parts (part_tokens t receiver.token_id tx.token_id x (f.receiver_token receiver to0 to1 er)),
      parts (ap (part t tx.token_id) no_deposit ∙ part-zero t tx.token_id),
    )

pub creation_transfer-Enters :
    (t : ℕ) (tx : L1Tx) (x d : ℤ) (s s' : State)
    → Facts tx x d s
    → tx.to_idx ≢ 0
    → tx.to_idx ≢ 1
    → apply_create_account_deposit_transfer (with_amounts x d tx) s ≡ (ok tt, s')
    → Enters t tx d s s'
creation_transfer-Enters t tx x d s s' f to0 to1 h = go (
    apply_create_account_deposit_transfer_total t (with_amounts x d tx) s s' f.amount_nonneg
      f.nonneg h)
  where
    token_of :
        (token : ℕ) → ReceiverToken (with_amounts x d tx) s token → x ≢ pos 0 → token ≡ tx.token_id
    token_of token (inl own) nz = own
    token_of token (inr (receiver, e, q)) nz = q ∙ f.receiver_token receiver to0 to1 e nz

    go : CreationMoved t (with_amounts x d tx) s s' → Enters t tx d s s'
    go (token, from_where, q) =
        omega
          (int_laws, parts q, parts (part_tokens t token tx.token_id x (token_of token from_where)))
