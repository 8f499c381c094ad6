-- ===== src/TxProcessor/Conservation/L1.antt =====
-- ProcessL1Tx (v2/txprocessor/txprocessor.go) and the total of a token.
use hermez_node.Prelude.{
  ℕ, ◌≡◌, ◌≢◌, refl, sym, ◌∙◌, ap, if◌then◌else◌, [], true, false, ◌⊎◌, inl, inr,
}
use hermez_node.Prelude.Int.{ℤ, pos, ◌≤ℤ◌}
use hermez_node.Prelude.Result.{ok}
use hermez_node.Common.Tx.{
  TxType, exit, transfer, deposit, create_account_deposit, create_account_deposit_transfer,
  deposit_transfer, force_transfer, force_exit, transfer_to_eth_addr, transfer_to_bjj, same_type,
}
use hermez_node.Common.L1Tx
use hermez_node.Common.L1Tx.{L1Tx, type_of}
use hermez_node.Common.L1Tx.Types.{
  type_of_deposit, type_of_deposit_transfer, type_of_force_transfer, type_of_creation_transfer,
  type_of_l1,
}
use hermez_node.TxProcessor.State.{State}
use hermez_node.TxProcessor.Monad.{Action, ◌>>=◌}
use hermez_node.TxProcessor.Amounts.{compute_effective_amounts, full_amounts}
use hermez_node.TxProcessor.Amounts.Lowered.{Lowered, compute_effective_amounts-Lowered}
use hermez_node.TxProcessor.Amounts.Checks.{
  compute_effective_amounts_covered, compute_effective_amounts_deposit,
}
use hermez_node.TxProcessor.Apply.{
  apply_create_account, apply_deposit, apply_create_account_deposit_transfer, apply_transfer,
}
use hermez_node.TxProcessor.Process.{
  Processed, process_l1_tx, switch_l1, created_account, is_l1_type,
}
use hermez_node.TxProcessor.Steps.{bind_ok}
use hermez_node.TxProcessor.Totals.{total, AllNonneg}
use hermez_node.TxProcessor.Totals.Transfers.{accounts_of}
use hermez_node.TxProcessor.Conservation.Creations.{apply_create_account-total}
use hermez_node.TxProcessor.Conservation.Facts.{
  with_amounts, Facts, Enters, created_account_ok, sender_in_token, receiver_in_token,
  account_in_token, lowered_nonneg, IsL1-is_l1_type,
}
use hermez_node.TxProcessor.Conservation.Kinds.{
  deposit-Enters, deposit_transfer-Enters, force_transfer-Enters, creation_transfer-Enters,
}

-- The switch over the types that an L1 transaction of a user can have, but the forced exit.
switch_l1-Enters :
    (t : ℕ) (tx : L1Tx) (x d orig : ℤ) (s : State) (p : Processed L1Tx) (s' : State) (ty : TxType)
    → type_of tx.from_idx tx.to_idx tx.deposit_amount ≡ ok ty
    → pos 0 ≤ℤ d
    → (same_type ty create_account_deposit ≡ false → Facts tx x d s)
    → (ty ≡ deposit → x ≡ pos 0)
    → (ty ≡ force_transfer → d ≡ pos 0)
    → ty ≢ force_exit
    → switch_l1 ty (with_amounts x d tx) orig s ≡ (ok p, s')
    → Enters t tx d s s'
switch_l1-Enters t tx x d orig s p s' ty typed hd facts no_amount no_deposit no_exit h =
    by_type ty typed facts no_amount no_deposit no_exit h
  where
    e : L1Tx
    e = with_amounts x d tx

    after :
        (m : Action (Unit {0}))
        → ((u : State) → m s ≡ (ok tt, u) → Enters t tx d s u)
        → (m >>= λ _. created_account e) s ≡ (ok p, s')
        → Enters t tx d s s'
    after m enters k =
        let (_, u, q, r) = bind_ok m (λ _. created_account e) s k in
        ap (λ (v : State). total t (accounts_of v)) (created_account_ok e u p s' r) ∙ enters u q

    by_type :
        (ty : TxType)
        → type_of tx.from_idx tx.to_idx tx.deposit_amount ≡ ok ty
        → (same_type ty create_account_deposit ≡ false → Facts tx x d s)
        → (ty ≡ deposit → x ≡ pos 0)
        → (ty ≡ force_transfer → d ≡ pos 0)
        → ty ≢ force_exit
        → switch_l1 ty e orig s ≡ (ok p, s')
        → Enters t tx d s s'
    by_type deposit ok_type f na nd ne k =
        after (apply_deposit e false)
          (λ u. deposit-Enters t tx x d s u (f refl) (type_of_deposit _ _ _ ok_type) (na refl)) k
    by_type create_account_deposit ok_type f na nd ne k =
        after (apply_create_account e) (λ u. apply_create_account-total t e s u hd) k
    by_type create_account_deposit_transfer ok_type f na nd ne k =
        let (to0, to1) = type_of_creation_transfer _ _ _ ok_type in
        after (apply_create_account_deposit_transfer e)
          (λ u. creation_transfer-Enters t tx x d s u (f refl) to0 to1) k
    by_type deposit_transfer ok_type f na nd ne k =
        let (from, to0, to1) = type_of_deposit_transfer _ _ _ ok_type in
        after (apply_deposit e true)
          (λ u. deposit_transfer-Enters t tx x d s u (f refl) from to0 to1) k
    by_type force_transfer ok_type f na nd ne k =
        let (from, to0, to1) = type_of_force_transfer _ _ _ ok_type in
        after (apply_transfer [] (L1Tx.generic_tx e) 0)
          (λ u. force_transfer-Enters t tx x d s u (f refl) from to0 to1 (nd refl)) k
    by_type force_exit ok_type f na nd ne k = absurd (ne refl)
    by_type exit ok_type f na nd ne k = absurd (type_of_l1 _ _ _ _ ok_type)
    by_type transfer ok_type f na nd ne k = absurd (type_of_l1 _ _ _ _ ok_type)
    by_type transfer_to_eth_addr ok_type f na nd ne k = absurd (type_of_l1 _ _ _ _ ok_type)
    by_type transfer_to_bjj ok_type f na nd ne k = absurd (type_of_l1 _ _ _ _ ok_type)
    by_type TxType.unset ok_type f na nd ne k = absurd (type_of_l1 _ _ _ _ ok_type)
    by_type TxType.other ok_type f na nd ne k = absurd (type_of_l1 _ _ _ _ ok_type)

-- An L1 transaction of the type that SetType gives it, other than a forced exit, with amounts that
-- are not negative, no amount in a plain deposit and no deposit in a forced transfer, when it is
-- processed successfully on a state without negative balances, adds to the state just its
-- effective deposit, in its own token, and leaves the total of every other token as it was: what
-- moves between the accounts is neither made nor lost.
pub process_l1_tx_total :
    (t : ℕ) (tx : L1Tx) (s : State) (p : Processed L1Tx) (s' : State)
    → type_of tx.from_idx tx.to_idx tx.deposit_amount ≡ ok tx.tx_type
    → pos 0 ≤ℤ tx.amount
    → pos 0 ≤ℤ tx.deposit_amount
    → (tx.tx_type ≡ deposit → tx.amount ≡ pos 0)
    → (tx.tx_type ≡ force_transfer → tx.deposit_amount ≡ pos 0)
    → tx.tx_type ≢ force_exit
    → AllNonneg (accounts_of s)
    → process_l1_tx tx s ≡ (ok p, s')
    → Enters t tx (compute_effective_amounts s.db tx).effective_deposit_amount s s'
unfolding process_l1_tx
process_l1_tx_total t tx s p s' typed ha hd no_amount no_deposit no_exit nonneg h =
    switch_l1-Enters t tx x d tx.amount s p s' tx.tx_type typed d_nonneg facts
      (λ is. lowered_zero low.amount (no_amount is))
      (λ is. lowered_zero low.deposit (no_deposit is)) no_exit
      (sym (ap (λ (e : L1Tx). switch_l1 tx.tx_type e tx.amount s) effective) ∙ h)
  where
    x : ℤ
    x = (compute_effective_amounts s.db tx).effective_amount

    d : ℤ
    d = (compute_effective_amounts s.db tx).effective_deposit_amount

    low : Lowered (full_amounts tx) (compute_effective_amounts s.db tx)
    low = compute_effective_amounts-Lowered s.db tx

    lowered_zero : {a b : ℤ} → (a ≡ b) ⊎ (a ≡ pos 0) → b ≡ pos 0 → a ≡ pos 0
    lowered_zero (inl q) z = q ∙ z
    lowered_zero (inr q) z = q

    effective :
        (if is_l1_type tx.tx_type then compute_effective_amounts s.db tx else tx)
        ≡ with_amounts x d tx
    effective = rw (IsL1-is_l1_type tx.tx_type (type_of_l1 _ _ _ _ typed)) low.rest

    d_nonneg : pos 0 ≤ℤ d
    d_nonneg = lowered_nonneg low.deposit hd

    facts : same_type tx.tx_type create_account_deposit ≡ false → Facts tx x d s
    facts other = record {
      typed = typed;
      amount_nonneg = lowered_nonneg low.amount ha;
      deposit_nonneg = d_nonneg;
      nonneg = nonneg;
      sender_token = λ a from e nz.
          sender_in_token s tx a from e (compute_effective_amounts_covered s.db tx other nz);
      deposit_token = λ a from e nz.
          account_in_token s tx.from_idx a tx.token_id e
            (compute_effective_amounts_deposit s.db tx other from nz);
      receiver_token = λ a to0 to1 e nz.
          receiver_in_token s tx a to0 to1 e (compute_effective_amounts_covered s.db tx other nz);
    }
