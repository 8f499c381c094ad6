-- ===== src/TxSelector/Steps.antt =====
-- What a round of `processL2Txs` (v2/txselector/txselector.go) leaves, step by step.
use hermez_node.Prelude.{
  ◌+◌, ◌≡◌, refl, Bool, true, false, List, [], ◌∷◌, arith, Bool-cases, inl, inr, ◌==◌,
}
use mathlib.Core.Path.{subst}
use hermez_node.Prelude.Result.{Result, ok, err, Result-cases}
use hermez_node.Common.L1Tx.{L1Tx}
use hermez_node.StateDb.{get_account}
use hermez_node.TxProcessor.Enough.{check_enough_balance}
use hermez_node.TxProcessor.State.{State}
use hermez_node.TxProcessor.Process.{Processed, process_l1_tx}
use hermez_node.TxSelector.{PoolTx, Env, can_add_l2_tx}
use hermez_node.TxSelector.Loop.{
  Loop, Step, go, stop, put_aside, discard, fatal, Check, is_too_late, is_empty_exit, with_token,
  ◌>>=◌, check_tx, check_sender, run_l1, select_tx, Outcome, done, group_failed, failed, settle,
  no_slots, process_l2_txs,
}

-- A step either goes on with a loop that has one property, or puts its transaction aside with one
-- that has another; an error ends the whole pass.
abbrev pub Leaves : {A : Type 0} → (Loop → Type 0) → (Loop → Type 0) → Step A → Type 0
Leaves P Q (go a l) = P l
Leaves P Q (stop (fatal e) l) = Unit
Leaves P Q (stop (put_aside why t) l) = Q l
Leaves P Q (stop (discard why t) l) = Q l

pub bind-Leaves :
    {A B : Type 0} (P Q R : Loop → Type 0) (m : Check A) (f : A → Check B) (l : Loop)
    → Leaves P R (m l)
    → ((a : A) (t : Loop) → P t → Leaves Q R (f a t))
    → Leaves Q R ((m >>= f) l)
bind-Leaves {A} P Q R m f l h k = by_step (m l) h
  where
    by_step :
        (s : Step A) → Leaves P R s → Leaves Q R (elim s [ go a t ↦ f a t | stop x t ↦ stop x t ])
    by_step (go a t) h = k a t h
    by_step (stop x t) h = h

pub weaken-Leaves :
    {A : Type 0} (P Q R : Loop → Type 0) (m : Step A)
    → ((l : Loop) → Q l → R l)
    → Leaves P Q m
    → Leaves P R m
weaken-Leaves P Q R (go a l) k h = h
weaken-Leaves P Q R (stop (fatal e) l) k h = tt
weaken-Leaves P Q R (stop (put_aside why t) l) k h = k l h
weaken-Leaves P Q R (stop (discard why t) l) k h = k l h

-- The checks leave the loop as it is.
pub check_tx-Leaves : (P : Loop → Type 0) (t : PoolTx) (l : Loop) → P l → Leaves P P (check_tx t l)
unfolding check_tx
check_tx-Leaves P t l p = elim (Bool-cases (is_too_late t l.tp)) [
  | inl late ↦ rw late p
  | inr early ↦ elim (Bool-cases (is_empty_exit t)) [
    | inl empty ↦ rw (early, empty) p
    | inr some_amount ↦ rw (early, some_amount) p
  ]
]

pub check_sender-Leaves :
    (P : Loop → Type 0) (t : PoolTx) (l : Loop) → P l → Leaves P P (check_sender t l)
unfolding check_sender
check_sender-Leaves P t l p = elim (Result-cases (get_account t.l2.from_idx l.tp.db)) [
  | inr (e, missing) ↦ rw (missing, Leaves) tt
  | inl (a, found) ↦ elim (Bool-cases (check_enough_balance (with_token a.token_id t).l2 l.tp).0) [
    | inl enough ↦ elim (Bool-cases (t.l2.nonce == a.nonce)) [
      | inl same ↦ rw (found, enough, same, Leaves) p
      | inr other ↦ rw (found, enough, other, Leaves) p
    ]
    | inr short ↦ rw (found, short, Leaves) p
  ]
]

pub run_l1-Leaves :
    (P Q : Loop → Type 0) (tx : L1Tx) (l : Loop)
    → ((s : State) → P (record l { tp = s; n_l1 = l.n_l1 + 1 }))
    → Leaves P Q (run_l1 tx l)
run_l1-Leaves P Q tx l p = by_result (process_l1_tx tx l.tp)
  where
    by_result :
        (r : Result (Processed L1Tx) × State)
        → Leaves P Q (elim r.0 [
          | ok _ ↦ go tt (record l { tp = r.1; n_l1 = l.n_l1 + 1 })
          | err e ↦ stop (fatal e) (record l { tp = r.1 })
        ])
    by_result (ok a, s) = p s
    by_result (err e, s) = tt

pub done-inj : (P : Loop → Type 0) {a b : Loop} → done a ≡ done b → P a → P b
done-inj P {a} {b} e h = let q : a ≡ b = cc in subst P q h

-- The rule for a pass: what holds of the transactions that are left and of the loop.
pub process_l2_txs-rule :
    (env : Env) (P : List PoolTx → Loop → Type 0)
    → ((t : PoolTx) (rest : List PoolTx) (l k : Loop)
        → P (t ∷ rest) l
        → can_add_l2_tx l.n_l1 l.n_l2 env.selection_config ≡ true
        → settle (select_tx env t l) ≡ done k
        → P rest k)
    → ((t : PoolTx) (rest : List PoolTx) (l k : Loop)
        → P (t ∷ rest) l
        → no_slots t rest l ≡ done k
        → P [] k)
    → (txs : List PoolTx) (l l' : Loop) → P txs l
    → process_l2_txs env txs l ≡ done l'
    → P [] l'
unfolding process_l2_txs
process_l2_txs-rule env P step full [] l l' c e = done-inj (P []) e c
process_l2_txs-rule env P step full (t ∷ rest) l l' c e =
    by_room (process_l2_txs env rest) (λ k q z. process_l2_txs-rule env P step full rest k l' q z)
      (can_add_l2_tx l.n_l1 l.n_l2 env.selection_config) refl e
  where
    by_outcome :
        (next : Loop → Outcome)
        → ((k : Loop) → P rest k → next k ≡ done l' → P [] l')
        → (o : Outcome) → ((k : Loop) → o ≡ done k → P rest k)
        → (elim o [ done k ↦ next k | group_failed g ↦ group_failed g | failed w ↦ failed w ])
          ≡ done l'
        → P [] l'
    by_outcome next go_on (done k) h q = go_on k (h k refl) q
    by_outcome next go_on (group_failed g) h q = absurd (ground arith)
    by_outcome next go_on (failed w) h q = absurd (ground arith)

    by_room :
        (next : Loop → Outcome)
        → ((k : Loop) → P rest k → next k ≡ done l' → P [] l')
        → (b : Bool) → can_add_l2_tx l.n_l1 l.n_l2 env.selection_config ≡ b
        → (elim b [
          | false ↦ no_slots t rest l
          | true ↦ elim (settle (select_tx env t l)) [
            | done k ↦ next k
            | group_failed g ↦ group_failed g
            | failed w ↦ failed w
          ]
        ])
          ≡ done l'
        → P [] l'
    by_room next go_on false taken q = full t rest l l' c q
    by_room next go_on true room q =
        by_outcome next go_on (settle (select_tx env t l)) (λ k z. step t rest l k c room z) q
