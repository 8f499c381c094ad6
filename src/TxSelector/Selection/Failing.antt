-- ===== src/TxSelector/Selection/Failing.antt =====
-- Which atomic groups the functions of v2/txselector/txselector.go can make fail: a property of the
-- groups of the given transactions is one of the failed group.
use hermez_node.Prelude.{
  ℕ, ◌≡◌, ◌≢◌, sym, ap, ◌∙◌, Bool, true, false, Bool-cases, inl, inr, List, [], ◌∷◌, All,
  All-append, arith,
}
use mathlib.Core.Path.{subst}
use hermez_node.Prelude.Dict.{Dict}
use hermez_node.TxSelector.{PoolTx, Env, is_atomic, can_add_l2_tx}
use hermez_node.TxSelector.Loop.{
  Loop, FailedGroup, Outcome, done, group_failed, failed, process_l2_txs, Step, go, stop, put_aside,
  discard, fatal, settle, no_slots, select_tx, with_info,
}
use hermez_node.TxSelector.Steps.{process_l2_txs-rule, done-inj}
use hermez_node.TxSelector.Frames.{Framed, SameTx, select_tx-Framed}

module _ (good : ℕ → Bool) where
  -- Every transaction is of a group with the property.
  abbrev pub AllGood : List PoolTx → Type 0
  AllGood txs = All (λ t. good t.atomic_group_id ≡ true) txs

  abbrev pub AllGroupsGood : Dict (List PoolTx) → Type 0
  AllGroupsGood groups = All (λ (e : ℕ × List PoolTx). AllGood e.1) groups

  abbrev GoodGroup : FailedGroup → Type 0
  GoodGroup g = (good g.id ≡ true) × (g.id ≢ 0)

  settle-GoodGroup :
      (t : PoolTx) (b : Loop) (m : Step PoolTx) (g : FailedGroup)
      → good t.atomic_group_id ≡ true
      → Framed t b (SameTx t) m
      → settle m ≡ group_failed g
      → GoodGroup g
  unfolding settle
  settle-GoodGroup t b (go u l) g h f e = absurd (ground arith)
  settle-GoodGroup t b (stop (fatal w) l) g h f e = absurd (ground arith)
  settle-GoodGroup t b (stop (put_aside why u) l) g h (same, p) e =
      elim (Bool-cases (is_atomic u)) [
        | inr single ↦ absurd (ground (arith, single))
        | inl atomic ↦ ground (arith, same.1, atomic)
      ]
  settle-GoodGroup t b (stop (discard why u) l) g h (same, p) e = elim (Bool-cases (is_atomic u)) [
    | inr single ↦ absurd (ground (arith, single))
    | inl atomic ↦ ground (arith, same.1, atomic)
  ]

  no_slots-GoodGroup :
      (t : PoolTx) (rest : List PoolTx) (l : Loop) (g : FailedGroup)
      → good t.atomic_group_id ≡ true
      → no_slots t rest l ≡ group_failed g
      → GoodGroup g
  unfolding no_slots
  no_slots-GoodGroup t rest l g h e = elim (Bool-cases (is_atomic t)) [
    | inr single ↦ absurd (ground (arith, single))
    | inl atomic ↦ ground (arith, atomic)
  ]

  -- The group that fails in a pass is one of the given transactions'.
  pub process_l2_txs-GoodGroup :
      (env : Env) (txs : List PoolTx) (l : Loop) (g : FailedGroup)
      → AllGood txs
      → process_l2_txs env txs l ≡ group_failed g
      → GoodGroup g
  unfolding process_l2_txs
  process_l2_txs-GoodGroup env [] l g h e = absurd (ground arith)
  process_l2_txs-GoodGroup env (t ∷ rest) l g h e =
      by_room (process_l2_txs env rest) (λ k z. process_l2_txs-GoodGroup env rest k g h.1 z)
        (can_add_l2_tx l.n_l1 l.n_l2 env.selection_config) e
    where
      by_outcome :
          (next : Loop → Outcome)
          → ((k : Loop) → next k ≡ group_failed g → GoodGroup g)
          → (o : Outcome) → (o ≡ group_failed g → GoodGroup g)
          → (elim o [ done k ↦ next k | group_failed x ↦ group_failed x | failed w ↦ failed w ])
            ≡ group_failed g
          → GoodGroup g
      by_outcome next go_on (done k) here z = go_on k z
      by_outcome next go_on (group_failed x) here z = here z
      by_outcome next go_on (failed w) here z = absurd (ground arith)

      by_room :
          (next : Loop → Outcome)
          → ((k : Loop) → next k ≡ group_failed g → GoodGroup g)
          → (b : Bool)
          → (elim b [
            | false ↦ no_slots t rest l
            | true ↦ elim (settle (select_tx env t l)) [
              | done k ↦ next k
              | group_failed x ↦ group_failed x
              | failed w ↦ failed w
            ]
          ])
            ≡ group_failed g
          → GoodGroup g
      by_room next go_on false z = no_slots-GoodGroup t rest l g h.0 z
      by_room next go_on true z =
          by_outcome next go_on (settle (select_tx env t l))
            (λ q. settle-GoodGroup t l (select_tx env t l) g h.0 (select_tx-Framed env t l) q) z

  settle-AllGood :
      (t : PoolTx) (b k : Loop) (m : Step PoolTx)
      → good t.atomic_group_id ≡ true
      → AllGood b.non_selected
      → Framed t b (SameTx t) m
      → settle m ≡ done k
      → AllGood k.non_selected
  unfolding settle
  settle-AllGood t b k (go u l) h a (same, p) e =
      done-inj (λ z. AllGood z.non_selected) e (subst AllGood (sym p.1) a)
  settle-AllGood t b k (stop (fatal w) l) h a f e = absurd (ground arith)
  settle-AllGood t b k (stop (put_aside why u) l) h a (same, p) e =
      elim (Bool-cases (is_atomic u)) [
        | inl atomic ↦ absurd (ground (arith, atomic))
        | inr single ↦
            done-inj (λ z. AllGood z.non_selected) (rw single at e)
              (All-append (λ t. good t.atomic_group_id ≡ true) l.non_selected (with_info why u ∷ [])
                (subst AllGood (sym p.1) a) (ap good same.1 ∙ h, tt))
      ]
  settle-AllGood t b k (stop (discard why u) l) h a (same, p) e = elim (Bool-cases (is_atomic u)) [
    | inl atomic ↦ absurd (ground (arith, atomic))
    | inr single ↦
        done-inj (λ z. AllGood z.non_selected) (rw single at e) (subst AllGood (sym p.1) a)
  ]

  no_slots-AllGood :
      (t : PoolTx) (rest : List PoolTx) (l k : Loop)
      → AllGood (t ∷ rest)
      → AllGood l.non_selected
      → no_slots t rest l ≡ done k
      → AllGood k.non_selected
  unfolding no_slots
  no_slots-AllGood t rest l k h a e = elim (Bool-cases (is_atomic t)) [
    | inl atomic ↦ absurd (ground (arith, atomic))
    | inr single ↦
        done-inj (λ z. AllGood z.non_selected) (rw single at e)
          (All-append (λ t. good t.atomic_group_id ≡ true) l.non_selected (with_info _ t ∷ rest) a
            h)
  ]

  -- What a pass puts aside is of the groups of the given transactions.
  pub process_l2_txs-AllGood :
      (env : Env) (txs : List PoolTx) (l l' : Loop)
      → AllGood txs
      → AllGood l.non_selected
      → process_l2_txs env txs l ≡ done l'
      → AllGood l'.non_selected
  process_l2_txs-AllGood env txs l l' h a e =
      (process_l2_txs-rule env (λ rest k. AllGood rest × AllGood k.non_selected)
        (λ t rest m k c room z.
          (c.0.1, settle-AllGood t m k (select_tx env t m) c.0.0 c.1 (select_tx-Framed env t m) z))
        (λ t rest m k c z. (tt, no_slots-AllGood t rest m k c.0 c.1 z)) txs l l' (h, a) e).1
