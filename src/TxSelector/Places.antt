-- ===== src/TxSelector/Places.antt =====
-- Where the transactions of a pass of `processL2Txs` (v2/txselector/txselector.go) end up.
use hermez_node.Prelude.{ℕ, ◌+◌, ◌≡◌, refl, ap, List, [], ◌∷◌, ◌++◌, arith, Bool-cases, inl, inr}
use hermez_node.TxSelector.{PoolTx, Env, is_atomic, no_available_slots}
use hermez_node.TxSelector.Loop.{
  Loop, Step, go, stop, put_aside, discard, fatal, with_info, select_tx, done, settle, no_slots,
  process_l2_txs,
}
use hermez_node.TxSelector.Steps.{done-inj, process_l2_txs-rule}
use hermez_node.TxSelector.Frames.{SameTx, SameLists, Framed, select_tx-Framed}

-- The sum of the weights of the transactions, by identifier.
unfoldable pub weigh : (ℕ → ℕ) → List PoolTx → ℕ
weigh w [] = 0
weigh w (t ∷ ts) = w t.tx_id + weigh w ts

pub weigh-append : (w : ℕ → ℕ) (xs ys : List PoolTx) → weigh w (xs ++ ys) ≡ weigh w xs + weigh w ys
unfolding weigh
weigh-append w [] ys = omega arith
weigh-append w (x ∷ xs) ys = omega (arith, weigh-append w xs ys)

-- The weight of what a pass has put on its lists.
unfoldable pub placed : (ℕ → ℕ) → Loop → ℕ
placed w l = weigh w l.selected + weigh w l.non_selected + weigh w l.unforgeable

weigh_one : (w : ℕ → ℕ) (t : PoolTx) → weigh w (t ∷ []) ≡ w t.tx_id
unfolding weigh
weigh_one w t = omega arith

module _ (w : ℕ → ℕ) where
  placed_same : (b l : Loop) → SameLists b l → placed w l ≡ placed w b
  unfolding placed
  placed_same b l (s, n, u) = rw (s, n, u) refl

  settle-placed :
      (t : PoolTx) (b k : Loop) (m : Step PoolTx)
      → Framed t b (SameTx t) m
      → settle m ≡ done k
      → placed w k ≡ placed w b + w t.tx_id
  unfolding settle placed
  settle-placed t b k (go u l) (same, p) e =
      let kept = placed_same b l p in
      done-inj (λ z. placed w z ≡ placed w b + w t.tx_id) e
        (omega (arith, kept, weigh-append w l.selected (u ∷ []), weigh_one w u, ap w same.0))
  settle-placed t b k (stop (put_aside why u) l) (same, p) e = elim (Bool-cases (is_atomic u)) [
    | inl atomic ↦ absurd (ground (arith, atomic))
    | inr single ↦
        let kept = placed_same b l p in
        done-inj (λ z. placed w z ≡ placed w b + w t.tx_id) (rw single at e)
          (omega (
            arith,
            kept,
            weigh-append w l.non_selected (with_info why u ∷ []),
            weigh_one w (with_info why u),
            ap w same.0,
          ))
  ]
  settle-placed t b k (stop (discard why u) l) (same, p) e = elim (Bool-cases (is_atomic u)) [
    | inl atomic ↦ absurd (ground (arith, atomic))
    | inr single ↦
        let kept = placed_same b l p in
        done-inj (λ z. placed w z ≡ placed w b + w t.tx_id) (rw single at e)
          (omega (
            arith,
            kept,
            weigh-append w l.unforgeable (with_info why u ∷ []),
            weigh_one w (with_info why u),
            ap w same.0,
          ))
  ]
  settle-placed t b k (stop (fatal x) l) h e = absurd (ground arith)

  no_slots-placed :
      (t : PoolTx) (rest : List PoolTx) (l k : Loop)
      → no_slots t rest l ≡ done k
      → placed w k ≡ placed w l + w t.tx_id + weigh w rest
  unfolding no_slots placed weigh
  no_slots-placed t rest l k e = elim (Bool-cases (is_atomic t)) [
    | inl atomic ↦ absurd (ground (arith, atomic))
    | inr single ↦
        done-inj (λ z. placed w z ≡ placed w l + w t.tx_id + weigh w rest) (rw single at e)
          (omega (arith, weigh-append w l.non_selected (with_info no_available_slots t ∷ rest)))
  ]

-- A pass over transactions that ends without an error puts each of them in exactly one place, as
-- often as it was given: for any weights of their identifiers, the weight of the selected, the put
-- aside and the discarded ones together has grown by the weight of the given ones.
pub process_l2_txs-placed :
    (w : ℕ → ℕ) (env : Env) (txs : List PoolTx) (l l' : Loop)
    → process_l2_txs env txs l ≡ done l'
    → placed w l' ≡ placed w l + weigh w txs
unfolding weigh
process_l2_txs-placed w env txs l l' e = omega (
  arith,
  process_l2_txs-rule env (λ rest k. placed w k + weigh w rest ≡ placed w l + weigh w txs)
      (λ t rest m k c room z.
        omega (arith, c, settle-placed w t m k (select_tx env t m) (select_tx-Framed env t m) z))
      (λ t rest m k c z. omega (arith, c, no_slots-placed w t rest m k z)) txs l l' refl e,
)
