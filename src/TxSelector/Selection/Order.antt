-- ===== src/TxSelector/Selection/Order.antt =====
-- The filters and the order of v2/txselector/txselector.go keep to the groups of the given
-- transactions.
use hermez_node.Prelude.{
  ℕ, ◌≡◌, refl, Bool, true, false, ◌==◌, if◌then◌else◌, Bool-cases, inl, inr, List, [], ◌∷◌, ◌++◌,
  All, All-append, Option, none, some, arith, ltb,
}
use mathlib.Core.Path.{subst}
use hermez_node.Prelude.Dict.{Dict, lookup, insert}
use hermez_node.TxSelector.{PoolTx, is_atomic}
use hermez_node.TxSelector.Groups.{
  Runtime, filter_invalid_atomic_groups, sort_l2_txs, split_groups, filter_groups,
  is_atomic_group_valid, combine, sort_stable, insert_stable, add_to_group, average_fee,
  sort_single, sort_groups,
}
use hermez_node.TxSelector.Selection.Failing.{AllGood, AllGroupsGood}

module _ (good : ℕ → Bool) where
  -- What the model leaves open about Go's maps and sort.Slice neither loses nor makes transactions
  -- of other groups.
  pub record IsFaithful (rt : Runtime) : Type 0 where
    pub in_filter :
        (groups : Dict (List PoolTx))
        → AllGroupsGood good groups
        → AllGroupsGood good (rt.order_in_filter groups)
    pub in_sort :
        (groups : Dict (List PoolTx))
        → AllGroupsGood good groups
        → AllGroupsGood good (rt.order_in_sort groups)
    pub shuffled : (txs : List PoolTx) → AllGood good txs → AllGood good (rt.shuffle txs)

  insert-AllGroupsGood :
      (id : ℕ) (txs : List PoolTx) (groups : Dict (List PoolTx))
      → AllGood good txs
      → AllGroupsGood good groups
      → AllGroupsGood good (insert id txs groups)
  unfolding insert
  insert-AllGroupsGood id txs [] h a = (h, tt)
  insert-AllGroupsGood id txs ((j, group) ∷ groups) h a = elim (Bool-cases (j == id)) [
    | inl same ↦ rw (same, All) (h, a.1)
    | inr other ↦ rw (other, All) (a.0, insert-AllGroupsGood id txs groups h a.1)
  ]

  lookup-AllGood :
      (id : ℕ) (groups : Dict (List PoolTx)) {txs : List PoolTx}
      → AllGroupsGood good groups
      → lookup id groups ≡ some txs
      → AllGood good txs
  unfolding lookup
  lookup-AllGood id [] a e = absurd (ground arith)
  lookup-AllGood id ((j, group) ∷ groups) a e = elim (Bool-cases (j == id)) [
    | inl same ↦ subst (AllGood good) (ground (arith, same)) a.0
    | inr other ↦ lookup-AllGood id groups a.1 (rw other at e)
  ]

  add_to_group-AllGroupsGood :
      (t : PoolTx) (groups : Dict (List PoolTx))
      → good t.atomic_group_id ≡ true
      → AllGroupsGood good groups
      → AllGroupsGood good (add_to_group t groups)
  add_to_group-AllGroupsGood t groups h a = by_group (lookup t.atomic_group_id groups) refl
    where
      by_group :
          (o : Option (List PoolTx))
          → lookup t.atomic_group_id groups ≡ o
          → AllGroupsGood good (elim o [
            | none ↦ insert t.atomic_group_id (t ∷ []) groups
            | some txs ↦ insert t.atomic_group_id (txs ++ (t ∷ [])) groups
          ])
      by_group none e = insert-AllGroupsGood t.atomic_group_id (t ∷ []) groups (h, tt) a
      by_group (some txs) e =
          insert-AllGroupsGood t.atomic_group_id (txs ++ (t ∷ [])) groups
            (All-append (λ t. good t.atomic_group_id ≡ true) txs (t ∷ [])
              (lookup-AllGood t.atomic_group_id groups a e) (h, tt))
            a

  split_groups-AllGood :
      (txs single : List PoolTx) (groups : Dict (List PoolTx))
      → AllGood good txs
      → AllGood good single
      → AllGroupsGood good groups
      → AllGood good (split_groups txs single groups).0
        × AllGroupsGood good (split_groups txs single groups).1
  unfolding split_groups
  split_groups-AllGood [] single groups h s a = (s, a)
  split_groups-AllGood (t ∷ ts) single groups h s a =
      split_groups-AllGood ts (if is_atomic t then single else single ++ (t ∷ []))
        (if is_atomic t then add_to_group t groups else groups) h.1 (by_single (is_atomic t))
        (by_group (is_atomic t))
    where
      by_single : (b : Bool) → AllGood good (if b then single else single ++ (t ∷ []))
      by_single true = s
      by_single false = All-append (λ t. good t.atomic_group_id ≡ true) single (t ∷ []) s (h.0, tt)

      by_group : (b : Bool) → AllGroupsGood good (if b then add_to_group t groups else groups)
      by_group true = add_to_group-AllGroupsGood t groups h.0 a
      by_group false = a

  filter_groups-AllGood :
      (groups : Dict (List PoolTx)) (to_process filtered : List PoolTx)
      → AllGroupsGood good groups
      → AllGood good to_process
      → AllGood good (filter_groups groups to_process filtered).0
  unfolding filter_groups
  filter_groups-AllGood [] to_process filtered a p = p
  filter_groups-AllGood ((id, group) ∷ groups) to_process filtered a p =
      filter_groups-AllGood groups _ _ a.1 (by_valid (is_atomic_group_valid group))
    where
      by_valid : (b : Bool) → AllGood good (if b then to_process ++ group else to_process)
      by_valid true = All-append (λ t. good t.atomic_group_id ≡ true) to_process group p a.0
      by_valid false = p

  insert_stable-All :
      {A : Type 0} (P : A → Type 0) (before : A → A → Bool) (x : A) (ys : List A)
      → P x
      → All P ys
      → All P (insert_stable before x ys)
  unfolding insert_stable
  insert_stable-All P before x [] h a = (h, tt)
  insert_stable-All P before x (y ∷ ys) h a = elim (Bool-cases (before y x)) [
    | inl first ↦ rw (first, All) (a.0, insert_stable-All P before x ys h a.1)
    | inr last ↦ rw (last, All) (h, a)
  ]

  sort_stable-All :
      {A : Type 0} (P : A → Type 0) (before : A → A → Bool) (xs : List A)
      → All P xs
      → All P (sort_stable before xs)
  unfolding sort_stable
  sort_stable-All P before [] a = tt
  sort_stable-All P before (x ∷ xs) a =
      insert_stable-All P before x (sort_stable before xs) a.0 (sort_stable-All P before xs a.1)

  combine-AllGood :
      (rt : Runtime) (single : List PoolTx) (groups : Dict (List PoolTx))
      → AllGood good single
      → AllGroupsGood good groups
      → AllGood good (combine rt single groups)
  unfolding combine
  combine-AllGood rt [] [] s a = tt
  combine-AllGood rt [] ((id, group) ∷ groups) s a =
      All-append (λ t. good t.atomic_group_id ≡ true) group (combine rt [] groups) a.0
        (combine-AllGood rt [] groups s a.1)
  combine-AllGood rt (t ∷ ts) [] s a = s
  combine-AllGood rt (t ∷ ts) ((id, group) ∷ groups) s a =
      by_fee (rt.greater t.absolute_fee (average_fee rt group))
        (t ∷ combine rt ts ((id, group) ∷ groups)) (group ++ combine rt (t ∷ ts) groups)
        (s.0, combine-AllGood rt ts ((id, group) ∷ groups) s.1 a)
        (All-append (λ t. good t.atomic_group_id ≡ true) group (combine rt (t ∷ ts) groups) a.0
          (combine-AllGood rt (t ∷ ts) groups s a.1))
    where
      by_fee :
          (b : Bool) (xs ys : List PoolTx)
          → AllGood good xs
          → AllGood good ys
          → AllGood good (if b then xs else ys)
      by_fee true xs ys x y = x
      by_fee false xs ys x y = y

  module _ (rt : Runtime) (faithful : IsFaithful rt) where
    pub filter_invalid_atomic_groups-AllGood :
        (txs : List PoolTx)
        → AllGood good txs
        → AllGood good (filter_invalid_atomic_groups rt txs).0
    unfolding filter_invalid_atomic_groups
    filter_invalid_atomic_groups-AllGood txs h =
        let p = split_groups-AllGood txs [] [] h tt tt in
        filter_groups-AllGood (rt.order_in_filter (split_groups txs [] []).1)
          (split_groups txs [] []).0 [] (faithful.in_filter (split_groups txs [] []).1 p.1) p.0

    pub sort_l2_txs-AllGood :
        (txs : List PoolTx) → AllGood good txs → AllGood good (sort_l2_txs rt txs)
    unfolding sort_l2_txs
    sort_l2_txs-AllGood txs h =
        let p = split_groups-AllGood txs [] [] h tt tt in
        let single = (split_groups txs [] []).0 in
        let groups = (split_groups txs [] []).1 in
        combine-AllGood rt (sort_single rt single) (sort_groups rt (rt.order_in_sort groups))
          (sort_stable-All (λ t. good t.atomic_group_id ≡ true)
            (λ (a b : PoolTx). ltb a.l2.nonce b.l2.nonce)
            (rt.shuffle
              (sort_stable (λ (a b : PoolTx). rt.greater a.absolute_fee b.absolute_fee) single))
            (faithful.shuffled
              (sort_stable (λ (a b : PoolTx). rt.greater a.absolute_fee b.absolute_fee) single)
              (sort_stable-All (λ t. good t.atomic_group_id ≡ true)
                (λ (a b : PoolTx). rt.greater a.absolute_fee b.absolute_fee) single p.0)))
          (sort_stable-All (λ (e : ℕ × List PoolTx). AllGood good e.1)
            (λ (a b : ℕ × List PoolTx). rt.greater (average_fee rt a.1) (average_fee rt b.1))
            (rt.order_in_sort groups) (faithful.in_sort groups p.1))
