-- ===== src/TxSelector/Groups.antt =====
-- The filters and the order of v2/txselector/txselector.go, and RequestOffset2RelativePosition of
-- v2/api/atomicpool.go. What Go leaves open or the model has no type for is a parameter (`Runtime`):
-- the order in which each `range` loop reads a map of groups, the order of equal elements in
-- sort.Slice, and the float64 numbers, which are bit patterns with their comparison, sum and quotient.
use hermez_node.Prelude.{
  ℕ, ◌+◌, Bool, true, false, not, ltb, leb, ◌==◌, ◌&&◌, if◌then◌else◌, Option, none, some, List, [],
  ◌∷◌, ◌++◌, length, get_elem?,
}
use hermez_node.Prelude.Int.{ℤ, pos, negsuc, ◌+ℤ◌, is_zero, ◌-ℤ◌}
use hermez_node.Prelude.Dict.{Dict, lookup, insert}
use hermez_node.Prelude.Result.{Result, ok, err, not_atomic, invalid_rq_offset}
use hermez_node.Common.PoolL2Tx.{PoolL2Tx}
use hermez_node.TxSelector.{
  PoolTx, is_atomic, Reason, no_info, unselectable_group, invalid_atomic_group,
}
use hermez_node.TxSelector.Loop.{FailedGroup, with_info}

pub record Runtime : Type 0 where
  -- a map, as the `range` loops of `filterInvalidAtomicGroups` and of `sortL2Txs` read it
  pub order_in_filter : Dict (List PoolTx) → Dict (List PoolTx)
  pub order_in_sort : Dict (List PoolTx) → Dict (List PoolTx)
  -- what sort.Slice does beside sorting
  pub shuffle : List PoolTx → List PoolTx
  pub greater : ℕ → ℕ → Bool
  pub add : ℕ → ℕ → ℕ
  -- the quotient by a number of transactions
  pub div : ℕ → ℕ → ℕ

-- `setInfoForFailedAtomicTx`
abbrev pub info_for_failed : FailedGroup → PoolTx → Reason
info_for_failed g t =
    if t.tx_id == g.failed_tx_id
    then unselectable_group t.atomic_group_id g.failed_tx_id g.reason
    else no_info

unfoldable pub find_failed : ℕ → List FailedGroup → Option FailedGroup
find_failed id [] = none
find_failed id (g ∷ gs) = if g.id == id then some g else find_failed id gs

-- `filterFailedAtomicGroups`: the transactions to process, and those that are filtered out
unfoldable pub filter_failed_atomic_groups :
    List PoolTx → List FailedGroup → List PoolTx × List PoolTx
unfolding find_failed
filter_failed_atomic_groups [] failed = ([], [])
filter_failed_atomic_groups (t ∷ ts) failed =
    let (to_process, filtered) = filter_failed_atomic_groups ts failed in
    if not (is_atomic t)
    then (t ∷ to_process, filtered)
    else elim (find_failed t.atomic_group_id failed) [
      | none ↦ (t ∷ to_process, filtered)
      | some g ↦ (to_process, with_info (info_for_failed g t) t ∷ filtered)
    ]

-- `RequestOffset2RelativePosition`
unfoldable pub request_offset_2_relative_position : ℕ → Result ℤ
request_offset_2_relative_position offset =
    if offset == 0
    then err not_atomic
    else if leb offset 3
    then ok (pos offset)
    else if leb offset 7
    then ok (pos offset -ℤ pos 8)
    else err invalid_rq_offset

-- The transaction at an integer position, if there is one.
abbrev pub at_position : List PoolTx → ℤ → Option PoolTx
at_position txs (pos n) = get_elem? txs n
at_position txs (negsuc n) = none

-- the fields that a transaction requires of another
abbrev pub requests : PoolL2Tx → PoolL2Tx → Bool
requests tx other =
    tx.rq_from_idx == other.from_idx
    && tx.rq_to_idx == other.to_idx
    && tx.rq_to_eth_addr == other.to_eth_addr
    && tx.rq_to_bjj == other.to_bjj
    && tx.rq_token_id == other.token_id
    && tx.rq_fee == other.fee
    && tx.rq_nonce == other.nonce
    && is_zero (tx.rq_amount -ℤ other.amount)

-- one round of `isAtomicGroupValid`
unfoldable pub has_requested : List PoolTx → ℕ → PoolTx → Bool
unfolding request_offset_2_relative_position ◌+ℤ◌ ◌-ℤ◌
has_requested group i t = elim (request_offset_2_relative_position t.l2.rq_offset) [
  | err _ ↦ false
  | ok relative ↦ elim (at_position group (pos i +ℤ relative)) [
    | none ↦ false
    | some other ↦ requests t.l2 other.l2
  ]
]

abbrev pub all_requested : List PoolTx → ℕ → List PoolTx → Bool
all_requested group i [] = true
all_requested group i (t ∷ ts) = has_requested group i t && all_requested group (i + 1) ts

-- `isAtomicGroupValid`
unfoldable pub is_atomic_group_valid : List PoolTx → Bool
unfolding has_requested
is_atomic_group_valid group = all_requested group 0 group

-- A map of groups with one more transaction.
abbrev pub add_to_group : PoolTx → Dict (List PoolTx) → Dict (List PoolTx)
add_to_group t groups = elim (lookup t.atomic_group_id groups) [
  | none ↦ insert t.atomic_group_id (t ∷ []) groups
  | some txs ↦ insert t.atomic_group_id (txs ++ (t ∷ [])) groups
]

-- The transactions that are in no group, and the groups.
unfoldable pub split_groups :
    List PoolTx → List PoolTx → Dict (List PoolTx) → List PoolTx × Dict (List PoolTx)
unfolding lookup insert
split_groups [] single groups = (single, groups)
split_groups (t ∷ ts) single groups =
    split_groups ts (if is_atomic t then single else single ++ (t ∷ []))
      (if is_atomic t then add_to_group t groups else groups)

unfoldable pub mark_invalid : List PoolTx → List PoolTx
mark_invalid [] = []
mark_invalid (t ∷ ts) = with_info invalid_atomic_group t ∷ mark_invalid ts

-- the second loop of `filterInvalidAtomicGroups`
unfoldable pub filter_groups :
    Dict (List PoolTx) → List PoolTx → List PoolTx → List PoolTx × List PoolTx
unfolding is_atomic_group_valid mark_invalid
filter_groups [] to_process filtered = (to_process, filtered)
filter_groups ((id, group) ∷ groups) to_process filtered =
    filter_groups groups (if is_atomic_group_valid group then to_process ++ group else to_process)
      (if is_atomic_group_valid group then filtered else filtered ++ mark_invalid group)

-- `sort.SliceStable` by "comes before"
module _ {A : Type 0} (before : A → A → Bool) where
  unfoldable pub insert_stable : A → List A → List A
  insert_stable x [] = x ∷ []
  insert_stable x (y ∷ ys) =
      let rest = insert_stable x ys in if before y x then y ∷ rest else x ∷ y ∷ ys

  unfoldable pub sort_stable : List A → List A
  unfolding insert_stable
  sort_stable [] = []
  sort_stable (x ∷ xs) = insert_stable x (sort_stable xs)

module _ (rt : Runtime) where
  -- `filterInvalidAtomicGroups`
  unfoldable pub filter_invalid_atomic_groups : List PoolTx → List PoolTx × List PoolTx
  unfolding split_groups filter_groups
  filter_invalid_atomic_groups txs =
      let (single, groups) = split_groups txs [] [] in
      filter_groups (rt.order_in_filter groups) single []

  abbrev pub total_fee : ℕ → List PoolTx → ℕ
  total_fee acc [] = acc
  total_fee acc (t ∷ ts) = total_fee (rt.add acc t.absolute_fee) ts

  -- `calculateAtomicGroupsAverageFee` at one group: the first fee, with the others added in order
  unfoldable pub average_fee : List PoolTx → ℕ
  average_fee [] = 0
  average_fee (t ∷ ts) = rt.div (total_fee t.absolute_fee ts) (length ts + 1)

  -- the groups by their average fee
  abbrev pub sort_groups : Dict (List PoolTx) → Dict (List PoolTx)
  sort_groups =
      sort_stable (λ (a b : ℕ × List PoolTx). rt.greater (average_fee a.1) (average_fee b.1))

  -- the others by fee, and then by nonce
  abbrev pub sort_single : List PoolTx → List PoolTx
  sort_single txs =
      sort_stable (λ (a b : PoolTx). ltb a.l2.nonce b.l2.nonce)
        (rt.shuffle (sort_stable (λ (a b : PoolTx). rt.greater a.absolute_fee b.absolute_fee) txs))

  -- the loop of `sortL2Txs` that combines both, and the two after it
  unfoldable pub combine : List PoolTx → Dict (List PoolTx) → List PoolTx
  unfolding average_fee
  combine [] [] = []
  combine [] ((id, group) ∷ groups) = group ++ combine [] groups
  combine (t ∷ ts) [] = t ∷ ts
  combine (t ∷ ts) ((id, group) ∷ groups) =
      let next_single = t ∷ combine ts ((id, group) ∷ groups) in
      let next_group = group ++ combine (t ∷ ts) groups in
      if rt.greater t.absolute_fee (average_fee group) then next_single else next_group

  -- `sortL2Txs`
  unfoldable pub sort_l2_txs : List PoolTx → List PoolTx
  unfolding split_groups sort_stable combine
  sort_l2_txs txs =
      let (single, groups) = split_groups txs [] [] in
      combine (sort_single single) (sort_groups (rt.order_in_sort groups))
