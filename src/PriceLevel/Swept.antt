-- ===== src/PriceLevel/Swept.antt =====
-- A level that is matched and then swept, as `OrderBook::match_order` does to it.
use order_forge_matching_eng.Common.{◌-◌, ◌<◌, ◌≡◌, refl, inl, inr, Bool-cases, ◌==◌, arith}
use order_forge_matching_eng.ScaledInt.{u64_mod}
use order_forge_matching_eng.MatchingEngine.{
  MatchingEngine, remaining_qty, add_level_to_remove_orders,
}
use order_forge_matching_eng.PriceLevel.{PriceLevel, match_order, remove_marked_order_nodes}
use order_forge_matching_eng.PriceLevel.Queue.{open_qty, rest_nodes, open_qty-rest_nodes}
use order_forge_matching_eng.PriceLevel.Fill.{
  IsBalanced, filled_level, matched_level, met_level, match_order_lem, remove_marked-filled_level,
  matched_level-IsBalanced, remaining_qty-met_all,
}

remaining_qty-met_level :
    (l : PriceLevel) (e : MatchingEngine)
    → remaining_qty (met_level e l) ≡ remaining_qty e - open_qty l.order_cont
unfolding met_level add_level_to_remove_orders
remaining_qty-met_level l e = elim (Bool-cases ((l.total_qty - remaining_qty e) == l.total_qty)) [
  | inl same ↦ rw same (remaining_qty-met_all e l.order_cont)
  | inr changed ↦ rw changed (remaining_qty-met_all e l.order_cont)
]

-- A balanced level meets an engine whose remaining quantity is a machine word. Once the marked
-- nodes are removed, the level holds what the quantity leaves of its queue, it is balanced, and its
-- update has reported the quantity that is left on it.
pub match_order-rest_nodes :
    (l : PriceLevel) (e : MatchingEngine)
    → IsBalanced l
    → remaining_qty e < u64_mod
    → let (e', l', u) = match_order l e in
      let swept = remove_marked_order_nodes l' in
      (swept.order_cont ≡ rest_nodes (remaining_qty e) l.order_cont)
      × IsBalanced swept
      × (u.total_qty ≡ open_qty swept.order_cont)
      × (u.price ≡ l.price)
      × (remaining_qty e' ≡ remaining_qty e - open_qty l.order_cont)
unfolding matched_level filled_level
match_order-rest_nodes l e v h =
    rw (match_order_lem l e v h, remove_marked-filled_level (remaining_qty e) l)
      (
        refl,
        matched_level-IsBalanced (remaining_qty e) l v,
        omega (arith, v.total, open_qty-rest_nodes (remaining_qty e) l.order_cont),
        refl,
        remaining_qty-met_level l e,
      )
