-- ===== src/PriceLevel/Fill.antt =====
-- `PriceLevel::match_order` computed: its loop takes the crossing quantity down the queue, and with
-- the sweep of the marked nodes it leaves the rest of the queue.
use order_forge_matching_eng.Common.{
  ℕ, ◌-◌, ◌≤◌, ◌<◌, ◌≡◌, refl, min, ◌==◌, if◌then◌else◌, List, [], ◌∷◌, ◌++◌, All, arith,
  append-nil, append_assoc,
}
use order_forge_matching_eng.ScaledInt.{Quantity, Price, u64_mod, sub_assign}
use order_forge_matching_eng.Order.{Order}
use order_forge_matching_eng.MatchingEngine.{
  MatchingEngine, remaining_qty, add_level_to_remove_orders,
}
use order_forge_matching_eng.MatchingEngine.Fill.{matched_with, met, match_order-met}
use order_forge_matching_eng.NodeList.{NodeList}
use order_forge_matching_eng.PriceLevel.{
  PriceLevel, match_node, visit_node, match_nodes, match_order, remove_marked_order_nodes, update,
}
use order_forge_matching_eng.PriceLevel.Queue.{
  open_qty, fill_nodes, IsWord, All-IsWord, filled_ids, filled_ids-zero, rest_nodes,
  remove_nodes-fill_nodes, open_qty-rest_nodes,
}

-- The engine once it has gone down a queue.
unfoldable pub met_all : MatchingEngine → NodeList Order → MatchingEngine
met_all e [] = e
met_all e ((_, o) ∷ nodes) = met_all (if remaining_qty e == 0 then e else met e o) nodes

-- The level's total and its marks after that.
unfoldable pub marked : Quantity → NodeList Order → PriceLevel → PriceLevel
unfolding open_qty filled_ids
marked q nodes l = record l {
  total_qty = l.total_qty - min q (open_qty nodes);
  orders_to_be_removed = l.orders_to_be_removed ++ filled_ids q nodes;
}

visit_node-marked :
    (e : MatchingEngine) (l : PriceLevel) (id : ℕ) (o : Order)
    → o.remaining_qty < u64_mod
    → remaining_qty e < u64_mod
    → l.total_qty < u64_mod
    → o.remaining_qty ≤ l.total_qty
    → let q = remaining_qty e in
      visit_node e l (id, o) ≡ (
        if q == 0 then e else met e o,
        marked q ((id, o) ∷ []) l,
        (id, if q == 0 then o else matched_with q o),
      )
unfolding visit_node match_node marked matched_with sub_assign
visit_node-marked e l id o ho he hl fits =
    ground (arith, match_order-met e o, append-nil l.orders_to_be_removed)

remaining_qty-met :
    (e : MatchingEngine) (o : Order) → remaining_qty (met e o) ≡ remaining_qty e - o.remaining_qty
unfolding met
remaining_qty-met e o = refl

pub match_nodes_lem :
    (e : MatchingEngine) (l : PriceLevel) (nodes : NodeList Order)
    → All IsWord nodes
    → remaining_qty e < u64_mod
    → l.total_qty < u64_mod
    → open_qty nodes ≤ l.total_qty
    → let q = remaining_qty e in
      match_nodes e l nodes ≡ (met_all e nodes, marked q nodes l, fill_nodes q nodes)
unfolding match_nodes met_all marked fill_nodes
match_nodes_lem e l [] ws he hl fits = ground (arith, append-nil l.orders_to_be_removed)
match_nodes_lem e l ((id, o) ∷ nodes) ws he hl fits =
    let v = visit_node e l (id, o) in
    ground (
      arith,
      visit_node-marked e l id o,
      remaining_qty-met e o,
      filled_ids-zero nodes,
      append-nil l.orders_to_be_removed,
      append_assoc l.orders_to_be_removed (id ∷ [])
          (filled_ids (remaining_qty e - o.remaining_qty) nodes),
      match_nodes_lem v.0 v.1 nodes,
    )

-- The level's total is what its orders want, with no wrap-around, and no mark is left over.
pub record IsBalanced (l : PriceLevel) : Type 0 where
  pub total : l.total_qty ≡ open_qty l.order_cont
  pub bounded : l.total_qty < u64_mod
  pub unmarked : l.orders_to_be_removed ≡ []

-- The level after the loop, and after the sweep.
unfoldable pub filled_level : Quantity → PriceLevel → PriceLevel
filled_level q l = record l {
  total_qty = l.total_qty - q;
  order_cont = fill_nodes q l.order_cont;
  orders_to_be_removed = filled_ids q l.order_cont;
}

unfoldable pub matched_level : Quantity → PriceLevel → PriceLevel
matched_level q l = record l {
  total_qty = l.total_qty - q;
  order_cont = rest_nodes q l.order_cont;
  orders_to_be_removed = [];
}

unfoldable pub met_level : MatchingEngine → PriceLevel → MatchingEngine
met_level e l =
    let e' = met_all e l.order_cont in
    if (l.total_qty - remaining_qty e) == l.total_qty
    then e'
    else add_level_to_remove_orders e' l.price

-- `match_order` on a balanced level: the engine, the level and the update.
pub match_order_lem :
    (l : PriceLevel) (e : MatchingEngine)
    → IsBalanced l
    → remaining_qty e < u64_mod
    → let l' = filled_level (remaining_qty e) l in
      match_order l e ≡ (met_level e l, l', update l' l.symbol)
unfolding match_order met_level filled_level marked
match_order_lem l e v he = ground (arith, match_nodes_lem e l l.order_cont, All-IsWord l.order_cont)

pub remove_marked-filled_level :
    (q : Quantity) (l : PriceLevel)
    → remove_marked_order_nodes (filled_level q l) ≡ matched_level q l
unfolding remove_marked_order_nodes filled_level matched_level
remove_marked-filled_level q l = ground (arith, remove_nodes-fill_nodes q l.order_cont)

pub matched_level-IsBalanced :
    (q : Quantity) (l : PriceLevel) → IsBalanced l → IsBalanced (matched_level q l)
unfolding matched_level
matched_level-IsBalanced q l v = ground (arith, open_qty-rest_nodes q l.order_cont)

-- The levels that the engine names play no part while it goes down a queue.
abbrev pub with_levels : List Price → MatchingEngine → MatchingEngine
with_levels r e = record e { remove_levels = r }

pub met_all-with_levels :
    (r : List Price) (e : MatchingEngine) (nodes : NodeList Order)
    → met_all (with_levels r e) nodes ≡ with_levels r (met_all e nodes)
unfolding met_all met
met_all-with_levels r e [] = refl
met_all-with_levels r e ((id, o) ∷ nodes) =
    ground (arith, met_all-with_levels r e nodes, met_all-with_levels r (met e o) nodes)

pub remove_levels-met_all :
    (e : MatchingEngine) (nodes : NodeList Order)
    → (met_all e nodes).remove_levels ≡ e.remove_levels
unfolding met_all met
remove_levels-met_all e [] = refl
remove_levels-met_all e ((id, o) ∷ nodes) =
    ground (arith, remove_levels-met_all e nodes, remove_levels-met_all (met e o) nodes)

pub remaining_qty-met_all :
    (e : MatchingEngine) (nodes : NodeList Order)
    → remaining_qty (met_all e nodes) ≡ remaining_qty e - open_qty nodes
unfolding met_all open_qty
remaining_qty-met_all e [] = omega arith
remaining_qty-met_all e ((id, o) ∷ nodes) = ground (
  arith,
  remaining_qty-met e o,
  remaining_qty-met_all e nodes,
  remaining_qty-met_all (met e o) nodes,
)

pub met_all-zero :
    (e : MatchingEngine) (nodes : NodeList Order) → remaining_qty e ≡ 0 → met_all e nodes ≡ e
unfolding met_all
met_all-zero e [] h = refl
met_all-zero e ((id, o) ∷ nodes) h = ground (arith, met_all-zero e nodes)

pub met_all-append :
    (e : MatchingEngine) (xs ys : NodeList Order) → met_all e (xs ++ ys) ≡ met_all (met_all e xs) ys
unfolding met_all
met_all-append e [] ys = refl
met_all-append e ((id, o) ∷ xs) ys =
    met_all-append (if remaining_qty e == 0 then e else met e o) xs ys
