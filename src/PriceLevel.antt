-- ===== src/PriceLevel.antt =====
-- order_forge/price_level.h and .cpp: the orders that rest at one price, oldest first.
pub mod Fill
pub mod Orders
pub mod Queue
pub mod RoundTrip
pub mod Swept
pub mod Trace
use order_forge_matching_eng.Common.{
  ℕ, Bool, true, false, not, ◌==◌, if◌then◌else◌, Option, none, some, ◌>>=◌, List, [], ◌∷◌, ◌++◌,
}
use order_forge_matching_eng.Common.Int.{eqb_ℤ}
use order_forge_matching_eng.ScaledInt.{Quantity, Price, add_assign, sub_assign}
use order_forge_matching_eng.Enums.{Side, Symbol, OrderId, is_filled}
use order_forge_matching_eng.Order.{Order}
use order_forge_matching_eng.MatchingEngine
use order_forge_matching_eng.MatchingEngine.{
  MatchingEngine, has_remaining_qty, add_level_to_remove_orders,
}
use order_forge_matching_eng.NodeList
use order_forge_matching_eng.NodeList.{NodeList}

pub record PriceLevelUpdate : Type 0 where
  pub symbol : Symbol
  pub price : Price
  pub total_qty : Quantity
  pub side : Side

pub record PriceLevel : Type 0 where
  pub symbol : Symbol
  pub price : Price
  pub total_qty : Quantity
  pub side : Side
  pub order_cont : NodeList Order
  -- the marked nodes, by their ids
  pub orders_to_be_removed : List OrderId

unfoldable pub price_level : Symbol → Price → Side → PriceLevel
price_level symbol price side = record {
  symbol = symbol;
  price = price;
  total_qty = 0;
  side = side;
  order_cont = [];
  orders_to_be_removed = [];
}

-- `assert`: `none` stands for the abort.
abbrev pub assert : Bool → Option (Unit {0})
assert true = some tt
assert false = none

abbrev pub update : PriceLevel → Symbol → PriceLevelUpdate
update l symbol = record {
  symbol = symbol;
  price = l.price;
  total_qty = l.total_qty;
  side = l.side;
}

-- The assertions passed: a duplicate id changes nothing.
unfoldable pub insert_order : PriceLevel → Order → PriceLevel × PriceLevelUpdate
insert_order l order =
    if NodeList.contains order.order_id l.order_cont
    then (l, update l order.symbol)
    else let l' = record l {
      order_cont = NodeList.push order.order_id order l.order_cont;
      total_qty = add_assign l.total_qty order.remaining_qty;
    } in
      (l', update l' l'.symbol)

unfoldable pub add_order : PriceLevel → Order → Option (PriceLevel × PriceLevelUpdate)
add_order l order = do
  _ ← assert (not (order.order_id == 0))
  _ ← assert (eqb_ℤ order.price l.price)
  some (insert_order l order)

unfoldable pub remove_order : PriceLevel → OrderId → PriceLevel × PriceLevelUpdate
remove_order l id =
    let l' : PriceLevel = elim (NodeList.find id l.order_cont) [
      | some order ↦ record l {
        total_qty = sub_assign l.total_qty order.remaining_qty;
        order_cont = NodeList.remove id l.order_cont;
      }
      | none ↦ l
    ] in
    (l', update l' l'.symbol)

-- `for (auto node : orders_to_be_removed_) order_cont.remove_node(node)`
unfoldable pub remove_nodes : List OrderId → NodeList Order → NodeList Order
remove_nodes [] nodes = nodes
remove_nodes (id ∷ ids) nodes = remove_nodes ids (NodeList.remove id nodes)

unfoldable pub remove_marked_order_nodes : PriceLevel → PriceLevel
remove_marked_order_nodes l = record l {
  order_cont = remove_nodes l.orders_to_be_removed l.order_cont;
  orders_to_be_removed = [];
}

-- The body of the loop of `match_order`, at a node that is matched.
unfoldable pub match_node :
    MatchingEngine → PriceLevel → OrderId → Order → MatchingEngine × PriceLevel × (ℕ × Order)
match_node e l id order =
    let (e', order', removed_qty) = MatchingEngine.match_order e order in
    (
      e',
      record l {
        total_qty = sub_assign l.total_qty removed_qty;
        orders_to_be_removed =
            if is_filled order'.status
            then l.orders_to_be_removed ++ id ∷ []
            else l.orders_to_be_removed;
      },
      (id, order'),
    )

-- Only a crossing order that is not used up is matched.
unfoldable pub visit_node :
    MatchingEngine → PriceLevel → ℕ × Order → MatchingEngine × PriceLevel × (ℕ × Order)
visit_node e l (id, order) =
    if has_remaining_qty e then match_node e l id order else (e, l, (id, order))

-- The loop over the nodes; the list of the visited nodes comes back.
unfoldable pub match_nodes :
    MatchingEngine → PriceLevel → NodeList Order → MatchingEngine × PriceLevel × NodeList Order
match_nodes e l [] = (e, l, [])
match_nodes e l (node ∷ nodes) =
    let (e₁, l₁, node') = visit_node e l node in
    let (e₂, l₂, nodes') = match_nodes e₁ l₁ nodes in (e₂, l₂, node' ∷ nodes')

unfoldable pub match_order :
    PriceLevel → MatchingEngine → MatchingEngine × PriceLevel × PriceLevelUpdate
match_order l e =
    let (e', l', nodes) = match_nodes e l l.order_cont in
    let matched = record l' { order_cont = nodes } in
    (
      if matched.total_qty == l.total_qty then e' else add_level_to_remove_orders e' l.price,
      matched,
      update matched matched.symbol,
    )
