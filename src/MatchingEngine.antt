-- ===== src/MatchingEngine.antt =====
-- order_forge/matching_engine.h and .cpp. The engine holds references to the crossing order and to
-- its remaining quantity: here it holds the order, and the caller takes it back afterwards.
pub mod Fill
use order_forge_matching_eng.Common.{min, Bool, ltb, ◌==◌, if◌then◌else◌, List, [], ◌∷◌, ◌++◌}
use order_forge_matching_eng.ScaledInt.{Quantity, Price, sub_assign}
use order_forge_matching_eng.Enums.{OrderStatus, partial, filled}
use order_forge_matching_eng.IdGenerator.{IdGenerator}
use order_forge_matching_eng.Order.{Order, set_status, reduce_qty}
use order_forge_matching_eng.Trade.{Trade, new_trade}

pub record MatchingEngine : Type 0 where
  pub original_order : Order
  pub order_price : Price
  pub trades : List Trade
  -- the orders behind the `Order*`, as they stand once matched
  pub modified_orders : List Order
  -- a level of the side that is matched, by its price
  pub remove_levels : List Price
  -- the singleton behind `get_id<Trade>()`
  pub trade_ids : IdGenerator

unfoldable pub matching_engine : IdGenerator → Order → MatchingEngine
matching_engine ids order = record {
  original_order = order;
  order_price = order.price;
  trades = [];
  modified_orders = [];
  remove_levels = [];
  trade_ids = ids;
}

abbrev pub remaining_qty : MatchingEngine → Quantity
remaining_qty e = e.original_order.remaining_qty

abbrev pub has_remaining_qty : MatchingEngine → Bool
has_remaining_qty e = ltb 0 (remaining_qty e)

-- The statuses of the passive and of the crossing order, from what remains of them.
unfoldable pub matched_statuses : Quantity → Quantity → OrderStatus × OrderStatus
matched_statuses passive crossing =
    if passive == crossing
    then (filled, filled)
    else if ltb crossing passive
    then (partial, filled)
    else (filled, partial)

-- The engine, the passive order and the quantity that was traded.
unfoldable pub match_order : MatchingEngine → Order → MatchingEngine × Order × Quantity
unfolding reduce_qty matched_statuses new_trade
match_order e order =
    let removed_qty = min order.remaining_qty (remaining_qty e) in
    let reduced = reduce_qty removed_qty order in
    let remaining = sub_assign (remaining_qty e) removed_qty in
    let (passive_status, crossing_status) = matched_statuses reduced.remaining_qty remaining in
    let passive = set_status passive_status reduced in
    let crossing = record e.original_order {
      remaining_qty = remaining;
      status = crossing_status;
    } in
    let (ids, trade) =
      new_trade e.trade_ids passive.symbol passive.price removed_qty crossing.side passive.acc_id
        crossing.acc_id passive.order_id crossing.order_id in
    (
      record e {
        original_order = crossing;
        trades = e.trades ++ trade ∷ [];
        modified_orders = e.modified_orders ++ passive ∷ [];
        trade_ids = ids;
      },
      passive,
      removed_qty,
    )

unfoldable pub add_level_to_remove_orders : MatchingEngine → Price → MatchingEngine
add_level_to_remove_orders e level = record e { remove_levels = e.remove_levels ++ level ∷ [] }
