-- ===== src/OrderBook/Spec.antt =====
-- What the order book promises, with no levels: each side is one queue of orders, the best price
-- first and within a price the oldest first.
use order_forge_matching_eng.Common.{Bool, true, false, if◌then◌else◌, [], ◌∷◌}
use order_forge_matching_eng.Common.Int.{leb_ℤ}
use order_forge_matching_eng.ScaledInt.{Price}
use order_forge_matching_eng.Enums.{OrderType, limit, market, fill_and_kill, rejected, is_filled}
use order_forge_matching_eng.Order.{Order, is_buy, set_status}
use order_forge_matching_eng.NodeList.{NodeList}
use order_forge_matching_eng.PriceLevel.Queue.{rest_nodes}
use order_forge_matching_eng.PriceLevel.Trace.{crossed}
use order_forge_matching_eng.BookSide.Enqueue.{enqueue}
use order_forge_matching_eng.OrderBook.Sides.{less, greater}

pub record Queues : Type 0 where
  pub bids : NodeList Order
  pub asks : NodeList Order

abbrev pub opposite_orders : Queues → Order → NodeList Order
opposite_orders q o = if is_buy o then q.asks else q.bids

-- The price is no worse for the order than its own.
abbrev pub accepts : Order → Price → Bool
accepts o p = if is_buy o then leb_ℤ p o.price else leb_ℤ o.price p

-- What holds of the first order's price.
unfoldable pub first_is : (Price → Bool) → NodeList Order → Bool
first_is accept [] = false
first_is accept ((_, o) ∷ _) = accept o.price

-- The first order of the opposite queue is acceptable.
unfoldable pub meets : Queues → Order → Bool
meets q o = first_is (accepts o) (opposite_orders q o)

unfoldable pub is_nil : NodeList Order → Bool
is_nil [] = true
is_nil (_ ∷ _) = false

-- The quantity goes down the opposite queue.
unfoldable pub spec_match : Queues → Order → Queues × Order
spec_match q o =
    let rest = rest_nodes o.remaining_qty (opposite_orders q o) in
    (
      if is_buy o then record q { asks = rest } else record q { bids = rest },
      crossed o (opposite_orders q o),
    )

-- What is not filled joins the queue of its side.
unfoldable pub spec_rest : Queues → Order → Queues × Order
spec_rest q o =
    if is_filled o.status
    then (q, o)
    else if is_buy o
    then (record q { bids = enqueue greater (o.order_id, o) q.bids }, o)
    else (record q { asks = enqueue less (o.order_id, o) q.asks }, o)

unfoldable pub spec_reject : Queues → Order → Queues × Order
spec_reject q o = (q, set_status rejected o)

unfoldable pub spec_add : OrderType → Queues → Order → Queues × Order
spec_add limit q o =
    let crossing : Queues × Order = if meets q o then spec_match q o else (q, o) in
    spec_rest crossing.0 crossing.1
spec_add market q o = if is_nil (opposite_orders q o) then spec_reject q o else spec_match q o
spec_add fill_and_kill q o = if meets q o then spec_match q o else spec_reject q o
