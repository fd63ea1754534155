-- ===== src/MatchingEngine/Fill.antt =====
-- What one match of matching_engine.cpp comes to, in arithmetic that does not wrap.
use order_forge_matching_eng.Common.{◌-◌, ◌<◌, ◌≡◌, min, leb, if◌then◌else◌, [], ◌∷◌, ◌++◌, arith}
use order_forge_matching_eng.ScaledInt.{Quantity, u64_mod, sub_assign}
use order_forge_matching_eng.Enums.{OrderStatus, partial, filled}
use order_forge_matching_eng.IdGenerator.{IdGenerator, generate_id}
use order_forge_matching_eng.Order.{Order}
use order_forge_matching_eng.Trade.{Trade, new_trade}
use order_forge_matching_eng.MatchingEngine.{MatchingEngine, remaining_qty, match_order}

-- An order with `r` left, once it is matched against `q`.
abbrev pub status_after : (r q : Quantity) → OrderStatus
status_after r q = if leb r q then filled else partial

unfoldable pub matched_with : Quantity → Order → Order
matched_with q o = record o {
  remaining_qty = o.remaining_qty - q;
  status = status_after o.remaining_qty q;
}

-- The trade of a crossing order with a passive one, at the passive order's price.
unfoldable pub trade_of : IdGenerator → Order → Order × Quantity → IdGenerator × Trade
unfolding new_trade
trade_of g x (o, n) = new_trade g o.symbol o.price n x.side o.acc_id x.acc_id o.order_id x.order_id

-- The engine once it has met a passive order.
unfoldable pub met : MatchingEngine → Order → MatchingEngine
unfolding trade_of matched_with
met e o = record e {
  original_order = matched_with o.remaining_qty e.original_order;
  trades = e.trades ++ (trade_of e.trade_ids e.original_order (o, n)).1 ∷ [];
  modified_orders = e.modified_orders ++ matched_with (remaining_qty e) o ∷ [];
  trade_ids = (generate_id e.trade_ids).0;
}
  where
    n : Quantity
    n = min o.remaining_qty (remaining_qty e)

-- One call of `MatchingEngine::match_order`, for remaining quantities that are machine words: the
-- smaller quantity is removed from both orders and returned, each order is filled when nothing of
-- it is left and partial otherwise, and one trade is recorded at the passive order's price.
pub match_order-met :
    (e : MatchingEngine) (o : Order)
    → o.remaining_qty < u64_mod
    → remaining_qty e < u64_mod
    → match_order e o
      ≡ (met e o, matched_with (remaining_qty e) o, min o.remaining_qty (remaining_qty e))
unfolding match_order met sub_assign
match_order-met e o h k = ground arith
