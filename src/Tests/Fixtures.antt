-- ===== src/Tests/Fixtures.antt =====
-- The orders and the book of order_forge/tests/test_order_book.cpp.
use order_forge_matching_eng.Common.{ℕ, ◌*◌, true, Option, some, List, [], ◌∷◌, ◌>>=◌}
use order_forge_matching_eng.Common.Int.{pos}
use order_forge_matching_eng.ScaledInt.{qty_scale, add_assign, sub_assign}
use order_forge_matching_eng.Enums.{Side, buy, sell, OrderType, limit, opened, Symbol}
use order_forge_matching_eng.IdGenerator.{Date, generate_id, id_generator, get_current_datetime}
use order_forge_matching_eng.Order.{Order, set_order_id, reduce_qty}
use order_forge_matching_eng.Trade.{new_trade}
use order_forge_matching_eng.MatchingEngine
use order_forge_matching_eng.MatchingEngine.{
  matching_engine, matched_statuses, add_level_to_remove_orders,
}
use order_forge_matching_eng.NodeList
use order_forge_matching_eng.PriceLevel
use order_forge_matching_eng.PriceLevel.{
  price_level, insert_order, remove_nodes, remove_marked_order_nodes, match_node, visit_node,
  match_nodes,
}
use order_forge_matching_eng.PriceLevel.Queue.{open_qty}
use order_forge_matching_eng.OrderBookData
use order_forge_matching_eng.OrderBookData.{
  emplace, erase, store, add_book_level, get_book_level, remove_book_level,
}
use order_forge_matching_eng.BookSide
use order_forge_matching_eng.BookSide.{book_side, visit_level, match_levels, remove_exhausted}
use order_forge_matching_eng.BookSide.Match.{all_nodes}
use order_forge_matching_eng.OrderBook.{
  Session, Handlers, order_book, find_id, emplace_id, erase_id, notify_orders, notify_trades,
  notify_levels, run_engine, remove_marked, match_order, is_crossing_order, reject_order,
  add_order_helper, rest_order, rest_unfilled, limit_order, market_order, fill_and_kill_order,
  dispatch, with_order_id, add_order, take_order, remove_order,
}
use order_forge_matching_eng.OrderBook.Reachable.{new_session}

abbrev pub symbol : Symbol
symbol = "TESTUSD"

abbrev pub all_handlers : Handlers
all_handlers = record {
  private_order = true;
  private_trades = true;
  public_order_book = true;
  public_last_trade = true;
}

-- An order at `price` whole units, for `qty` whole units.
abbrev pub order : OrderType → Side → (price qty id : ℕ) → Order
order type side price qty id = record {
  symbol = symbol;
  price = pos (price * 100);
  qty = qty * qty_scale;
  remaining_qty = qty * qty_scale;
  side = side;
  status = opened;
  type = type;
  client_order_id = 0;
  order_id = id;
  timestamp = 0;
  acc_id = 555;
}

-- Opens every definition that a run computes with.
unfoldable pub program : Unit {0}
unfolding add_assign sub_assign generate_id id_generator get_current_datetime set_order_id
    reduce_qty new_trade matched_statuses MatchingEngine.match_order matching_engine
    add_level_to_remove_orders NodeList.contains NodeList.find NodeList.remove price_level
    insert_order PriceLevel.add_order PriceLevel.remove_order PriceLevel.match_order remove_nodes
    remove_marked_order_nodes match_node visit_node match_nodes OrderBookData.find emplace erase
    store add_book_level get_book_level remove_book_level book_side visit_level match_levels
    remove_exhausted BookSide.add_order BookSide.remove_order BookSide.match_order
    BookSide.remove_marked order_book find_id emplace_id erase_id notify_orders notify_trades
    notify_levels run_engine remove_marked match_order is_crossing_order reject_order
    add_order_helper rest_order rest_unfilled limit_order market_order fill_and_kill_order dispatch
    with_order_id add_order take_order remove_order new_session all_nodes open_qty
program = tt

abbrev pub today : Date
today = record { year = 2024; month = 3; day = 1 }

abbrev pub start : Session
start = new_session symbol (pos 1) all_handlers today today

-- A run of orders; `none` if an assertion fails.
abbrev pub run : List Order → Session → Option Session
run [] s = some s
run (o ∷ os) s = add_order s o >>= λ r. run os r.0

-- Bids at 98, 99 and 97, asks at 100, 101 and 105, each for 5.
abbrev pub ladder : List Order
ladder =
    order limit buy 98 5 1
    ∷ order limit buy 99 5 2
    ∷ order limit buy 97 5 3
    ∷ order limit sell 100 5 4
    ∷ order limit sell 101 5 5
    ∷ order limit sell 105 5 6
    ∷ []
