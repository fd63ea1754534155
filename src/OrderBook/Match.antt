-- ===== src/OrderBook/Match.antt =====
-- `OrderBook::match_order` computed: the opposite side gives up the front of its queue, and the
-- handlers hear of the changed orders, then of the trades, then of the levels.
use order_forge_matching_eng.Common.{
  ◌<◌, ◌≡◌, refl, inl, inr, Bool-cases, if◌then◌else◌, List, ◌++◌, append_assoc, arith,
}
use order_forge_matching_eng.ScaledInt.{u64_mod}
use order_forge_matching_eng.IdGenerator.{IdGenerator}
use order_forge_matching_eng.Order.{Order, is_buy}
use order_forge_matching_eng.Trade.{Trade}
use order_forge_matching_eng.MatchingEngine.{MatchingEngine, matching_engine}
use order_forge_matching_eng.NodeList.{NodeList}
use order_forge_matching_eng.PriceLevel.{PriceLevelUpdate}
use order_forge_matching_eng.PriceLevel.Queue.{fills}
use order_forge_matching_eng.PriceLevel.Trace.{
  trades_from, ids_after, modified, crossed, recorded, met_all-recorded,
}
use order_forge_matching_eng.OrderBookData.{OrderBookContainer}
use order_forge_matching_eng.BookSide.{BookSide}
use order_forge_matching_eng.BookSide.Match.{all_nodes, met_levels, swept_prices, level_updates}
use order_forge_matching_eng.BookSide.Sweep.{exhausted, match_cont, with_levels}
use order_forge_matching_eng.BookSide.Fill.{
  cont_of, IsSide, match_order_lem, remove_marked-exhausted,
}
use order_forge_matching_eng.OrderBook.{
  Event, OrderBook, Session, run_engine, remove_marked, match_order, notify_orders, notify_trades,
  notify_levels,
}
use order_forge_matching_eng.OrderBook.Sides.{less, greater}
use order_forge_matching_eng.OrderBook.Feed.{
  order_events, trade_events, level_events, with_events, notify_orders_lem, notify_trades_lem,
  notify_levels_lem,
}

pub record IsBook (b : OrderBook) : Type 0 where
  pub bids : IsSide greater b.bids
  pub asks : IsSide less b.asks

-- The side that an order would trade with, and its orders by priority.
abbrev pub opposite : OrderBook → Order → BookSide
opposite b o = if is_buy o then b.asks else b.bids

abbrev pub opposite_queue : OrderBook → Order → NodeList Order
opposite_queue b o = all_nodes (cont_of (opposite b o))

unfoldable pub matched_book : OrderBook → Order → OrderBook
matched_book b o =
    let side = with_levels (match_cont o.remaining_qty (cont_of (opposite b o))) (opposite b o) in
    if is_buy o then record b { asks = side } else record b { bids = side }

unfoldable pub match_trades : Session → Order → List Trade
match_trades s o = trades_from s.trade_ids o (fills o.remaining_qty (opposite_queue s.book o))

unfoldable pub match_events : Session → Order → List Event
match_events s o =
    order_events s.book.handlers (modified o.remaining_qty (opposite_queue s.book o))
    ++ trade_events s.book.symbol s.book.handlers (match_trades s o)
    ++ level_events s.book.handlers (level_updates o.remaining_qty (cont_of (opposite s.book o)))

unfoldable pub matched_session : Session → Order → Session
matched_session s o = record s {
  book = matched_book s.book o;
  trade_ids = ids_after s.trade_ids (fills o.remaining_qty (opposite_queue s.book o));
  events = s.events ++ match_events s o;
}

finished :
    (g : IdGenerator) (o : Order) (cont : OrderBookContainer)
    → let e = met_levels (matching_engine g o) cont in
      let fs = fills o.remaining_qty (all_nodes cont) in
      (e.original_order ≡ crossed o (all_nodes cont))
      × (e.trades ≡ trades_from g o fs)
      × (e.modified_orders ≡ modified o.remaining_qty (all_nodes cont))
      × (e.remove_levels ≡ swept_prices o.remaining_qty cont)
      × (e.trade_ids ≡ ids_after g fs)
unfolding met_levels matching_engine recorded
finished g o cont =
    rw (met_all-recorded (matching_engine g o) (all_nodes cont)) (refl, refl, refl, refl, refl)

run_engine_lem :
    (b : OrderBook) (g : IdGenerator) (o : Order)
    → IsBook b
    → o.remaining_qty < u64_mod
    → let cont = cont_of (opposite b o) in
      let side = with_levels (exhausted o.remaining_qty cont) (opposite b o) in
      run_engine b (matching_engine g o) ≡ (
        met_levels (matching_engine g o) cont,
        (if is_buy o then record b { asks = side } else record b { bids = side }),
        level_updates o.remaining_qty cont,
      )
unfolding run_engine matching_engine
run_engine_lem b g o v h = elim (Bool-cases (is_buy o)) [
  | inl buys ↦ rw (buys, match_order_lem less b.asks v.asks (matching_engine g o) h)
  | inr sells ↦ rw (sells, match_order_lem greater b.bids v.bids (matching_engine g o) h)
]

remove_marked_lem :
    (b : OrderBook) (o : Order)
    → IsBook b
    → let cont = cont_of (opposite b o) in
      let side = with_levels (exhausted o.remaining_qty cont) (opposite b o) in
      remove_marked o
        (swept_prices o.remaining_qty cont)
        (if is_buy o then record b { asks = side } else record b { bids = side })
      ≡ matched_book b o
unfolding remove_marked matched_book
remove_marked_lem b o v = elim (Bool-cases (is_buy o)) [
  | inl buys ↦ rw (buys, remove_marked-exhausted less b.asks v.asks o.remaining_qty)
  | inr sells ↦ rw (sells, remove_marked-exhausted greater b.bids v.bids o.remaining_qty)
]

-- The three loops over the handlers, whatever book the sweep leaves.
told :
    (s : Session) (swept : OrderBook) (os : List Order) (ts : List Trade)
    (us : List PriceLevelUpdate)
    → swept.symbol ≡ s.book.symbol
    → swept.handlers ≡ s.book.handlers
    → notify_levels us (notify_trades ts (record (notify_orders os s) { book = swept }))
      ≡ record s {
        book = swept;
        events =
            s.events
            ++ (order_events s.book.handlers os
                ++ trade_events s.book.symbol s.book.handlers ts
                ++ level_events s.book.handlers us);
      }
told s swept os ts us e f =
    let h = s.book.handlers in
    let after = record s { book = swept; events = s.events ++ order_events h os } in
    let traded = with_events (trade_events s.book.symbol h ts) after in
    ground (
      arith,
      notify_orders_lem os s,
      notify_trades_lem ts after,
      notify_levels_lem us traded,
      append_assoc s.events (order_events h os) (trade_events s.book.symbol h ts),
      append_assoc s.events (order_events h os ++ trade_events s.book.symbol h ts)
          (level_events h us),
    )

-- An engine between `match_levels` and the end of the call.
closed :
    (s : Session) (o : Order) (e : MatchingEngine) (b : OrderBook) (us : List PriceLevelUpdate)
    → let swept = remove_marked o e.remove_levels b in
      (b.symbol ≡ s.book.symbol)
      → (b.handlers ≡ s.book.handlers)
      → (swept.symbol ≡ s.book.symbol)
      → (swept.handlers ≡ s.book.handlers)
      → run_engine s.book (matching_engine s.trade_ids o) ≡ (e, b, us)
      → match_order s o ≡ (
        record s {
          book = swept;
          trade_ids = e.trade_ids;
          events =
              s.events
              ++ (order_events s.book.handlers e.modified_orders
                  ++ trade_events s.book.symbol s.book.handlers e.trades
                  ++ level_events s.book.handlers us);
        },
        e.original_order,
      )
unfolding match_order
closed s o e b us p q p' q' r =
    let crossing = record s { book = b; trade_ids = e.trade_ids } in
    ground (
      arith,
      r,
      notify_orders_lem e.modified_orders crossing,
      told crossing (remove_marked o e.remove_levels b) e.modified_orders e.trades us,
    )

-- The book keeps its symbol and its handlers.
matched_book_frame :
    (b : OrderBook) (o : Order)
    → ((matched_book b o).symbol ≡ b.symbol) × ((matched_book b o).handlers ≡ b.handlers)
unfolding matched_book
matched_book_frame b o = ground arith

-- What one call of `OrderBook::match_order` does to a well-formed book, for an order whose remaining
-- quantity is a machine word: the opposite side keeps the levels that the quantity leaves, the
-- trades draw their ids in the order of the queue, and the handlers hear of the changed orders, then
-- of the trades, then of the levels; the order comes back as the queue leaves it.
pub match_order-matched_session :
    (s : Session) (o : Order)
    → IsBook s.book
    → o.remaining_qty < u64_mod
    → match_order s o ≡ (matched_session s o, crossed o (opposite_queue s.book o))
unfolding matched_session match_events match_trades
match_order-matched_session s o v h =
    let cont = cont_of (opposite s.book o) in
    let side = with_levels (exhausted o.remaining_qty cont) (opposite s.book o) in
    let b : OrderBook =
      if is_buy o then record s.book { asks = side } else record s.book { bids = side } in
    ground (
      arith,
      closed s o (met_levels (matching_engine s.trade_ids o) cont) b
          (level_updates o.remaining_qty cont),
      run_engine_lem s.book s.trade_ids o v h,
      remove_marked_lem s.book o v,
      finished s.trade_ids o cont,
      matched_book_frame s.book o,
    )
