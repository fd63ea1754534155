-- ===== src/OrderBook/Feed.antt =====
-- The handlers' loops computed: what each adds to the events, with nothing else changed.
use order_forge_matching_eng.Common.{
  ◌≡◌, Bool, if◌then◌else◌, List, [], ◌∷◌, ◌++◌, append-nil, append_assoc, arith,
}
use order_forge_matching_eng.Enums.{Symbol}
use order_forge_matching_eng.Order.{Order}
use order_forge_matching_eng.Trade.{Trade, LastTradeUpdate}
use order_forge_matching_eng.PriceLevel.{PriceLevelUpdate}
use order_forge_matching_eng.OrderBook.{
  Event, order_update, trades_update, order_book_update, last_trade_update, Handlers, Session,
  notify, notify_orders, notify_trades, notify_levels,
}

abbrev when_set : Bool → Event → List Event → List Event
when_set set event rest = if set then event ∷ rest else rest

unfoldable pub order_events : Handlers → List Order → List Event
order_events h [] = []
order_events h (o ∷ os) = when_set h.private_order (order_update o) (order_events h os)

abbrev pub last_trade : Symbol → Trade → LastTradeUpdate
last_trade symbol t = record {
  symbol = symbol;
  price = t.price;
  quantity = t.qty;
  side = t.crossing_side;
}

unfoldable pub trade_events : Symbol → Handlers → List Trade → List Event
trade_events symbol h [] = []
trade_events symbol h (t ∷ ts) = when_set h.private_trades (trades_update t) (
    when_set h.public_last_trade (last_trade_update (last_trade symbol t))
      (trade_events symbol h ts))

unfoldable pub level_events : Handlers → List PriceLevelUpdate → List Event
level_events h [] = []
level_events h (u ∷ us) = when_set h.public_order_book (order_book_update u) (level_events h us)

abbrev pub with_events : List Event → Session → Session
with_events es s = record s { events = s.events ++ es }

pub notify_orders_lem :
    (os : List Order) (s : Session)
    → notify_orders os s ≡ with_events (order_events s.book.handlers os) s
unfolding notify_orders order_events
notify_orders_lem [] s = ground (arith, append-nil s.events)
notify_orders_lem (o ∷ os) s =
    let set = s.book.handlers.private_order in
    ground (
      arith,
      notify_orders_lem os (notify set (order_update o) s),
      append_assoc s.events (order_update o ∷ []) (order_events s.book.handlers os),
    )

pub notify_trades_lem :
    (ts : List Trade) (s : Session)
    → notify_trades ts s ≡ with_events (trade_events s.book.symbol s.book.handlers ts) s
unfolding notify_trades trade_events
notify_trades_lem [] s = ground (arith, append-nil s.events)
notify_trades_lem (t ∷ ts) s =
    let h = s.book.handlers in
    let told = trades_update t in
    let last = last_trade_update (last_trade s.book.symbol t) in
    let rest = trade_events s.book.symbol h ts in
    let s' = notify h.private_trades told s in
    ground (
      arith,
      notify_trades_lem ts (notify h.public_last_trade last s'),
      append_assoc s.events (told ∷ []) rest,
      append_assoc s.events (last ∷ []) rest,
      append_assoc s.events (told ∷ []) (last ∷ []),
      append_assoc s.events (told ∷ last ∷ []) rest,
    )

pub notify_levels_lem :
    (us : List PriceLevelUpdate) (s : Session)
    → notify_levels us s ≡ with_events (level_events s.book.handlers us) s
unfolding notify_levels level_events
notify_levels_lem [] s = ground (arith, append-nil s.events)
notify_levels_lem (u ∷ us) s =
    let set = s.book.handlers.public_order_book in
    let s' = notify set (order_book_update u) s in
    ground (
      arith,
      notify_levels_lem us s',
      append_assoc s.events (order_book_update u ∷ []) (level_events s.book.handlers us),
    )
