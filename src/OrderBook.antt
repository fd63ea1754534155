-- ===== src/OrderBook.antt =====
-- order_forge/order_book.h and .cpp. A call returns the session after it: the book, the id
-- generators that the process shares, and what the handlers were called with, oldest first.
use order_forge_matching_eng.Common.{
  ℕ, ◌≡◌, Bool, true, false, not, ◌&&◌, ◌||◌, ◌==◌, if◌then◌else◌, Option, none, some, ◌>>=◌, List,
  [], ◌∷◌, ◌++◌,
}
use order_forge_matching_eng.Common.Int.{leb_ℤ}
use order_forge_matching_eng.ScaledInt.{Quantity, Price}
use order_forge_matching_eng.Enums.{
  Side, buy, sell, OrderType, limit, market, fill_and_kill, Symbol, OrderId, rejected, is_filled,
}
use order_forge_matching_eng.IdGenerator.{IdGenerator}
use order_forge_matching_eng.Order.{
  Order, FindOrderHelper, set_order_id, set_symbol, set_status, is_buy, is_same_symbol,
}
use order_forge_matching_eng.Trade.{Trade, LastTradeUpdate}
use order_forge_matching_eng.MatchingEngine.{MatchingEngine, matching_engine}
use order_forge_matching_eng.PriceLevel.{PriceLevelUpdate}
use order_forge_matching_eng.OrderBookData.{CompFunc}
use order_forge_matching_eng.OrderBook.Sides.{less, greater}
use order_forge_matching_eng.BookSide
use order_forge_matching_eng.BookSide.{BookSide, book_side}
pub mod Sides
pub mod Adding
pub mod Cancelled
pub mod Cancelling
pub mod Conservation
pub mod Feed
pub mod Invariant
pub mod Match
pub mod Queues
pub mod Reachable
pub mod Zero
pub mod Resting
pub mod LeftOver
pub mod LimitPrice
pub mod Spec
pub mod Stale
pub mod Takers
pub mod Trading

-- One call of a handler.
pub data Event : Type 0 where
  order_update : Order → Event
  trades_update : Trade → Event
  order_book_update : PriceLevelUpdate → Event
  last_trade_update : LastTradeUpdate → Event

-- Which of the handlers are set.
pub record Handlers : Type 0 where
  pub private_order : Bool
  pub private_trades : Bool
  pub public_order_book : Bool
  pub public_last_trade : Bool

-- `orders_id_map_`, a `std::unordered_map`
abbrev pub OrdersIdMap : Type 0
OrdersIdMap = List (OrderId × FindOrderHelper)

pub record OrderBook : Type 0 where
  pub symbol : Symbol
  pub bids : BookSide
  pub asks : BookSide
  pub orders_id_map : OrdersIdMap
  pub handlers : Handlers

pub record Session : Type 0 where
  pub book : OrderBook
  pub order_ids : IdGenerator
  pub trade_ids : IdGenerator
  pub events : List Event

unfoldable pub order_book : Symbol → Price → Handlers → OrderBook
order_book symbol tick_size handlers = record {
  symbol = symbol;
  bids = book_side symbol buy tick_size;
  asks = book_side symbol sell tick_size;
  orders_id_map = [];
  handlers = handlers;
}

unfoldable pub find_id : OrderId → OrdersIdMap → Option FindOrderHelper
find_id id [] = none
find_id id ((i, h) ∷ m) = if i == id then some h else find_id id m

-- `emplace` keeps an entry that is there.
unfoldable pub emplace_id : OrderId → FindOrderHelper → OrdersIdMap → OrdersIdMap
emplace_id id h m = elim (find_id id m) [ some _ ↦ m | none ↦ (id, h) ∷ m ]

unfoldable pub erase_id : OrderId → OrdersIdMap → OrdersIdMap
erase_id id [] = []
erase_id id ((i, h) ∷ m) = if i == id then erase_id id m else (i, h) ∷ erase_id id m

-- `if (handler) handler(...)`
abbrev pub notify : Bool → Event → Session → Session
notify set event s = if set then record s { events = s.events ++ event ∷ [] } else s

unfoldable pub notify_orders : List Order → Session → Session
notify_orders [] s = s
notify_orders (o ∷ os) s =
    notify_orders os (notify s.book.handlers.private_order (order_update o) s)

unfoldable pub notify_trades : List Trade → Session → Session
notify_trades [] s = s
notify_trades (t ∷ ts) s =
    let s' = notify s.book.handlers.private_trades (trades_update t) s in
    let last : LastTradeUpdate = record {
      symbol = s.book.symbol;
      price = t.price;
      quantity = t.qty;
      side = t.crossing_side;
    } in
    notify_trades ts (notify s.book.handlers.public_last_trade (last_trade_update last) s')

unfoldable pub notify_levels : List PriceLevelUpdate → Session → Session
notify_levels [] s = s
notify_levels (u ∷ us) s =
    notify_levels us (notify s.book.handlers.public_order_book (order_book_update u) s)

-- The engine after it has gone over the opposite side, the book, and the level updates.
unfoldable pub run_engine :
    OrderBook → MatchingEngine → MatchingEngine × OrderBook × List PriceLevelUpdate
run_engine b e =
    let (e', asks, updates) = BookSide.match_order less b.asks e in
    let (f', bids, vpdates) = BookSide.match_order greater b.bids e in
    if is_buy e.original_order
    then (e', record b { asks = asks }, updates)
    else (f', record b { bids = bids }, vpdates)

-- The levels that the engine names lie on the side opposite to the crossing order.
unfoldable pub remove_marked : Order → List Price → OrderBook → OrderBook
remove_marked order levels b =
    if is_buy order
    then record b { asks = BookSide.remove_marked less levels b.asks }
    else record b { bids = BookSide.remove_marked greater levels b.bids }

unfoldable pub match_order : Session → Order → Session × Order
match_order s order =
    let (e, book, updates) = run_engine s.book (matching_engine s.trade_ids order) in
    let matched = record s { book = book; trade_ids = e.trade_ids } in
    let told = notify_orders e.modified_orders matched in
    let swept = record told { book = remove_marked order e.remove_levels told.book } in
    (notify_levels updates (notify_trades e.trades swept), e.original_order)

unfoldable pub is_crossing_order : OrderBook → Order → Bool
is_crossing_order b order =
    let best = if is_buy order then BookSide.best_price b.asks else BookSide.best_price b.bids in
    elim best [
      | none ↦ false
      | some price ↦ if is_buy order then leb_ℤ price order.price else leb_ℤ order.price price
    ]

unfoldable pub reject_order : Order → Order
reject_order order = set_status rejected order

unfoldable pub add_order_helper : OrderBook → Price → OrderId → Side → OrderBook
add_order_helper b price id side = record b {
  orders_id_map =
      emplace_id id (record { order_id = id; price = price; side = side }) b.orders_id_map;
}

-- The book takes the order on its own side.
unfoldable pub rest_order : OrderBook → Order → Option (OrderBook × PriceLevelUpdate)
rest_order b order = do
  (b', update) ←
      if is_buy order
      then (do
        (bids, update) ← BookSide.add_order greater b.bids order
        some (record b { bids = bids }, update))
      else (do
        (asks, update) ← BookSide.add_order less b.asks order
        some (record b { asks = asks }, update))
  some (add_order_helper b' order.price order.order_id order.side, update)

-- `limit_order` once the crossing part is done
unfoldable pub rest_unfilled : Session → Order → Option (Session × Order)
rest_unfilled s order = if is_filled order.status then some (s, order) else do
  (b, update) ← rest_order s.book order
  some (
    notify b.handlers.public_order_book (order_book_update update) (record s { book = b }),
    order,
  )

unfoldable pub limit_order : Session → Order → Option (Session × Order)
limit_order s order =
    let crossed : Session × Order =
      if is_crossing_order s.book order then match_order s order else (s, order) in
    rest_unfilled crossed.0 crossed.1

unfoldable pub market_order : Session → Order → Session × Order
market_order s order =
    if (is_buy order && BookSide.empty s.book.asks)
      || (not (is_buy order) && BookSide.empty s.book.bids)
    then (s, reject_order order)
    else match_order s order

unfoldable pub fill_and_kill_order : Session → Order → Session × Order
fill_and_kill_order s order =
    if is_crossing_order s.book order then match_order s order else (s, reject_order order)

-- The `switch` on the type of the order.
unfoldable pub dispatch : OrderType → Session → Order → Option (Session × Order)
dispatch market s order = some (market_order s order)
dispatch fill_and_kill s order = some (fill_and_kill_order s order)
dispatch limit s order = limit_order s order

-- The id that the order is given if it has none.
unfoldable pub with_order_id : Session → Order → Session × Order
with_order_id s order =
    let (ids, order') = set_order_id s.order_ids order in
    if order.order_id == 0 then (record s { order_ids = ids }, order') else (s, order)

unfoldable pub add_order : Session → Order → Option (Session × Order)
add_order s order = if not (is_same_symbol s.book.symbol order) then some (s, order) else do
  let (s₁, o₁) = with_order_id s (set_symbol s.book.symbol order)
  (s₂, o₂) ← dispatch o₁.type s₁ o₁
  some (notify s₂.book.handlers.private_order (order_update o₂) s₂, o₂)

-- The side's part of `remove_order`.
unfoldable pub take_order : OrderBook → FindOrderHelper → OrderBook × PriceLevelUpdate
take_order b helper =
    let (bids, update) = BookSide.remove_order greater b.bids helper in
    let (asks, vpdate) = BookSide.remove_order less b.asks helper in
    elim helper.side [
      | buy ↦ (record b { bids = bids }, update)
      | sell ↦ (record b { asks = asks }, vpdate)
    ]

unfoldable pub remove_order : Session → OrderId → Session
remove_order s id = elim (find_id id s.book.orders_id_map) [
  | none ↦ s
  | some helper ↦
      let (b, update) = take_order s.book helper in
      notify_levels (update ∷ [])
        (record s { book = record b { orders_id_map = erase_id id b.orders_id_map } })
]
