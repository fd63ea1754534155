-- ===== src/OrderForgeApp.antt =====
-- applications/order_forge_app/order_forge_app.cpp: from a client's message to the book, and from the
-- book's handlers to the feeds. `none` is an exception that nobody catches, or an access to a deleted
-- handler.
pub mod Dispatch
pub mod Start
pub mod Running
use Prim.Native.String.{String}
use text.Mathlib.Text.{◌==◌ as str_eq}
use order_forge_matching_eng.Common.{
  ℕ, Bool, true, if◌then◌else◌, Option, none, some, ◌>>=◌, List, [], ◌∷◌, ◌++◌,
}
use order_forge_matching_eng.ScaledInt.{Price}
use order_forge_matching_eng.IdGenerator.{IdGenerator}
use order_forge_matching_eng.Enums.{Side, OrderStatus, OrderType, Symbol}
use order_forge_matching_eng.Order.{Order, set_symbol}
use order_forge_matching_eng.OrderBook.{
  Event, order_update, trades_update, order_book_update, last_trade_update, Handlers, OrderBook,
  Session, order_book, add_order,
}
use order_forge_matching_eng.JsonLibrary.{JsonLibrary, JsonWriter, Scaling, EnumNames}
use order_forge_matching_eng.MessageProtocol.{Result, get_value, parse_order}
use order_forge_matching_eng.MessageProtocolWrite.{
  order_json_string, trade_json_string, level_json_string, last_trade_json_string,
}
use order_forge_matching_eng.EventHandler.{
  ConnectionType, private_feed_orders, private_feed_trades, public_feed_order_book,
  public_feed_last_trade,
}
use order_forge_matching_eng.TcpReactor.{TcpReactor, broadcast_all}

-- `order_books_`, and the id generators of the process.
pub record OrderForgeApp : Type 0 where
  pub order_books : List (Symbol × OrderBook)
  pub order_ids : IdGenerator
  pub trade_ids : IdGenerator

unfoldable pub find_book : Symbol → List (Symbol × OrderBook) → Option (Symbol × OrderBook)
find_book symbol [] = none
find_book symbol ((s, b) ∷ books) = if str_eq s symbol then some (s, b) else find_book symbol books

unfoldable pub put_book : Symbol → OrderBook → List (Symbol × OrderBook) → List (Symbol × OrderBook)
put_book symbol book [] = []
put_book symbol book ((s, b) ∷ books) =
    if str_eq s symbol then (s, book) ∷ books else (s, b) ∷ put_book symbol book books

-- A book with the process's id generators, before any of its handlers is called.
abbrev pub session_of : OrderBook → OrderForgeApp → Session
session_of book app = record {
  book = book;
  order_ids = app.order_ids;
  trade_ids = app.trade_ids;
  events = [];
}

-- The handlers that the constructor sets on each book.
abbrev pub app_handlers : Handlers
app_handlers = record {
  private_order = true;
  private_trades = true;
  public_order_book = true;
  public_last_trade = true;
}

-- `order_books_.insert`: a symbol that is configured twice keeps its first book.
unfoldable pub add_books :
    List (Symbol × Price) → List (Symbol × OrderBook) → List (Symbol × OrderBook)
add_books [] books = books
add_books ((symbol, tick_size) ∷ configs) books = add_books configs (elim (find_book symbol books) [
  | none ↦ books ++ (symbol, order_book symbol tick_size app_handlers) ∷ []
  | some _ ↦ books
])

module _ (J : JsonLibrary) (W : JsonWriter J) (S : Scaling J.Double) (sides : EnumNames Side)
    (types : EnumNames OrderType) (statuses : EnumNames OrderStatus) where
  -- The message and the feed of a handler's call.
  unfoldable pub update_of : Event → String × ConnectionType
  update_of (order_update order) =
      (order_json_string J W S sides types statuses order, private_feed_orders)
  update_of (trades_update trade) = (trade_json_string J W S sides trade, private_feed_trades)
  update_of (order_book_update update) =
      (level_json_string J W S sides update, public_feed_order_book)
  update_of (last_trade_update update) =
      (last_trade_json_string J W S sides update, public_feed_last_trade)

  unfoldable pub update_handlers : List Event → TcpReactor → Option TcpReactor
  update_handlers [] r = some r
  update_handlers (e ∷ events) r = do
    r₁ ← broadcast_all (update_of e).0 (update_of e).1 r
    update_handlers events r₁

  -- `res->second->add_order(order)`, whose handlers broadcast what they hear.
  unfoldable pub add_to_book :
      Symbol → OrderBook → Order → TcpReactor × OrderForgeApp → Option (TcpReactor × OrderForgeApp)
  add_to_book symbol book order (r, app) = do
    (s, _) ← add_order (session_of book app) order
    r₁ ← update_handlers s.events r
    some (
      r₁,
      record app {
        order_books = put_book symbol s.book app.order_books;
        order_ids = s.order_ids;
        trade_ids = s.trade_ids;
      },
    )

  -- `order.symbol()` is a view into the JSON value, which `parse_order` has destroyed when it returns:
  -- `left` tells what the memory shows by then where a symbol was, and `none` is a fault.
  unfoldable pub handle_event :
      (left : Symbol → Option Symbol) (now : ℕ)
      → String
      → TcpReactor × OrderForgeApp
      → Option (TcpReactor × OrderForgeApp)
  handle_event left now message (r, app) = do
    res ← parse_order J S sides types statuses now message
    order ← get_value res
    viewed ← left order.symbol
    elim (find_book viewed app.order_books) [
      | none ↦ some (r, app)
      | some (symbol, book) ↦ add_to_book symbol book (set_symbol symbol order) (r, app)
    ]
