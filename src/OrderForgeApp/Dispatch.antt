-- ===== src/OrderForgeApp/Dispatch.antt =====
-- What a message does to the app: refused, for no book, or added and told to the feeds.
use Prim.Native.String.{String}
use order_forge_matching_eng.Common.{
  ℕ, ◌≡◌, refl, ◌∙◌, ap, Option, none, some, bind-some, List, [], ◌∷◌, ◌++◌, append-nil,
  append_assoc,
}
use order_forge_matching_eng.Enums.{Side, OrderStatus, OrderType, Symbol}
use order_forge_matching_eng.Order.{Order, set_symbol}
use order_forge_matching_eng.OrderBook.{Event, OrderBook, Session, add_order}
use order_forge_matching_eng.OrderBook.Invariant
use order_forge_matching_eng.OrderBook.Resting.{IsAdmissible}
use order_forge_matching_eng.OrderBook.Adding.{named_order, add_order-spec_add_order}
use order_forge_matching_eng.JsonLibrary.{JsonLibrary, JsonWriter, Scaling, EnumNames}
use order_forge_matching_eng.MessageProtocol.{value, get_value, parse_order}
use order_forge_matching_eng.MessageProtocol.Required.{required, first_missing}
use order_forge_matching_eng.MessageProtocol.Accepted.{parse_order-missing}
use order_forge_matching_eng.EventHandler.{connection_value}
use order_forge_matching_eng.TcpReactor.{TcpReactor}
use order_forge_matching_eng.TcpReactor.Registry.{Inv}
use order_forge_matching_eng.TcpReactor.Broadcast.{messages, with_sent, broadcast_all-sends}
use order_forge_matching_eng.OrderForgeApp.{
  OrderForgeApp, find_book, put_book, session_of, update_of, update_handlers, add_to_book,
  handle_event,
}

module _ (J : JsonLibrary) (W : JsonWriter J) (S : Scaling J.Double) (sides : EnumNames Side)
    (types : EnumNames OrderType) (statuses : EnumNames OrderStatus) where
  -- What the clients of the reactor get for the events: each event once for each client of its feed.
  unfoldable pub feed : TcpReactor → List Event → List (ℕ × String)
  feed r [] = []
  feed r (e ∷ events) =
      let (message, con_type) = update_of J W S sides types statuses e in
      messages message (r.event_handlers (connection_value con_type)) ++ feed r events

  pub update_handlers-feed :
      (events : List Event) (r : TcpReactor)
      → Inv r
      → update_handlers J W S sides types statuses events r ≡ some (with_sent (feed r events) r)
  unfolding update_handlers feed
  update_handlers-feed [] r v = rw (append-nil r.sent) refl
  update_handlers-feed (e ∷ events) r v =
      let (message, con_type) = update_of J W S sides types statuses e in
      let now = messages message (r.event_handlers (connection_value con_type)) in
      let r₁ = with_sent now r in
      let w : Inv r₁ = record { placed = v.placed; ascending = v.ascending } in
      bind-some _ (broadcast_all-sends message con_type r v) (
        update_handlers-feed events r₁ w
        ∙ ap (λ l. some (record r { sent = l })) (append_assoc r.sent now (feed r events)))

  -- A message that lacks a required field ends in an exception, whatever the app and the reactor hold:
  -- the refusal is read as if it were an order.
  pub handle_event-missing :
      (left : Symbol → Option Symbol) (now : ℕ) (message key : String) (j : J.Json) (r : TcpReactor)
      (app : OrderForgeApp)
      → J.parse message ≡ some j
      → first_missing J j required ≡ some key
      → handle_event J W S sides types statuses left now message (r, app) ≡ none
  unfolding handle_event get_value
  handle_event-missing left now message key j r app parsed lacks =
      rw (parse_order-missing J S sides types statuses now message key j parsed lacks) refl

  accepted :
      (left : Symbol → Option Symbol) (now : ℕ) (message : String) (o : Order) (viewed : Symbol)
      (r : TcpReactor) (app : OrderForgeApp)
      → parse_order J S sides types statuses now message ≡ some (value o)
      → left o.symbol ≡ some viewed
      → handle_event J W S sides types statuses left now message (r, app)
        ≡ (elim (find_book viewed app.order_books) [
          | none ↦ some (r, app)
          | some (symbol, book) ↦
              add_to_book J W S sides types statuses symbol book (set_symbol symbol o) (r, app)
        ])
  unfolding handle_event get_value
  accepted left now message o viewed r app parsed shows = rw parsed (rw shows refl)

  -- Let a message be accepted as an order, and the memory of its JSON value, which is destroyed by then,
  -- still show a symbol that has a book. Let that book be well formed, every registered handler be
  -- allocated, and the order, once it has its id, be admissible: it wants something, its id is set and not
  -- in use, and the open quantity of its side stays below 2^64. Then the order is added to that book,
  -- which stays well formed, the other books stay as they are, and each client gets, in order, what the
  -- handlers of the book hear and its feed is about.
  pub handle_event-feed :
      (left : Symbol → Option Symbol) (now : ℕ) (message : String) (o : Order)
      (viewed symbol : Symbol) (book : OrderBook) (r : TcpReactor) (app : OrderForgeApp)
      → parse_order J S sides types statuses now message ≡ some (value o)
      → left o.symbol ≡ some viewed
      → find_book viewed app.order_books ≡ some (symbol, book)
      → Inv r
      → Invariant.Inv book
      → IsAdmissible book (named_order (session_of book app) (set_symbol symbol o))
      → (s : Session) × (o' : Order) × (add_order (session_of book app) (set_symbol symbol o)
          ≡ some (s, o'))
        × Invariant.Inv s.book
        × (handle_event J W S sides types statuses left now message (r, app)
            ≡ some (
              with_sent (feed r s.events) r,
              record app {
                order_books = put_book symbol s.book app.order_books;
                order_ids = s.order_ids;
                trade_ids = s.trade_ids;
              },
            ))
  unfolding add_to_book
  handle_event-feed left now message o viewed symbol book r app parsed shows found v w new =
      let (s, x, added, w', _) = add_order-spec_add_order _ (set_symbol symbol o) w new in
      (
        s,
        x,
        added,
        w',
        accepted left now message o viewed r app parsed shows
            ∙ rw found (bind-some _ added (bind-some _ (update_handlers-feed s.events r v) refl)),
      )
