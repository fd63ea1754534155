-- ===== src/OrderBook/Stale.antt =====
-- The ids that the book knows, which outlive the orders.
use order_forge_matching_eng.Common.{◌<◌, ◌≡◌, ap, ◌∙◌, some, [], ◌∷◌, ◌++◌, arith}
use order_forge_matching_eng.ScaledInt.{u64_mod}
use order_forge_matching_eng.Enums.{OrderId}
use order_forge_matching_eng.Order.{Order, FindOrderHelper}
use order_forge_matching_eng.PriceLevel.{PriceLevelUpdate}
use order_forge_matching_eng.OrderBook.{
  OrderBook, Session, find_id, erase_id, take_order, match_order, remove_order,
}
use order_forge_matching_eng.OrderBook.Feed.{level_events, notify_levels_lem}
use order_forge_matching_eng.OrderBook.Invariant.{Inv, IsBook-Inv}
use order_forge_matching_eng.OrderBook.Match.{matched_session, match_order-matched_session}
use order_forge_matching_eng.OrderBook.LeftOver.{matched_book-own}

take_order_handlers :
    (b : OrderBook) (h : FindOrderHelper) → (take_order b h).0.handlers ≡ b.handlers
unfolding take_order
take_order_handlers b h = ground arith

-- A cancel of an id that the map knows reports one level.
remove_order-reports :
    (s : Session) (id : OrderId) (h : FindOrderHelper)
    → find_id id s.book.orders_id_map ≡ some h
    → (remove_order s id).events
      ≡ s.events ++ level_events s.book.handlers ((take_order s.book h).1 ∷ [])
unfolding remove_order
remove_order-reports s id h e =
    let b = (take_order s.book h).0 in
    ground (
      arith,
      e,
      take_order_handlers s.book h,
      notify_levels_lem ((take_order s.book h).1 ∷ [])
          (record s { book = record b { orders_id_map = erase_id id b.orders_id_map } }),
    )

-- Let a book be well formed and let its map know an id. A match, of an order whose remaining
-- quantity is a machine word, leaves the map's entry as it is, whether or not it fills the order of
-- that id; and to cancel the id afterwards reports exactly one level to the handler.
pub remove_order-stale :
    (s : Session) (o : Order) (id : OrderId) (h : FindOrderHelper)
    → Inv s.book
    → o.remaining_qty < u64_mod
    → find_id id s.book.orders_id_map ≡ some h
    → let s' = (match_order s o).0 in
      (find_id id s'.book.orders_id_map ≡ some h)
      × ((u : PriceLevelUpdate) × ((remove_order s' id).events
            ≡ s'.events ++ level_events s'.book.handlers (u ∷ [])))
unfolding matched_session
remove_order-stale s o id h v w e =
    let known =
      ap (λ (r : Session × Order). find_id id r.0.book.orders_id_map)
        (match_order-matched_session s o (IsBook-Inv v) w)
      ∙ ap (find_id id) (matched_book-own s.book o).1
      ∙ e in
    let s' = (match_order s o).0 in
    (known, ((take_order s'.book h).1, remove_order-reports s' id h known))
