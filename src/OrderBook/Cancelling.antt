-- ===== src/OrderBook/Cancelling.antt =====
-- `OrderBook::remove_order`: the order leaves the queue of its side, and the map forgets its id.
use order_forge_matching_eng.Common.{
  ℕ, ◌≡◌, ◌≢◌, ◌⊎◌, refl, true, false, inl, inr, Bool-cases, ◌==◌, if◌then◌else◌, none, some, [],
  ◌∷◌, All, All-append_left, All-append_right, arith,
}
use order_forge_matching_eng.ScaledInt.{Price}
use order_forge_matching_eng.Enums.{Side, buy, sell, OrderId}
use order_forge_matching_eng.Order.{Order, FindOrderHelper}
use order_forge_matching_eng.NodeList.{NodeList, contains, remove}
use order_forge_matching_eng.PriceLevel.Orders.{IsResting}
use order_forge_matching_eng.OrderBookData.{CompFunc, OrderBookContainer}
use order_forge_matching_eng.BookSide.Match.{all_nodes}
use order_forge_matching_eng.BookSide.Sweep.{with_levels}
use order_forge_matching_eng.BookSide.Fill.{cont_of}
use order_forge_matching_eng.BookSide.Invariant.{IsEntry}
use order_forge_matching_eng.BookSide.Cancel.{OnlyAt, cancel_cont, remove_order-cancel_cont}
use order_forge_matching_eng.OrderBook.{
  OrderBook, Session, OrdersIdMap, find_id, erase_id, take_order, notify_levels, remove_order,
}
use order_forge_matching_eng.OrderBook.Sides.{less, greater}
use order_forge_matching_eng.OrderBook.Invariant.{IsRegistered, IsNamed, Inv}

pub find_id-named :
    (m : OrdersIdMap) (id : OrderId) (h : FindOrderHelper)
    → IsNamed m
    → find_id id m ≡ some h
    → h.order_id ≡ id
unfolding find_id
find_id-named [] id h a e = absurd (ground arith)
find_id-named ((i, g) ∷ m) id h a e = ground (arith, find_id-named m id h a.1)

pub find_id-erase_id :
    (m : OrdersIdMap) (id : OrderId) (i : OrderId)
    → find_id i (erase_id id m) ≡ (if i == id then none else find_id i m)
unfolding find_id erase_id
find_id-erase_id [] id i = ground arith
find_id-erase_id ((j, h) ∷ m) id i = ground (arith, find_id-erase_id m id i)

pub IsNamed-erase_id : (m : OrdersIdMap) (id : OrderId) → IsNamed m → IsNamed (erase_id id m)
unfolding erase_id
IsNamed-erase_id [] id a = tt
IsNamed-erase_id ((i, h) ∷ m) id a = ground (arith, IsNamed-erase_id m id a.1)

-- What the map knows of the orders that are left does not depend on the id that is gone.
pub IsRegistered-erase_id :
    (m : OrdersIdMap) (side : Side) (id : OrderId) (nodes : NodeList Order)
    → contains id nodes ≡ false
    → All (IsRegistered m side) nodes
    → All (IsRegistered (erase_id id m) side) nodes
unfolding contains
IsRegistered-erase_id m side id [] h a = tt
IsRegistered-erase_id m side id ((i, o) ∷ nodes) h a =
    ground (arith, IsRegistered-erase_id m side id nodes, find_id-erase_id m id i)

pub All-remove :
    (P : ℕ × Order → Type 0) (id : ℕ) (nodes : NodeList Order)
    → All P nodes
    → All P (remove id nodes)
unfolding remove
All-remove P id [] a = tt
All-remove P id ((i, o) ∷ nodes) a = ground (arith, All-remove P id nodes a.1)

-- No order of a side has an id that the map places on another side.
pub contains-other :
    (m : OrdersIdMap) (side : Side) (id : OrderId) (h : FindOrderHelper) (nodes : NodeList Order)
    → All (IsRegistered m side) nodes
    → find_id id m ≡ some h
    → h.side ≢ side
    → contains id nodes ≡ false
unfolding contains
contains-other m side id h [] a e other = refl
contains-other m side id h ((i, o) ∷ nodes) a e other =
    ground (arith, contains-other m side id h nodes a.1 e other)

known_price :
    (m : OrdersIdMap) (side : Side) (id i : OrderId) (h : FindOrderHelper) (k : Price) (o : Order)
    → find_id id m ≡ some h
    → IsResting side k (i, o)
    → IsRegistered m side (i, o)
    → (i == id) ≡ true
    → k ≡ h.price
known_price m side id i h k o e r a same = ground arith

-- The map has one price for an id, so its order stands at that price if at all.
level_of_known :
    (m : OrdersIdMap) (side : Side) (id : OrderId) (h : FindOrderHelper) (k : Price)
    (nodes : NodeList Order)
    → find_id id m ≡ some h
    → All (IsResting side k) nodes
    → All (IsRegistered m side) nodes
    → (contains id nodes ≡ false) ⊎ (k ≡ h.price)
unfolding contains
level_of_known m side id h k [] e r a = inl refl
level_of_known m side id h k ((i, o) ∷ nodes) e r a = elim (Bool-cases (i == id)) [
  | inl same ↦ inr (known_price m side id i h k o e r.0 a.0 same)
  | inr other ↦ elim (level_of_known m side id h k nodes e r.1 a.1) [
    | inl absent ↦ inl (rw (other, absent) refl)
    | inr at ↦ inr at
  ]
]

pub OnlyAt-known :
    (c : CompFunc) (m : OrdersIdMap) (side : Side) (id : OrderId) (h : FindOrderHelper)
    → (cont : OrderBookContainer) → find_id id m ≡ some h
    → All (IsEntry side) cont
    → All (IsRegistered m side) (all_nodes cont)
    → OnlyAt c h.price id cont
unfolding all_nodes
OnlyAt-known c m side id h [] e vs a = tt
OnlyAt-known c m side id h ((k, l) ∷ rest) e vs a = (
  level_of_known m side id h k l.order_cont e vs.0.1
      (All-append_left (IsRegistered m side) l.order_cont (all_nodes rest) a),
  OnlyAt-known c m side id h rest e vs.1
      (All-append_right (IsRegistered m side) l.order_cont (all_nodes rest) a),
)

-- The book without the order.
unfoldable pub cancelled_book : OrderBook → FindOrderHelper → OrderBook
cancelled_book b h =
    let bids = with_levels (cancel_cont greater h.price h.order_id (cont_of b.bids)) b.bids in
    let asks = with_levels (cancel_cont less h.price h.order_id (cont_of b.asks)) b.asks in
    let known = erase_id h.order_id b.orders_id_map in
    elim h.side [
      | buy ↦ record b { bids = bids; orders_id_map = known }
      | sell ↦ record b { asks = asks; orders_id_map = known }
    ]

pub remove_order-cancelled_book :
    (s : Session) (v : Inv s.book) (id : OrderId) (h : FindOrderHelper)
    → find_id id s.book.orders_id_map ≡ some h
    → (remove_order s id).book ≡ cancelled_book s.book h
unfolding remove_order take_order cancelled_book notify_levels
remove_order-cancelled_book s v id h e = ground (
  arith,
  find_id-named s.book.orders_id_map id h v.named e,
  remove_order-cancel_cont greater buy s.book.bids h v.bids,
  remove_order-cancel_cont less sell s.book.asks h v.asks,
)
