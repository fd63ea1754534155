-- ===== src/OrderBook/Resting.antt =====
-- An order that does not cross comes to rest in the book, and keeps the invariant.
use order_forge_matching_eng.Common.{
  ℕ, ◌+◌, ◌<◌, ◌≡◌, ◌≢◌, refl, sym, ap, subst, ◌∙◌, false, inl, inr, Bool-cases, if◌then◌else◌,
  none, some, [], ◌∷◌, All, All-mono, All-zip, arith,
}
use order_forge_matching_eng.Common.Int.{◌<ℤ◌}
use order_forge_matching_eng.ScaledInt.{Price, u64_mod}
use order_forge_matching_eng.Enums.{Side, buy, sell, OrderId}
use order_forge_matching_eng.Order.{Order, FindOrderHelper, is_buy}
use order_forge_matching_eng.NodeList.{NodeList, contains}
use order_forge_matching_eng.PriceLevel.{PriceLevel, PriceLevelUpdate, insert_order}
use order_forge_matching_eng.PriceLevel.Queue.{open_qty}
use order_forge_matching_eng.OrderBookData.{CompFunc, OrderBookContainer}
use order_forge_matching_eng.OrderBookData.Sorted.{Sorted, After}
use order_forge_matching_eng.BookSide.{BookSide}
use order_forge_matching_eng.BookSide.Match.{all_nodes}
use order_forge_matching_eng.BookSide.Fill.{cont_of}
use order_forge_matching_eng.BookSide.Invariant.{SideInv}
use order_forge_matching_eng.BookSide.Add.{level_at}
use order_forge_matching_eng.BookSide.Enqueue.{enqueue}
use order_forge_matching_eng.BookSide.Rest.{
  added, added-SideInv, all_nodes-added, add_order-added, All-put,
}
use order_forge_matching_eng.OrderBook.{
  OrderBook, OrdersIdMap, find_id, emplace_id, add_order_helper, rest_order, is_crossing_order,
}
use order_forge_matching_eng.OrderBook.Sides.{less, greater}
use order_forge_matching_eng.OrderBook.Invariant.{IsRegistered, IsNamed, Inv, absent_of_unknown}

-- The side on which an order would rest.
abbrev pub own_side : OrderBook → Order → BookSide
own_side b o = if is_buy o then b.bids else b.asks

-- An order that the book can take: it wants something, its id is set and not in use, and the open
-- quantity of its side stays below 2^64.
pub record IsAdmissible (b : OrderBook) (o : Order) : Type 0 where
  pub positive : 0 < o.remaining_qty
  pub named : o.order_id ≢ 0
  pub unknown : find_id o.order_id b.orders_id_map ≡ none
  pub fits : open_qty (all_nodes (cont_of (own_side b o))) + o.remaining_qty < u64_mod

All-enqueue :
    (c : CompFunc) (P : ℕ × Order → Type 0) (id : ℕ) (o : Order) (nodes : NodeList Order)
    → All P nodes
    → P (id, o)
    → All P (enqueue c (id, o) nodes)
unfolding enqueue
All-enqueue c P id o [] a h = (h, tt)
All-enqueue c P id o ((i, p) ∷ nodes) a h = elim (Bool-cases (c.comp o.price p.price)) [
  | inl before ↦ rw before (h, a)
  | inr behind ↦ rw behind (a.0, All-enqueue c P id o nodes a.1 h)
]

-- The map knows what it knew, and the new order.
IsRegistered-emplace_id :
    (m : OrdersIdMap) (side : Side) (id : OrderId) (h : FindOrderHelper) (nodes : NodeList Order)
    → find_id id m ≡ none
    → All (IsRegistered m side) nodes
    → All (IsRegistered (emplace_id id h m) side) nodes
unfolding emplace_id find_id
IsRegistered-emplace_id m side id h [] new a = tt
IsRegistered-emplace_id m side id h ((i, o) ∷ nodes) new a =
    ground (arith, IsRegistered-emplace_id m side id h nodes new a.1)

find_id-emplace_id :
    (m : OrdersIdMap) (id : OrderId) (h : FindOrderHelper)
    → find_id id m ≡ none
    → find_id id (emplace_id id h m) ≡ some h
unfolding emplace_id find_id
find_id-emplace_id m id h new = ground arith

IsNamed-emplace_id :
    (m : OrdersIdMap) (id : OrderId) (h : FindOrderHelper)
    → IsNamed m
    → h.order_id ≡ id
    → IsNamed (emplace_id id h m)
unfolding emplace_id
IsNamed-emplace_id m id h a e = ground arith

-- No ask is as cheap as a bid that does not cross, and no bid as high as such an ask.
above_bid :
    (p : Price) (cont : OrderBookContainer) (k : Price)
    → p <ℤ k
    → After less k cont
    → All (λ (e : Price × PriceLevel). p <ℤ e.0) cont
above_bid p [] k h a = tt
above_bid p ((j, l) ∷ rest) k h a = (ground arith, above_bid p rest k h a.1)

below_ask :
    (p : Price) (cont : OrderBookContainer) (k : Price)
    → k <ℤ p
    → After greater k cont
    → All (λ (e : Price × PriceLevel). e.0 <ℤ p) cont
below_ask p [] k h a = tt
below_ask p ((j, l) ∷ rest) k h a = (ground arith, below_ask p rest k h a.1)

abbrev helper_of : Order → FindOrderHelper
helper_of o = record { order_id = o.order_id; price = o.price; side = o.side }

-- The book with the order at rest.
unfoldable pub rested : OrderBook → Order → OrderBook
unfolding emplace_id
rested b o =
    let known = emplace_id o.order_id (helper_of o) b.orders_id_map in
    if is_buy o
    then record b { bids = added greater b.bids o; orders_id_map = known }
    else record b { asks = added less b.asks o; orders_id_map = known }

module _ (b : OrderBook) (o : Order) (v : Inv b) (apart : is_crossing_order b o ≡ false) where
  asks_above :
      (cont : OrderBookContainer)
      → cont ≡ cont_of b.asks
      → o.side ≡ buy
      → All (λ (e : Price × PriceLevel). o.price <ℤ e.0) cont
  unfolding is_crossing_order
  asks_above [] e side = tt
  asks_above ((k, l) ∷ rest) e side =
      let first : o.price <ℤ k = ground arith in
      (first, above_bid o.price rest k first (subst (Sorted less) (sym e) v.asks.sorted).0)

  bids_below :
      (cont : OrderBookContainer)
      → cont ≡ cont_of b.bids
      → o.side ≡ sell
      → All (λ (e : Price × PriceLevel). e.0 <ℤ o.price) cont
  unfolding is_crossing_order
  bids_below [] e side = tt
  bids_below ((k, l) ∷ rest) e side =
      let first : k <ℤ o.price = ground arith in
      (first, below_ask o.price rest k first (subst (Sorted greater) (sym e) v.bids.sorted).0)

  module _ (n : IsAdmissible b o) where
    known : OrdersIdMap
    known = emplace_id o.order_id (helper_of o) b.orders_id_map

    -- The map knows every order of a side that has taken the new one.
    known-added :
        (c : CompFunc) (side : Side) (s : BookSide)
        → SideInv c side s
        → All (IsRegistered b.orders_id_map side) (all_nodes (cont_of s))
        → o.side ≡ side
        → open_qty (all_nodes (cont_of s)) + o.remaining_qty < u64_mod
        → SideInv c side (added c s o)
          × All (IsRegistered known side) (all_nodes (cont_of (added c s o)))
    unfolding known
    known-added c side s w a is_side fits =
        let new = absent_of_unknown b.orders_id_map side o.order_id _ a n.unknown in
        (
          added-SideInv c side s o w is_side n.positive new fits,
          rw (all_nodes-added c side s o w is_side n.positive new fits) (
              All-enqueue c (IsRegistered known side) o.order_id o (all_nodes (cont_of s))
                (IsRegistered-emplace_id b.orders_id_map side o.order_id (helper_of o) _ n.unknown
                  a)
                (find_id-emplace_id b.orders_id_map o.order_id (helper_of o) n.unknown
                  ∙ ap some (ground arith))),
        )

    bought : o.side ≡ buy → Inv (record b { bids = added greater b.bids o; orders_id_map = known })
    unfolding known added
    bought side =
        let fits : open_qty (all_nodes (cont_of b.bids)) + o.remaining_qty < u64_mod =
          ground (arith, n.fits) in
        let (bids, bids_known) = known-added greater buy b.bids v.bids v.bids_known side fits in
        record {
          bids = bids;
          asks = v.asks;
          bids_known = bids_known;
          asks_known =
              IsRegistered-emplace_id b.orders_id_map sell o.order_id (helper_of o) _ n.unknown
                v.asks_known;
          named = IsNamed-emplace_id b.orders_id_map o.order_id (helper_of o) v.named refl;
          uncrossed =
              All-put greater (λ e. All (λ (a : Price × PriceLevel). e.0 <ℤ a.0) (cont_of b.asks))
                o.price _ (cont_of b.bids) v.uncrossed (asks_above (cont_of b.asks) refl side);
        }

    sold : o.side ≡ sell → Inv (record b { asks = added less b.asks o; orders_id_map = known })
    unfolding known added
    sold side =
        let fits : open_qty (all_nodes (cont_of b.asks)) + o.remaining_qty < u64_mod =
          ground (arith, n.fits) in
        let (asks, asks_known) = known-added less sell b.asks v.asks v.asks_known side fits in
        record {
          bids = v.bids;
          asks = asks;
          bids_known =
              IsRegistered-emplace_id b.orders_id_map buy o.order_id (helper_of o) _ n.unknown
                v.bids_known;
          asks_known = asks_known;
          named = IsNamed-emplace_id b.orders_id_map o.order_id (helper_of o) v.named refl;
          uncrossed =
              All-mono _ _ (cont_of b.bids)
                (λ e h. All-put less (λ a. e.0 <ℤ a.0) o.price _ (cont_of b.asks) h.0 h.1)
                (All-zip _ _ (cont_of b.bids) v.uncrossed (bids_below (cont_of b.bids) refl side));
        }

    pub rested-Inv : Inv (rested b o)
    unfolding rested known
    rested-Inv = elim (Bool-cases (is_buy o)) [
      | inl buys ↦ rw (buys, rested) (bought (ground arith))
      | inr sells ↦ rw (sells, rested) (sold (ground arith))
    ]

    -- The book takes the order: no assertion fails.
    pub rest_order-rested : (u : PriceLevelUpdate) × (rest_order b o ≡ some (rested b o, u))
    unfolding rest_order rested add_order_helper
    rest_order-rested = elim (Bool-cases (is_buy o)) [
      | inl buys ↦
          let new : contains o.order_id (all_nodes (cont_of b.bids)) ≡ false =
            absent_of_unknown b.orders_id_map buy o.order_id _ v.bids_known n.unknown in
          let fits : open_qty (all_nodes (cont_of b.bids)) + o.remaining_qty < u64_mod =
            ground (arith, n.fits) in
          (
            (insert_order (level_at greater b.bids.levels o.price) o).1,
            rw (
              buys,
              add_order-added greater buy b.bids o v.bids (ground arith) n.positive new fits
                  n.named,
            ),
          )
      | inr sells ↦
          let new : contains o.order_id (all_nodes (cont_of b.asks)) ≡ false =
            absent_of_unknown b.orders_id_map sell o.order_id _ v.asks_known n.unknown in
          let fits : open_qty (all_nodes (cont_of b.asks)) + o.remaining_qty < u64_mod =
            ground (arith, n.fits) in
          (
            (insert_order (level_at less b.asks.levels o.price) o).1,
            rw (
              sells,
              add_order-added less sell b.asks o v.asks (ground arith) n.positive new fits n.named,
            ),
          )
    ]
