-- ===== src/OrderBook/Cancelled.antt =====
-- What `OrderBook::remove_order` leaves: a well-formed book, whose queues lack the order.
use order_forge_matching_eng.BookSide.Without.{remove-absent}
use order_forge_matching_eng.Common.{
  ◌≡◌, ◌≢◌, ◌⊎◌, refl, sym, subst, inl, inr, Option-cases, ◌==◌, if◌then◌else◌, none, some, [], ◌∷◌,
  All, All-mono, arith,
}
use order_forge_matching_eng.Common.Int.{◌<ℤ◌}
use order_forge_matching_eng.ScaledInt.{Price}
use order_forge_matching_eng.Enums.{Side, buy, sell, OrderId}
use order_forge_matching_eng.Order.{Order, FindOrderHelper}
use order_forge_matching_eng.NodeList.{NodeList, remove}
use order_forge_matching_eng.PriceLevel.{PriceLevel}
use order_forge_matching_eng.OrderBookData.{CompFunc, OrderBookContainer}
use order_forge_matching_eng.BookSide.{BookSide}
use order_forge_matching_eng.BookSide.Match.{all_nodes}
use order_forge_matching_eng.BookSide.Sweep.{with_levels}
use order_forge_matching_eng.BookSide.Fill.{cont_of}
use order_forge_matching_eng.BookSide.Invariant.{SideInv}
use order_forge_matching_eng.BookSide.Cancel.{
  cancel_cont, cancel_cont-SideInv, all_nodes-cancel_cont,
}
use order_forge_matching_eng.BookSide.Gone.{contains-remove_nodes}
use order_forge_matching_eng.OrderBook.{OrderBook, Session, find_id, erase_id, remove_order}
use order_forge_matching_eng.OrderBook.Sides.{less, greater}
use order_forge_matching_eng.OrderBook.Invariant.{IsRegistered, Inv, absent_of_unknown}
use order_forge_matching_eng.OrderBook.Cancelling.{
  find_id-named, find_id-erase_id, IsNamed-erase_id, IsRegistered-erase_id, All-remove,
  contains-other, OnlyAt-known, cancelled_book, remove_order-cancelled_book,
}

keys-cancel_cont :
    (c : CompFunc) (K : Price → Type 0) (p : Price) (id : OrderId) (cont : OrderBookContainer)
    → All (λ (e : Price × PriceLevel). K e.0) cont
    → All (λ (e : Price × PriceLevel). K e.0) (cancel_cont c p id cont)
unfolding cancel_cont
keys-cancel_cont c K p id [] a = tt
keys-cancel_cont c K p id ((k, l) ∷ rest) a = ground (arith, keys-cancel_cont c K p id rest a.1)

-- The queues of both sides lack the id, and so does the map; the rest is as it was.
pub record IsWithout (id : OrderId) (b b' : OrderBook) : Type 0 where
  pub bids : all_nodes (cont_of b'.bids) ≡ remove id (all_nodes (cont_of b.bids))
  pub asks : all_nodes (cont_of b'.asks) ≡ remove id (all_nodes (cont_of b.asks))
  pub known :
      (i : OrderId)
      → find_id i b'.orders_id_map ≡ (if i == id then none else find_id i b.orders_id_map)

abbrev pub Cancels : OrderId → OrderBook → OrderBook → Type 0
Cancels id b b' = Inv b' × IsWithout id b b'

sides : (side : Side) → (side ≡ buy) ⊎ (side ≡ sell)
sides buy = inl refl
sides sell = inr refl

remove_order-unknown :
    (s : Session) (id : OrderId) → find_id id s.book.orders_id_map ≡ none → remove_order s id ≡ s
unfolding remove_order
remove_order-unknown s id unknown = ground (arith, unknown)

unknown_IsWithout :
    (b : OrderBook) (id : OrderId) → Inv b → find_id id b.orders_id_map ≡ none → IsWithout id b b
unknown_IsWithout b id v unknown = record {
  bids = sym (remove-absent id _ (absent_of_unknown b.orders_id_map buy id _ v.bids_known unknown));
  asks =
      sym (remove-absent id _ (absent_of_unknown b.orders_id_map sell id _ v.asks_known unknown));
  known = λ i. ground (arith, unknown);
}

module _ (b : OrderBook) (v : Inv b) (h : FindOrderHelper)
    (e : find_id h.order_id b.orders_id_map ≡ some h) where
  -- A side on which the order may stand, without it.
  taken :
      (c : CompFunc) (side : Side) (s : BookSide)
      → SideInv c side s
      → All (IsRegistered b.orders_id_map side) (all_nodes (cont_of s))
      → let s' = with_levels (cancel_cont c h.price h.order_id (cont_of s)) s in
        SideInv c side s'
        × All (IsRegistered (erase_id h.order_id b.orders_id_map) side) (all_nodes (cont_of s'))
        × (all_nodes (cont_of s') ≡ remove h.order_id (all_nodes (cont_of s)))
  taken c side s w a =
      let only = OnlyAt-known c b.orders_id_map side h.order_id h (cont_of s) e w.entries a in
      let nodes =
        all_nodes-cancel_cont c side h.price h.order_id (cont_of s) w.entries w.sorted only in
      (
        cancel_cont-SideInv c side s h.price h.order_id w,
        rw nodes (
            IsRegistered-erase_id b.orders_id_map side h.order_id _
              (contains-remove_nodes c side h.price h.order_id (cont_of s) w.entries w.sorted only)
              (All-remove (IsRegistered b.orders_id_map side) h.order_id _ a)),
        nodes,
      )

  -- The other side has no order with this id.
  untouched :
      (side : Side) (nodes : NodeList Order)
      → h.side ≢ side
      → All (IsRegistered b.orders_id_map side) nodes
      → All (IsRegistered (erase_id h.order_id b.orders_id_map) side) nodes
        × (nodes ≡ remove h.order_id nodes)
  untouched side nodes other a =
      let absent = contains-other b.orders_id_map side h.order_id h nodes a e other in
      (
        IsRegistered-erase_id b.orders_id_map side h.order_id nodes absent a,
        sym (remove-absent h.order_id nodes absent),
      )

  forgets :
      (i : OrderId)
      → find_id i (erase_id h.order_id b.orders_id_map)
        ≡ (if i == h.order_id then none else find_id i b.orders_id_map)
  forgets i = find_id-erase_id b.orders_id_map h.order_id i

  bid_taken : h.side ≡ buy → Cancels h.order_id b (cancelled_book b h)
  unfolding cancelled_book
  bid_taken is =
      let (bids, known, nodes) = taken greater buy b.bids v.bids v.bids_known in
      let (others, same) = untouched sell _ (ground arith) v.asks_known in
      rw is (
        record {
          bids = bids;
          asks = v.asks;
          bids_known = known;
          asks_known = others;
          named = IsNamed-erase_id b.orders_id_map h.order_id v.named;
          uncrossed =
              keys-cancel_cont greater
                (λ p. All (λ (a : Price × PriceLevel). p <ℤ a.0) (cont_of b.asks)) h.price
                h.order_id (cont_of b.bids) v.uncrossed;
        },
        record { bids = nodes; asks = same; known = forgets },
      )

  ask_taken : h.side ≡ sell → Cancels h.order_id b (cancelled_book b h)
  unfolding cancelled_book
  ask_taken is =
      let (asks, known, nodes) = taken less sell b.asks v.asks v.asks_known in
      let (others, same) = untouched buy _ (ground arith) v.bids_known in
      rw is (
        record {
          bids = v.bids;
          asks = asks;
          bids_known = others;
          asks_known = known;
          named = IsNamed-erase_id b.orders_id_map h.order_id v.named;
          uncrossed =
              All-mono _ _ (cont_of b.bids)
                (λ e k. keys-cancel_cont less (λ a. e.0 <ℤ a) h.price h.order_id (cont_of b.asks) k)
                v.uncrossed;
        },
        record { bids = same; asks = nodes; known = forgets },
      )

  cancelled_book-Cancels : Cancels h.order_id b (cancelled_book b h)
  cancelled_book-Cancels = elim (sides h.side) [ inl is ↦ bid_taken is | inr is ↦ ask_taken is ]

-- Whatever the id, a cancel in a well-formed book keeps it well formed, takes exactly that id out of
-- both queues and out of the map, and leaves every other order in its place.
pub remove_order-Cancels :
    (s : Session) (id : OrderId) → Inv s.book → Cancels id s.book (remove_order s id).book
remove_order-Cancels s id v = elim (Option-cases (find_id id s.book.orders_id_map)) [
  | inl unknown ↦ rw (remove_order-unknown s id unknown) (v, unknown_IsWithout s.book id v unknown)
  | inr (h, e) ↦
      let is : h.order_id ≡ id = find_id-named s.book.orders_id_map id h v.named e in
      rw (remove_order-cancelled_book s v id h e, ← is)
        (cancelled_book-Cancels s.book v h
          (subst (λ i. find_id i s.book.orders_id_map ≡ some h) (sym is) e))
]
