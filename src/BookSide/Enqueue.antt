-- ===== src/BookSide/Enqueue.antt =====
-- Where a new order stands in a side's queue: behind every order at its price or a better one, and
-- before the others.
use order_forge_matching_eng.Common.{
  ℕ, ◌<◌, ◌≡◌, refl, true, false, ◌||◌, if◌then◌else◌, none, some, [], ◌∷◌, ◌++◌, All, append_assoc,
  arith,
}
use order_forge_matching_eng.ScaledInt.{Price}
use order_forge_matching_eng.Enums.{Side}
use order_forge_matching_eng.Order.{Order}
use order_forge_matching_eng.NodeList.{NodeList, contains}
use order_forge_matching_eng.PriceLevel.{PriceLevel}
use order_forge_matching_eng.PriceLevel.Queue.{open_qty}
use order_forge_matching_eng.PriceLevel.Orders.{IsResting}
use order_forge_matching_eng.OrderBookData.{CompFunc, OrderBookContainer, find, emplace, store}
use order_forge_matching_eng.OrderBookData.Sorted.{After, Sorted}
use order_forge_matching_eng.BookSide.Match.{all_nodes}
use order_forge_matching_eng.BookSide.Invariant.{IsEntry}

pub contains-append :
    (id : ℕ) (xs ys : NodeList Order) → contains id (xs ++ ys) ≡ (contains id xs || contains id ys)
unfolding contains
contains-append id [] ys = refl
contains-append id ((i, o) ∷ xs) ys = ground (arith, contains-append id xs ys)

module _ (c : CompFunc) where
  unfoldable pub enqueue : ℕ × Order → NodeList Order → NodeList Order
  enqueue (id, o) [] = (id, o) ∷ []
  enqueue (id, o) ((i, p) ∷ nodes) =
      if c.comp o.price p.price then (id, o) ∷ (i, p) ∷ nodes else (i, p) ∷ enqueue (id, o) nodes

  asymm : (p q : Price) → c.comp p q ≡ true → c.comp q p ≡ false
  asymm p q h = ground (arith, c.trans p q p, c.irrefl p)

  module _ (side : Side) (id : ℕ) (o : Order) where
    -- Past the orders of a level that is not behind the new order.
    enqueue-append :
        (k : Price) (xs ys : NodeList Order)
        → All (IsResting side k) xs
        → c.comp o.price k ≡ false
        → enqueue (id, o) (xs ++ ys) ≡ xs ++ enqueue (id, o) ys
    unfolding enqueue
    enqueue-append k [] ys a h = refl
    enqueue-append k ((i, p) ∷ xs) ys a h = ground (arith, enqueue-append k xs ys a.1)

    -- In front of a level that is behind it.
    enqueue-before :
        (k : Price) (xs ys : NodeList Order)
        → All (IsResting side k) xs
        → 0 < open_qty xs
        → c.comp o.price k ≡ true
        → enqueue (id, o) (xs ++ ys) ≡ (id, o) ∷ (xs ++ ys)
    unfolding enqueue open_qty
    enqueue-before k [] ys a pos h = absurd (omega arith)
    enqueue-before k ((i, p) ∷ xs) ys a pos h = ground arith

    enqueue-After :
        (cont : OrderBookContainer)
        → All (IsEntry side) cont
        → After c o.price cont
        → enqueue (id, o) (all_nodes cont) ≡ (id, o) ∷ all_nodes cont
    unfolding all_nodes enqueue
    enqueue-After [] vs a = refl
    enqueue-After ((k, l) ∷ rest) vs a =
        enqueue-before k l.order_cont (all_nodes rest) vs.0.1 (omega arith) a.0

    pub all_nodes-emplace :
        (l : PriceLevel) (cont : OrderBookContainer)
        → All (IsEntry side) cont
        → Sorted c cont
        → find c o.price cont ≡ none
        → l.order_cont ≡ (id, o) ∷ []
        → all_nodes (emplace c o.price l cont) ≡ enqueue (id, o) (all_nodes cont)
    unfolding all_nodes emplace find enqueue
    all_nodes-emplace l [] vs s new e = rw e
    all_nodes-emplace l ((k, old) ∷ rest) vs s new e = ground (
      arith,
      all_nodes-emplace l rest vs.1 s.1,
      enqueue-append k old.order_cont (all_nodes rest) vs.0.1,
      enqueue-before k old.order_cont (all_nodes rest) vs.0.1,
      asymm k o.price,
    )

    pub all_nodes-store :
        (l l' : PriceLevel) (cont : OrderBookContainer)
        → All (IsEntry side) cont
        → Sorted c cont
        → find c o.price cont ≡ some l
        → l'.order_cont ≡ l.order_cont ++ (id, o) ∷ []
        → all_nodes (store c o.price l' cont) ≡ enqueue (id, o) (all_nodes cont)
    unfolding all_nodes store find
    all_nodes-store l l' [] vs s old e = cc
    all_nodes-store l l' ((k, m) ∷ rest) vs s old e = ground (
      arith,
      all_nodes-store l l' rest vs.1 s.1,
      enqueue-append k m.order_cont (all_nodes rest) vs.0.1,
      enqueue-After rest vs.1,
      c.total k o.price,
      append_assoc m.order_cont ((id, o) ∷ []) (all_nodes rest),
      asymm k o.price,
    )
