-- ===== src/OrderBook/Invariant.antt =====
-- What holds of the book between calls.
use order_forge_matching_eng.Common.{ℕ, ◌≡◌, refl, false, none, some, [], ◌∷◌, All, arith}
use order_forge_matching_eng.Common.Int.{◌<ℤ◌}
use order_forge_matching_eng.ScaledInt.{Price}
use order_forge_matching_eng.Enums.{Side, buy, sell}
use order_forge_matching_eng.Order.{Order, FindOrderHelper}
use order_forge_matching_eng.NodeList.{NodeList, contains}
use order_forge_matching_eng.PriceLevel.{PriceLevel}
use order_forge_matching_eng.OrderBookData.{OrderBookContainer}
use order_forge_matching_eng.BookSide.Match.{all_nodes}
use order_forge_matching_eng.BookSide.Fill.{cont_of}
use order_forge_matching_eng.BookSide.Invariant.{SideInv, IsSide-SideInv}
use order_forge_matching_eng.OrderBook.{OrderBook, OrdersIdMap, find_id}
use order_forge_matching_eng.OrderBook.Sides.{less, greater}
use order_forge_matching_eng.OrderBook.Match.{IsBook}

-- `remove_order` can find the order of a node, by its id.
abbrev pub IsRegistered : OrdersIdMap → Side → ℕ × Order → Type 0
IsRegistered m side (id, o) =
    find_id id m ≡ some (record { order_id = id; price = o.price; side = side })

-- No bid is as high as an ask.
abbrev pub Uncrossed : OrderBookContainer → OrderBookContainer → Type 0
Uncrossed bids asks =
    All (λ (b : Price × PriceLevel). All (λ (a : Price × PriceLevel). b.0 <ℤ a.0) asks) bids

-- An entry tells its own id.
abbrev pub IsNamed : OrdersIdMap → Type 0
IsNamed = All λ (e : ℕ × FindOrderHelper). e.1.order_id ≡ e.0

pub record Inv (b : OrderBook) : Type 0 where
  pub bids : SideInv greater buy b.bids
  pub asks : SideInv less sell b.asks
  pub bids_known : All (IsRegistered b.orders_id_map buy) (all_nodes (cont_of b.bids))
  pub asks_known : All (IsRegistered b.orders_id_map sell) (all_nodes (cont_of b.asks))
  pub named : IsNamed b.orders_id_map
  pub uncrossed : Uncrossed (cont_of b.bids) (cont_of b.asks)

pub IsBook-Inv : {b : OrderBook} → Inv b → IsBook b
IsBook-Inv {b} v = record {
  bids = IsSide-SideInv greater buy b.bids v.bids;
  asks = IsSide-SideInv less sell b.asks v.asks;
}

-- An id that the map does not know is on neither side.
pub absent_of_unknown :
    (m : OrdersIdMap) (side : Side) (id : ℕ) (nodes : NodeList Order)
    → All (IsRegistered m side) nodes
    → find_id id m ≡ none
    → contains id nodes ≡ false
unfolding contains
absent_of_unknown m side id [] a h = refl
absent_of_unknown m side id ((i, o) ∷ nodes) a h =
    ground (arith, absent_of_unknown m side id nodes a.1 h)
