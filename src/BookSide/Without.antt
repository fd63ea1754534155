-- ===== src/BookSide/Without.antt =====
-- A level, and a list of orders, without the order of an id.
use order_forge_matching_eng.Common.{
  ◌≡◌, refl, false, if◌then◌else◌, none, [], ◌∷◌, ◌++◌, All, arith,
}
use order_forge_matching_eng.ScaledInt.{Price}
use order_forge_matching_eng.Enums.{Side, OrderId}
use order_forge_matching_eng.Order.{Order}
use order_forge_matching_eng.NodeList
use order_forge_matching_eng.NodeList.{NodeList, contains, remove}
use order_forge_matching_eng.PriceLevel
use order_forge_matching_eng.PriceLevel.{PriceLevel, PriceLevelUpdate, price_level, update}
use order_forge_matching_eng.PriceLevel.Queue.{open_qty}
use order_forge_matching_eng.PriceLevel.Orders.{IsResting}

-- The level without the order with this id.
abbrev pub without : OrderId → PriceLevel → PriceLevel
without id l = (PriceLevel.remove_order l id).0

-- A level has no order with this id to lose.
pub without-absent :
    (id : OrderId) (l : PriceLevel) → NodeList.find id l.order_cont ≡ none → without id l ≡ l
unfolding PriceLevel.remove_order
without-absent id l e = ground arith

pub without-price : (id : OrderId) (l : PriceLevel) → (without id l).price ≡ l.price
unfolding PriceLevel.remove_order
without-price id l = ground arith

pub remove_order-update :
    (id : OrderId) (l : PriceLevel)
    → PriceLevel.remove_order l id ≡ (without id l, update (without id l) (without id l).symbol)
unfolding PriceLevel.remove_order
remove_order-update id l = refl

pub find-nil : (id : OrderId) → NodeList.find {T = Order} id [] ≡ none
unfolding NodeList.find
find-nil id = refl

pub empty-of-open_qty :
    (side : Side) (p : Price) (nodes : NodeList Order)
    → All (IsResting side p) nodes
    → open_qty nodes ≡ 0
    → nodes ≡ []
unfolding open_qty
empty-of-open_qty side p [] a e = refl
empty-of-open_qty side p ((i, o) ∷ nodes) a e = absurd (omega arith)

pub remove-absent :
    (id : OrderId) (nodes : NodeList Order) → contains id nodes ≡ false → remove id nodes ≡ nodes
unfolding contains remove
remove-absent id [] h = refl
remove-absent id ((i, o) ∷ nodes) h = ground (arith, remove-absent id nodes)

pub contains_of_find :
    (id : OrderId) (nodes : NodeList Order)
    → NodeList.find id nodes ≡ none
    → contains id nodes ≡ false
unfolding contains NodeList.find
contains_of_find id [] h = refl
contains_of_find id ((i, o) ∷ nodes) h = ground (arith, contains_of_find id nodes)

pub order_cont-without :
    (id : OrderId) (l : PriceLevel) → (without id l).order_cont ≡ remove id l.order_cont
unfolding PriceLevel.remove_order
order_cont-without id l =
    ground (arith, contains_of_find id l.order_cont, remove-absent id l.order_cont)

pub remove-append :
    (id : OrderId) (xs ys : NodeList Order)
    → remove id (xs ++ ys) ≡ (if contains id xs then remove id xs ++ ys else xs ++ remove id ys)
unfolding contains remove
remove-append id [] ys = refl
remove-append id ((i, o) ∷ xs) ys = ground (arith, remove-append id xs ys)
