-- ===== src/BookSide/Gone.antt =====
-- An order that `BookSide::remove_order` takes out is on no level afterwards.
use order_forge_matching_eng.BookSide.Without.{remove-append}
use order_forge_matching_eng.Common.{◌≡◌, refl, false, [], ◌∷◌, All, arith}
use order_forge_matching_eng.ScaledInt.{Price}
use order_forge_matching_eng.Enums.{Side, OrderId}
use order_forge_matching_eng.Order.{Order}
use order_forge_matching_eng.NodeList.{NodeList, contains, remove}
use order_forge_matching_eng.PriceLevel.Orders.{Distinct}
use order_forge_matching_eng.OrderBookData.{CompFunc, OrderBookContainer}
use order_forge_matching_eng.OrderBookData.Sorted.{Sorted}
use order_forge_matching_eng.BookSide.Match.{all_nodes}
use order_forge_matching_eng.BookSide.Invariant.{IsEntry}
use order_forge_matching_eng.BookSide.Enqueue.{contains-append}
use order_forge_matching_eng.BookSide.Cancel.{OnlyAt, absent-After}

contains-remove_same :
    (id : OrderId) (nodes : NodeList Order) → Distinct nodes → contains id (remove id nodes) ≡ false
unfolding contains remove
contains-remove_same id [] d = refl
contains-remove_same id ((i, o) ∷ nodes) d = ground (arith, contains-remove_same id nodes d.1)

pub contains-remove_nodes :
    (c : CompFunc) (side : Side) (p : Price) (id : OrderId) (cont : OrderBookContainer)
    → All (IsEntry side) cont
    → Sorted c cont
    → OnlyAt c p id cont
    → contains id (remove id (all_nodes cont)) ≡ false
unfolding all_nodes
contains-remove_nodes c side p id [] vs s only = contains-remove_same id [] tt
contains-remove_nodes c side p id ((k, l) ∷ rest) vs s only = ground (
  arith,
  remove-append id l.order_cont (all_nodes rest),
  contains-append id (remove id l.order_cont) (all_nodes rest),
  contains-append id l.order_cont (remove id (all_nodes rest)),
  contains-remove_same id l.order_cont vs.0.2,
  contains-remove_nodes c side p id rest vs.1 s.1 only.1,
  absent-After c p id rest only.1,
)
