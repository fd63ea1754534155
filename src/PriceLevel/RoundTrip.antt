-- ===== src/PriceLevel/RoundTrip.antt =====
-- `PriceLevel::add_order`, undone by `PriceLevel::remove_order`.
use order_forge_matching_eng.Common.{ℕ, ◌<◌, ◌≡◌, ◌≢◌, false, some, [], ◌∷◌, arith}
use order_forge_matching_eng.ScaledInt.{u64_mod, sub_assign-add_assign}
use order_forge_matching_eng.Order.{Order}
use order_forge_matching_eng.NodeList.{NodeList, contains, find, push, remove}
use order_forge_matching_eng.PriceLevel.{
  PriceLevel, PriceLevelUpdate, insert_order, add_order, remove_order,
}

find-push :
    (id : ℕ) (o : Order) (nodes : NodeList Order)
    → contains id nodes ≡ false
    → (find id (push id o nodes) ≡ some o) × (remove id (push id o nodes) ≡ nodes)
unfolding contains find remove
find-push id o [] h = ground arith
find-push id o ((i, p) ∷ nodes) h = ground (arith, find-push id o nodes)

-- A level takes an order that has an id, stands at its price and is not on the level yet; to remove
-- the order again gives the level back as it was, also where the total quantity wraps.
pub remove_order-add_order :
    (l : PriceLevel) (o : Order)
    → o.price ≡ l.price
    → o.order_id ≢ 0
    → contains o.order_id l.order_cont ≡ false
    → l.total_qty < u64_mod
    → o.remaining_qty < u64_mod
    → (l' : PriceLevel) × (u : PriceLevelUpdate) × (add_order l o ≡ some (l', u))
      × ((remove_order l' o.order_id).0 ≡ l)
unfolding add_order insert_order remove_order
remove_order-add_order l o p id new fits word = (
  (insert_order l o).0,
  (insert_order l o).1,
  ground arith,
  ground (
    arith,
    find-push o.order_id o l.order_cont new,
    sub_assign-add_assign l.total_qty o.remaining_qty,
  ),
)
