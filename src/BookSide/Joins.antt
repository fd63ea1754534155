-- ===== src/BookSide/Joins.antt =====
-- `BookSide::add_order` as its caller sees it.
use order_forge_matching_eng.Common.{◌+◌, ◌<◌, ◌≡◌, ◌≢◌, some, false}
use order_forge_matching_eng.ScaledInt.{u64_mod}
use order_forge_matching_eng.Enums.{Side}
use order_forge_matching_eng.Order.{Order}
use order_forge_matching_eng.NodeList.{contains}
use order_forge_matching_eng.PriceLevel.{PriceLevelUpdate, insert_order}
use order_forge_matching_eng.PriceLevel.Queue.{open_qty}
use order_forge_matching_eng.OrderBookData.{CompFunc}
use order_forge_matching_eng.BookSide.{BookSide, add_order}
use order_forge_matching_eng.BookSide.Match.{all_nodes}
use order_forge_matching_eng.BookSide.Fill.{cont_of}
use order_forge_matching_eng.BookSide.Invariant.{SideInv}
use order_forge_matching_eng.BookSide.Add.{level_at}
use order_forge_matching_eng.BookSide.Enqueue.{enqueue}
use order_forge_matching_eng.BookSide.Rest.{added, added-SideInv, all_nodes-added, add_order-added}

-- A well-formed side takes an order of its own side that has a positive remaining quantity, an id that
-- is not 0 and not on the side, and keeps the side's open quantity below 2^64: no assertion fails, the
-- side stays well formed, and the order stands behind every order at its price or a better one.
pub add_order-enqueue :
    (c : CompFunc) (side : Side) (b : BookSide) (o : Order)
    → SideInv c side b
    → o.side ≡ side
    → 0 < o.remaining_qty
    → o.order_id ≢ 0
    → contains o.order_id (all_nodes (cont_of b)) ≡ false
    → open_qty (all_nodes (cont_of b)) + o.remaining_qty < u64_mod
    → (b' : BookSide) × (u : PriceLevelUpdate) × (add_order c b o ≡ some (b', u))
      × SideInv c side b'
      × (all_nodes (cont_of b') ≡ enqueue c (o.order_id, o) (all_nodes (cont_of b)))
add_order-enqueue c side b o v is positive named new fits = (
  added c b o,
  (insert_order (level_at c b.levels o.price) o).1,
  add_order-added c side b o v is positive new fits named,
  added-SideInv c side b o v is positive new fits,
  all_nodes-added c side b o v is positive new fits,
)
