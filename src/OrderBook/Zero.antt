-- ===== src/OrderBook/Zero.antt =====
-- What `OrderBook::add_order` makes of an order that wants nothing.
use order_forge_matching_eng.Order.{Order}
use order_forge_matching_eng.PriceLevel.{PriceLevel}
use order_forge_matching_eng.BookSide.{BookSide}
use order_forge_matching_eng.OrderBook.{OrderBook}
