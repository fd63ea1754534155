-- ===== src/Logs.antt =====
-- The `*Log` structs of order_forge: what the logger keeps of an order, a trade, a trade's public
-- part and a level's update. `write` fills a struct that the ring buffer holds.
use order_forge_matching_eng.Common.{ℕ}
use order_forge_matching_eng.ScaledInt.{Quantity, Price}
use order_forge_matching_eng.Enums.{
  Side, OrderStatus, OrderType, Symbol, AccountId, OrderId, TradeId,
}
use order_forge_matching_eng.Order.{Order}
use order_forge_matching_eng.Trade.{Trade, LastTradeUpdate}
use order_forge_matching_eng.PriceLevel.{PriceLevelUpdate}

pub record OrderLog : Type 0 where
  pub symbol : Symbol
  pub price : Price
  pub qty : Quantity
  pub remaining_qty : Quantity
  pub side : Side
  pub status : OrderStatus
  pub type : OrderType
  pub client_order_id : OrderId
  pub order_id : OrderId
  pub timestamp : ℕ
  pub acc_id : AccountId

unfoldable pub write_order : OrderLog → Order → OrderLog
write_order log order = record log {
  symbol = order.symbol;
  price = order.price;
  qty = order.qty;
  remaining_qty = order.remaining_qty;
  side = order.side;
  status = order.status;
  type = order.type;
  client_order_id = order.client_order_id;
  order_id = order.order_id;
  timestamp = order.timestamp;
  acc_id = order.acc_id;
}

pub record TradeLog : Type 0 where
  pub symbol : Symbol
  pub price : Price
  pub qty : Quantity
  pub crossing_side : Side
  pub passive_account_id : AccountId
  pub crossing_account_id : AccountId
  pub passive_order_id : OrderId
  pub crossing_order_id : OrderId
  pub trade_id : TradeId

unfoldable pub write_trade : TradeLog → Trade → TradeLog
write_trade log trade = record log {
  symbol = trade.symbol;
  price = trade.price;
  qty = trade.qty;
  crossing_side = trade.crossing_side;
  passive_account_id = trade.passive_account_id;
  crossing_account_id = trade.crossing_account_id;
  passive_order_id = trade.passive_order_id;
  crossing_order_id = trade.crossing_order_id;
  trade_id = trade.trade_id;
}

pub record LastTradeUpdateLog : Type 0 where
  pub symbol : Symbol
  pub price : Price
  pub quantity : Quantity
  pub side : Side

unfoldable pub write_last_trade : LastTradeUpdateLog → LastTradeUpdate → LastTradeUpdateLog
write_last_trade log update = record log {
  symbol = update.symbol;
  price = update.price;
  quantity = update.quantity;
  side = update.side;
}

pub record PriceLevelUpdateLog : Type 0 where
  pub symbol : Symbol
  pub price : Price
  pub total_qty : Quantity
  pub side : Side

unfoldable pub write_level : PriceLevelUpdateLog → PriceLevelUpdate → PriceLevelUpdateLog
write_level log update = record log {
  symbol = update.symbol;
  price = update.price;
  total_qty = update.total_qty;
  side = update.side;
}
