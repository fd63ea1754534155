-- ===== src/Trade.antt =====
-- order_forge/data_types/trade.h.
use order_forge_matching_eng.ScaledInt.{Quantity, Price}
use order_forge_matching_eng.Enums.{Side, Symbol, AccountId, OrderId, TradeId}
use order_forge_matching_eng.IdGenerator.{IdGenerator, generate_id}

pub record LastTradeUpdate : Type 0 where
  pub symbol : Symbol
  pub price : Price
  pub quantity : Quantity
  pub side : Side

pub record Trade : Type 0 where
  pub symbol : Symbol
  pub price : Price
  pub qty : Quantity
  pub crossing_side : Side
  pub passive_account_id : AccountId
  pub crossing_account_id : AccountId
  pub passive_order_id : OrderId
  pub crossing_order_id : OrderId
  pub trade_id : TradeId

-- The constructor, which draws the trade's id from `get_id<Trade>()`.
unfoldable pub new_trade :
    IdGenerator
    → Symbol
    → Price
    → Quantity
    → Side
    → AccountId
    → AccountId
    → OrderId
    → OrderId
    → IdGenerator × Trade
new_trade g symbol price qty side passive_acc crossing_acc passive_id crossing_id =
    let (g', id) = generate_id g in
    (
      g',
      record {
        symbol = symbol;
        price = price;
        qty = qty;
        crossing_side = side;
        passive_account_id = passive_acc;
        crossing_account_id = crossing_acc;
        passive_order_id = passive_id;
        crossing_order_id = crossing_id;
        trade_id = id;
      },
    )
