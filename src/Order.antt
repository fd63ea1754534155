-- ===== src/Order.antt =====
-- order_forge/data_types/order.h.
use text.Mathlib.Text.{◌==◌ as str_eq}
use order_forge_matching_eng.Common.{ℕ, Bool, ltb, if◌then◌else◌}
use order_forge_matching_eng.ScaledInt.{Quantity, Price, sub_assign}
use order_forge_matching_eng.Enums.{
  Side, buy, OrderStatus, OrderType, Symbol, AccountId, OrderId, same_side,
}
use order_forge_matching_eng.IdGenerator.{IdGenerator, generate_id}

pub record Order : Type 0 where
  pub symbol : Symbol
  pub price : Price
  pub qty : Quantity
  pub remaining_qty : Quantity
  pub side : Side
  pub status : OrderStatus
  pub type : OrderType
  pub client_order_id : OrderId
  pub order_id : OrderId
  pub timestamp : ℕ
  pub acc_id : AccountId

-- The constructor, at the time `now` that `get_nano_ts` reads.
unfoldable pub new_order :
    (now : ℕ)
    → Symbol
    → Price
    → Quantity
    → Side
    → OrderStatus
    → OrderType
    → AccountId
    → OrderId
    → OrderId
    → Order
new_order now symbol price qty side status type acc_id client_order_id order_id = record {
  symbol = symbol;
  price = price;
  qty = qty;
  remaining_qty = qty;
  side = side;
  status = status;
  type = type;
  client_order_id = client_order_id;
  order_id = order_id;
  timestamp = now;
  acc_id = acc_id;
}

-- `order_id_ = get_id<Order>()`
unfoldable pub set_order_id : IdGenerator → Order → IdGenerator × Order
set_order_id g o = let (g', id) = generate_id g in (g', record o { order_id = id })

abbrev pub set_symbol : Symbol → Order → Order
set_symbol s o = record o { symbol = s }

abbrev pub set_status : OrderStatus → Order → Order
set_status s o = record o { status = s }

-- A reduction below 0 is logged and not made.
unfoldable pub reduce_qty : Quantity → Order → Order
reduce_qty q o =
    if ltb o.remaining_qty q then o else record o { remaining_qty = sub_assign o.remaining_qty q }

abbrev pub is_buy : Order → Bool
is_buy o = same_side o.side buy

abbrev pub is_same_symbol : Symbol → Order → Bool
is_same_symbol s o = str_eq s o.symbol

-- Where to find an order that rests in the book.
pub record FindOrderHelper : Type 0 where
  pub order_id : OrderId
  pub price : Price
  pub side : Side
