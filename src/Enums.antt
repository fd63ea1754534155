-- ===== src/Enums.antt =====
-- order_forge/data_types/enums.h and the type aliases of types.h.
use Prim.Native.String.{String}
use order_forge_matching_eng.Common.{ℕ, Bool, true, false}

pub data Side : Type 0 where
  buy : Side
  sell : Side

pub data OrderStatus : Type 0 where
  opened partial filled cancelled rejected : OrderStatus

pub data OrderType : Type 0 where
  limit market fill_and_kill : OrderType

abbrev pub Symbol : Type 0
Symbol = String

abbrev pub AccountId : Type 0
AccountId = ℕ

abbrev pub OrderId : Type 0
OrderId = ℕ

abbrev pub TradeId : Type 0
TradeId = ℕ

-- `a == b` on sides
abbrev pub same_side : Side → Side → Bool
same_side buy buy = true
same_side sell sell = true
same_side _ _ = false

-- `status == FILLED`
abbrev pub is_filled : OrderStatus → Bool
is_filled filled = true
is_filled _ = false
