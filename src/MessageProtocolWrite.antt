-- ===== src/MessageProtocolWrite.antt =====
-- message_protocols/json/message_protocol_write_json.h: the messages of the feeds, first as values
-- and then as the texts that are sent.
pub mod Tells
use Prim.Native.String.{String}
use Prim.Native.String.{◌++◌ as joined}
use order_forge_matching_eng.Common.{List, [], ◌∷◌}
use order_forge_matching_eng.Enums.{Side, OrderStatus, OrderType}
use order_forge_matching_eng.Order.{Order}
use order_forge_matching_eng.Trade.{Trade, LastTradeUpdate}
use order_forge_matching_eng.PriceLevel.{PriceLevelUpdate}
use order_forge_matching_eng.JsonLibrary.{JsonLibrary, JsonWriter, Scaling, EnumNames}

abbrev pub order_key : String
order_key = "o"

abbrev pub trade_key : String
trade_key = "t"

abbrev pub last_trade_key : String
last_trade_key = "l"

abbrev pub price_level_update_key : String
price_level_update_key = "p"

module _ (J : JsonLibrary) (W : JsonWriter J) (S : Scaling J.Double) (sides : EnumNames Side) where
  module _ (types : EnumNames OrderType) (statuses : EnumNames OrderStatus) where
    unfoldable pub order_json : Order → J.Json
    order_json order = W.object (
        ("event", W.string order_key)
        ∷ ("symbol", W.string order.symbol)
        ∷ (
          "data",
          W.object (
              ("symbol", W.string order.symbol)
              ∷ ("price", W.double (S.descale_price order.price))
              ∷ ("quantity", W.double (S.descale_quantity order.qty))
              ∷ ("remaining_quantity", W.double (S.descale_quantity order.remaining_qty))
              ∷ ("side", W.string (sides.enum_name order.side))
              ∷ ("status", W.string (statuses.enum_name order.status))
              ∷ ("type", W.string (types.enum_name order.type))
              ∷ ("client_order_id", W.uint64 order.client_order_id)
              ∷ ("order_id", W.uint64 order.order_id)
              ∷ ("timestamp", W.uint64 order.timestamp)
              ∷ ("account_id", W.uint64 order.acc_id)
              ∷ []),
        )
        ∷ [])

    unfoldable pub order_json_string : Order → String
    order_json_string order = joined (W.dump (order_json order)) "\n"

  unfoldable pub trade_json : Trade → J.Json
  trade_json trade = W.object (
      ("event", W.string trade_key)
      ∷ ("symbol", W.string trade.symbol)
      ∷ (
        "data",
        W.object (
            ("symbol", W.string trade.symbol)
            ∷ ("price", W.double (S.descale_price trade.price))
            ∷ ("quantity", W.double (S.descale_quantity trade.qty))
            ∷ ("crossing_side", W.string (sides.enum_name trade.crossing_side))
            ∷ ("passive_account_id", W.uint64 trade.passive_account_id)
            ∷ ("crossing_account_id", W.uint64 trade.crossing_account_id)
            ∷ ("passive_order_id", W.uint64 trade.passive_order_id)
            ∷ ("crossing_order_id", W.uint64 trade.crossing_order_id)
            ∷ ("trade_id", W.uint64 trade.trade_id)
            ∷ []),
      )
      ∷ [])

  unfoldable pub trade_json_string : Trade → String
  trade_json_string trade = joined (W.dump (trade_json trade)) "\n"

  unfoldable pub level_json : PriceLevelUpdate → J.Json
  level_json update = W.object (
      ("event", W.string price_level_update_key)
      ∷ ("symbol", W.string update.symbol)
      ∷ (
        "data",
        W.object (
            ("price", W.double (S.descale_price update.price))
            ∷ ("total_quantity", W.double (S.descale_quantity update.total_qty))
            ∷ ("side", W.string (sides.enum_name update.side))
            ∷ []),
      )
      ∷ [])

  unfoldable pub level_json_string : PriceLevelUpdate → String
  level_json_string update = joined (W.dump (level_json update)) "\n"

  unfoldable pub last_trade_json : LastTradeUpdate → J.Json
  last_trade_json update = W.object (
      ("event", W.string last_trade_key)
      ∷ ("symbol:", W.string update.symbol)
      ∷ (
        "data",
        W.object (
            ("price", W.double (S.descale_price update.price))
            ∷ ("quantity", W.double (S.descale_quantity update.quantity))
            ∷ ("side", W.string (sides.enum_name update.side))
            ∷ []),
      )
      ∷ [])

  unfoldable pub last_trade_json_string : LastTradeUpdate → String
  last_trade_json_string update = joined (W.dump (last_trade_json update)) "\n"
