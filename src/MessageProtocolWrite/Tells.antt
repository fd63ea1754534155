-- ===== src/MessageProtocolWrite/Tells.antt =====
-- What a client reads in the messages of the feeds.
use order_forge_matching_eng.Common.{◌≡◌, refl, ◌∙◌, some, none}
use order_forge_matching_eng.Enums.{Side, OrderStatus, OrderType}
use order_forge_matching_eng.Order.{Order}
use order_forge_matching_eng.Trade.{Trade, LastTradeUpdate}
use order_forge_matching_eng.PriceLevel.{PriceLevelUpdate}
use order_forge_matching_eng.JsonLibrary.{JsonLibrary, JsonWriter, Scaling, EnumNames, find_key}
use order_forge_matching_eng.MessageProtocol.Outcome.{Reads}
use order_forge_matching_eng.MessageProtocolWrite.{
  order_json, order_json_string, trade_json, trade_json_string, level_json, level_json_string,
  last_trade_json, last_trade_json_string,
}

module _ (J : JsonLibrary) (W : JsonWriter J) (S : Scaling J.Double) (sides : EnumNames Side)
    (types : EnumNames OrderType) (statuses : EnumNames OrderStatus) where
  -- The value names the event and the symbol, and its "data" has each field.
  pub record TellsOrder (j : J.Json) (order : Order) : Type 0 where
    pub event : Reads J J.get_string "event" j "o"
    pub named : Reads J J.get_string "symbol" j order.symbol
    pub body : J.Json
    pub data_is : J.at "data" j ≡ some body
    pub symbol : Reads J J.get_string "symbol" body order.symbol
    pub price : Reads J J.get_double "price" body (S.descale_price order.price)
    pub quantity : Reads J J.get_double "quantity" body (S.descale_quantity order.qty)
    pub remaining_quantity :
        Reads J J.get_double "remaining_quantity" body (S.descale_quantity order.remaining_qty)
    pub side : Reads J J.get_string "side" body (sides.enum_name order.side)
    pub status : Reads J J.get_string "status" body (statuses.enum_name order.status)
    pub type : Reads J J.get_string "type" body (types.enum_name order.type)
    pub client_order_id : Reads J J.get_uint64 "client_order_id" body order.client_order_id
    pub order_id : Reads J J.get_uint64 "order_id" body order.order_id
    pub timestamp : Reads J J.get_uint64 "timestamp" body order.timestamp
    pub account_id : Reads J J.get_uint64 "account_id" body order.acc_id

  -- The value names the event and the symbol, and its "data" has each field.
  pub record TellsTrade (j : J.Json) (trade : Trade) : Type 0 where
    pub event : Reads J J.get_string "event" j "t"
    pub named : Reads J J.get_string "symbol" j trade.symbol
    pub body : J.Json
    pub data_is : J.at "data" j ≡ some body
    pub symbol : Reads J J.get_string "symbol" body trade.symbol
    pub price : Reads J J.get_double "price" body (S.descale_price trade.price)
    pub quantity : Reads J J.get_double "quantity" body (S.descale_quantity trade.qty)
    pub crossing_side :
        Reads J J.get_string "crossing_side" body (sides.enum_name trade.crossing_side)
    pub passive_account_id : Reads J J.get_uint64 "passive_account_id" body trade.passive_account_id
    pub crossing_account_id :
        Reads J J.get_uint64 "crossing_account_id" body trade.crossing_account_id
    pub passive_order_id : Reads J J.get_uint64 "passive_order_id" body trade.passive_order_id
    pub crossing_order_id : Reads J J.get_uint64 "crossing_order_id" body trade.crossing_order_id
    pub trade_id : Reads J J.get_uint64 "trade_id" body trade.trade_id

  -- The value names the event and the symbol, and its "data" has each field.
  pub record TellsLevel (j : J.Json) (update : PriceLevelUpdate) : Type 0 where
    pub event : Reads J J.get_string "event" j "p"
    pub named : Reads J J.get_string "symbol" j update.symbol
    pub body : J.Json
    pub data_is : J.at "data" j ≡ some body
    pub price : Reads J J.get_double "price" body (S.descale_price update.price)
    pub total_quantity :
        Reads J J.get_double "total_quantity" body (S.descale_quantity update.total_qty)
    pub side : Reads J J.get_string "side" body (sides.enum_name update.side)

  -- The value names the event and the symbol, and its "data" has each field.
  pub record TellsLastTrade (j : J.Json) (update : LastTradeUpdate) : Type 0 where
    pub event : Reads J J.get_string "event" j "l"
    pub named : Reads J J.get_string "symbol:" j update.symbol
    pub body : J.Json
    pub data_is : J.at "data" j ≡ some body
    pub price : Reads J J.get_double "price" body (S.descale_price update.price)
    pub quantity : Reads J J.get_double "quantity" body (S.descale_quantity update.quantity)
    pub side : Reads J J.get_string "side" body (sides.enum_name update.side)

  -- If the parser reads the text back as the value that was dumped, a client that parses the message
  -- of an order finds the event "o", the symbol and each field of the order under its key.
  pub order_json-Tells :
      (order : Order)
      → J.parse (order_json_string J W S sides types statuses order)
        ≡ some (order_json J W S sides types statuses order)
      → (j : J.Json) × (J.parse (order_json_string J W S sides types statuses order) ≡ some j)
        × TellsOrder j order
  unfolding order_json find_key
  order_json-Tells order parsed = (
    _,
    parsed,
    record {
      event = (W.string _, W.at-object _ _ ∙ refl, W.get_string-string _);
      named = (W.string _, W.at-object _ _ ∙ refl, W.get_string-string _);
      body = _;
      data_is = W.at-object _ _ ∙ refl;
      symbol = (W.string _, W.at-object _ _ ∙ refl, W.get_string-string _);
      price = (W.double _, W.at-object _ _ ∙ refl, W.get_double-double _);
      quantity = (W.double _, W.at-object _ _ ∙ refl, W.get_double-double _);
      remaining_quantity = (W.double _, W.at-object _ _ ∙ refl, W.get_double-double _);
      side = (W.string _, W.at-object _ _ ∙ refl, W.get_string-string _);
      status = (W.string _, W.at-object _ _ ∙ refl, W.get_string-string _);
      type = (W.string _, W.at-object _ _ ∙ refl, W.get_string-string _);
      client_order_id = (W.uint64 _, W.at-object _ _ ∙ refl, W.get_uint64-uint64 _);
      order_id = (W.uint64 _, W.at-object _ _ ∙ refl, W.get_uint64-uint64 _);
      timestamp = (W.uint64 _, W.at-object _ _ ∙ refl, W.get_uint64-uint64 _);
      account_id = (W.uint64 _, W.at-object _ _ ∙ refl, W.get_uint64-uint64 _);
    },
  )

  -- If the parser reads the text back as the value that was dumped, a client that parses the message
  -- of a trade finds the event "t", the symbol and each field of the trade under its key.
  pub trade_json-Tells :
      (trade : Trade)
      → J.parse (trade_json_string J W S sides trade) ≡ some (trade_json J W S sides trade)
      → (j : J.Json) × (J.parse (trade_json_string J W S sides trade) ≡ some j) × TellsTrade j trade
  unfolding trade_json find_key
  trade_json-Tells trade parsed = (
    _,
    parsed,
    record {
      event = (W.string _, W.at-object _ _ ∙ refl, W.get_string-string _);
      named = (W.string _, W.at-object _ _ ∙ refl, W.get_string-string _);
      body = _;
      data_is = W.at-object _ _ ∙ refl;
      symbol = (W.string _, W.at-object _ _ ∙ refl, W.get_string-string _);
      price = (W.double _, W.at-object _ _ ∙ refl, W.get_double-double _);
      quantity = (W.double _, W.at-object _ _ ∙ refl, W.get_double-double _);
      crossing_side = (W.string _, W.at-object _ _ ∙ refl, W.get_string-string _);
      passive_account_id = (W.uint64 _, W.at-object _ _ ∙ refl, W.get_uint64-uint64 _);
      crossing_account_id = (W.uint64 _, W.at-object _ _ ∙ refl, W.get_uint64-uint64 _);
      passive_order_id = (W.uint64 _, W.at-object _ _ ∙ refl, W.get_uint64-uint64 _);
      crossing_order_id = (W.uint64 _, W.at-object _ _ ∙ refl, W.get_uint64-uint64 _);
      trade_id = (W.uint64 _, W.at-object _ _ ∙ refl, W.get_uint64-uint64 _);
    },
  )

  -- If the parser reads the texts back as the values that were dumped, a client that parses the
  -- messages of the public feeds finds the event, the price, the quantity and the side of the update.
  -- It finds the symbol under "symbol" in a level update; in a last trade it finds it under "symbol:",
  -- and nothing under "symbol".
  pub public_json-Tells :
      (level : PriceLevelUpdate) (last : LastTradeUpdate)
      → J.parse (level_json_string J W S sides level) ≡ some (level_json J W S sides level)
      → J.parse (last_trade_json_string J W S sides last) ≡ some (last_trade_json J W S sides last)
      → ((j : J.Json) × (J.parse (level_json_string J W S sides level) ≡ some j)
          × TellsLevel j level)
        × ((j : J.Json) × (J.parse (last_trade_json_string J W S sides last) ≡ some j)
            × TellsLastTrade j last
            × (J.at "symbol" j ≡ none))
  unfolding level_json last_trade_json find_key
  public_json-Tells level last parsed parsed_last = (
    (
      _,
      parsed,
      record {
        event = (W.string _, W.at-object _ _ ∙ refl, W.get_string-string _);
        named = (W.string _, W.at-object _ _ ∙ refl, W.get_string-string _);
        body = _;
        data_is = W.at-object _ _ ∙ refl;
        price = (W.double _, W.at-object _ _ ∙ refl, W.get_double-double _);
        total_quantity = (W.double _, W.at-object _ _ ∙ refl, W.get_double-double _);
        side = (W.string _, W.at-object _ _ ∙ refl, W.get_string-string _);
      },
    ),
    (
      _,
      parsed_last,
      record {
        event = (W.string _, W.at-object _ _ ∙ refl, W.get_string-string _);
        named = (W.string _, W.at-object _ _ ∙ refl, W.get_string-string _);
        body = _;
        data_is = W.at-object _ _ ∙ refl;
        price = (W.double _, W.at-object _ _ ∙ refl, W.get_double-double _);
        quantity = (W.double _, W.at-object _ _ ∙ refl, W.get_double-double _);
        side = (W.string _, W.at-object _ _ ∙ refl, W.get_string-string _);
      },
      W.at-object _ _ ∙ refl,
    ),
  )
