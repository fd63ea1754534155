-- ===== src/Tests/Messages.antt =====
-- The theorems on messages, configurations and the app at concrete inputs.
use Prim.Native.String.{String}
use text.Mathlib.Text.{◌==◌ as str_eq}
use order_forge_matching_eng.Common.{◌≡◌, refl, if◌then◌else◌, Option, none, some}
use order_forge_matching_eng.Common.Int.{pos}
use order_forge_matching_eng.Enums.{buy, limit}
use order_forge_matching_eng.Order.{new_order}
use order_forge_matching_eng.Trade.{Trade, LastTradeUpdate}
use order_forge_matching_eng.PriceLevel.{PriceLevelUpdate}
use order_forge_matching_eng.MessageProtocol.{
  value, error, parse_order, parse_fields, parse_values, parse_enum, validate_required_fields,
  get_value,
}
use order_forge_matching_eng.MessageProtocol.Required.{
  first_missing, missing_message, validate_required_fields-first_missing,
}
use order_forge_matching_eng.MessageProtocol.Outcome.{HasFields, judge, verdict, parse_order-judge}
use order_forge_matching_eng.MessageProtocol.Outcome
use order_forge_matching_eng.MessageProtocol.Accepted.{parse_order-value, parse_order-missing}
use order_forge_matching_eng.MessageProtocolWrite.{
  order_json, trade_json, level_json, level_json_string, last_trade_json, last_trade_json_string,
}
use order_forge_matching_eng.MessageProtocolWrite.Tells.{
  TellsOrder, TellsTrade, TellsLevel, TellsLastTrade, order_json-Tells, trade_json-Tells,
  public_json-Tells,
}
use order_forge_matching_eng.Tests.Fixtures.{symbol, order}
use order_forge_matching_eng.Tests.Toy.{
  Toy, words, number, object, no_fields, field, toy, toy_writer, toy_with, toy_writer_with, toy_at,
  toy_field, toy_fields, scaling, sides, types, statuses,
}

-- An order to buy 7 at 101.
abbrev pub order_message : Toy
order_message = object (
    field "symbol" (words "TESTUSD") (
      field "price" (number 101) (
        field "qty" (number 7) (
          field "order_side" (words "BUY") (
            field "order_type" (words "LIMIT") (
              field "order_status" (words "OPEN") (
                field "acc_id" (number 555) (
                  field "client_order_id" (number 0) (field "order_id" (number 3) no_fields)))))))))

abbrev fields : Outcome.Fields (toy order_message)
fields = record {
  symbol = "TESTUSD";
  price = 101;
  qty = 7;
  side = "BUY";
  type = "LIMIT";
  status = "OPEN";
  acc_id = 555;
  client_order_id = 0;
  order_id = 3;
}

has_fields : HasFields (toy order_message) order_message fields
unfolding toy_at toy_field
has_fields = record {
  symbol = (words "TESTUSD", refl, refl);
  price = (number 101, refl, refl);
  qty = (number 7, refl, refl);
  side = (words "BUY", refl, refl);
  type = (words "LIMIT", refl, refl);
  status = (words "OPEN", refl, refl);
  acc_id = (number 555, refl, refl);
  client_order_id = (number 0, refl, refl);
  order_id = (number 3, refl, refl);
}

judge_example :
    parse_order (toy order_message) scaling sides types statuses 0 "order"
    ≡ some (judge (toy order_message) scaling sides types statuses 0 fields)
judge_example =
    parse_order-judge (toy order_message) scaling sides types statuses 0 "order" order_message
      fields refl has_fields

pub is_accepted :
    parse_order (toy order_message) scaling sides types statuses 0 "order"
    ≡ some (value (order limit buy 101 7 3))
unfolding parse_order parse_fields parse_values parse_enum validate_required_fields get_value toy_at
    toy_field new_order
is_accepted = refl

accepted_example :
    (j : Toy) × (f : Outcome.Fields (toy order_message)) × (some order_message ≡ some j)
    × HasFields (toy order_message) j f
    × (judge (toy order_message) scaling sides types statuses 0 f ≡ value (order limit buy 101 7 3))
accepted_example =
    parse_order-value (toy order_message) scaling sides types statuses 0 "order"
      (order limit buy 101 7 3) is_accepted

-- A message without a price and a side.
abbrev pub short_message : Toy
short_message = object (field "symbol" (words "TESTUSD") (field "qty" (number 7) no_fields))

required_example :
    validate_required_fields (toy short_message) short_message ≡ some "missing field: price"
unfolding first_missing missing_message toy_at toy_field
required_example = validate_required_fields-first_missing (toy short_message) short_message

missing_example :
    parse_order (toy short_message) scaling sides types statuses 0 "order"
    ≡ some (error "missing field: price")
unfolding first_missing toy_at toy_field
missing_example =
    parse_order-missing (toy short_message) scaling sides types statuses 0 "order" "price"
      short_message refl refl

abbrev told_order : Toy
told_order =
    order_json (toy short_message) (toy_writer short_message) scaling sides types statuses
      (order limit buy 101 7 3)

order_message_example :
    (j : Toy) × (some told_order ≡ some j)
    × TellsOrder
        (toy told_order)
        (toy_writer told_order)
        scaling
        sides
        types
        statuses
        j
        (order limit buy 101 7 3)
unfolding order_json
order_message_example =
    order_json-Tells (toy told_order) (toy_writer told_order) scaling sides types statuses
      (order limit buy 101 7 3) refl

abbrev trade : Trade
trade = record {
  symbol = symbol;
  price = pos 10100;
  qty = 700000000;
  crossing_side = buy;
  passive_account_id = 1;
  crossing_account_id = 2;
  passive_order_id = 3;
  crossing_order_id = 4;
  trade_id = 5;
}

abbrev told_trade : Toy
told_trade = trade_json (toy short_message) (toy_writer short_message) scaling sides trade

trade_message_example :
    (j : Toy) × (some told_trade ≡ some j)
    × TellsTrade (toy told_trade) (toy_writer told_trade) scaling sides types statuses j trade
unfolding trade_json
trade_message_example =
    trade_json-Tells (toy told_trade) (toy_writer told_trade) scaling sides types statuses trade
      refl

abbrev level : PriceLevelUpdate
level = record { symbol = symbol; price = pos 10100; total_qty = 700000000; side = buy }

abbrev last : LastTradeUpdate
last = record { symbol = symbol; price = pos 10100; quantity = 700000000; side = buy }

-- A parser for the texts of these two updates.
abbrev public_parse : String → Option Toy
public_parse text =
    if str_eq text "p\n"
    then some (level_json (toy short_message) (toy_writer short_message) scaling sides level)
    else some (last_trade_json (toy short_message) (toy_writer short_message) scaling sides last)

public_messages_example :
    ((j : Toy) × (some
          (level_json (toy short_message) (toy_writer short_message) scaling sides level)
        ≡ some j)
      × TellsLevel
          (toy_with public_parse)
          (toy_writer_with public_parse)
          scaling
          sides
          types
          statuses
          j
          level)
    × ((j : Toy) × (some
            (last_trade_json (toy short_message) (toy_writer short_message) scaling sides last)
          ≡ some j)
        × TellsLastTrade
            (toy_with public_parse)
            (toy_writer_with public_parse)
            scaling
            sides
            types
            statuses
            j
            last
        × (toy_at "symbol" j ≡ none))
unfolding level_json last_trade_json level_json_string last_trade_json_string toy_at toy_field
    toy_fields
public_messages_example =
    public_json-Tells (toy_with public_parse) (toy_writer_with public_parse) scaling sides types
      statuses level last refl refl
