-- ===== src/MessageProtocol.antt =====
-- message_protocols/json/message_protocol_json.h: the messages that clients send. `none` is an
-- exception, of the JSON library or of `Result`.
pub mod Required
pub mod Outcome
pub mod Accepted
use Prim.Native.String.{String}
use text.Mathlib.Text.{◌==◌ as str_eq}
use order_forge_matching_eng.Common.{
  ℕ, Bool, true, false, not, ◌==◌, if◌then◌else◌, Option, none, some, ◌>>=◌,
}
use order_forge_matching_eng.Enums.{Side, OrderStatus, OrderType}
use order_forge_matching_eng.Order.{Order, new_order}
use order_forge_matching_eng.JsonLibrary.{JsonLibrary, Scaling, EnumNames}

abbrev pub symbol_key : String
symbol_key = "symbol"

abbrev pub price_key : String
price_key = "price"

abbrev pub qty_key : String
qty_key = "qty"

abbrev pub order_side_key : String
order_side_key = "order_side"

abbrev pub order_type_key : String
order_type_key = "order_type"

abbrev pub order_status_key : String
order_status_key = "order_status"

abbrev pub acc_id_key : String
acc_id_key = "acc_id"

abbrev pub client_order_id_key : String
client_order_id_key = "client_order_id"

abbrev pub order_id_key : String
order_id_key = "order_id"

abbrev set_error : ℕ → String → (ℕ → String) → ℕ → String
set_error code message errors i = if i == code then message else errors i

-- The array as a function of the index; its length bounds no access.
unfoldable pub errors_arr : ℕ → String
errors_arr = set_error 122 "invalid order_status value" (
    set_error 121 "invalid order_type value" (
      set_error 120 "invalid order_side value" (
        set_error 59 "missing field: order_id" (
          set_error 58 "missing field: client_order_id" (
            set_error 57 "missing field: acc_id" (
              set_error 56 "missing field: order_status" (
                set_error 55 "missing field: order_type" (
                  set_error 54 "missing field: order_side" (
                    set_error 53 "missing field: qty" (
                      set_error 52 "missing field: price"
                        (set_error 51 "missing field: symbol" (λ _. "unset error code"))))))))))))

pub data Result (T : Type 0) : Type 0 where
  value : T → Result T
  error : String → Result T

module _ {T : Type 0} where
  abbrev pub is_valid : Result T → Bool
  is_valid (value _) = true
  is_valid (error _) = false

  unfoldable pub get_value : Result T → Option T
  get_value (value t) = some t
  get_value (error _) = none

  unfoldable pub get_error : Result T → Option String
  get_error (value _) = none
  get_error (error message) = some message

-- `if (res.is_valid()) { x = res.get_value(); } else { return Result(res.get_error()); }`, and what
-- follows.
abbrev pub or_return :
    {A B : Type 0} → Option (Result A) → (A → Option (Result B)) → Option (Result B)
or_return r next = do
  res ← r
  if is_valid res
      then get_value res >>= next
      else get_error res >>= (λ message. some (error message))

module _ (J : JsonLibrary) where
  unfoldable pub parse_enum :
      {E : Type 0}
      → EnumNames E
      → (get_error_message : String) → J.Json
      → String
      → Option (Result E)
  parse_enum names get_error_message j field_name = do
    v ← J.at field_name j
    text ← J.get_string v
    some (elim (names.enum_cast text) [ none ↦ error get_error_message | some e ↦ value e ])

  unfoldable pub validate_required_fields : J.Json → Option String
  validate_required_fields j =
      if not (J.contains symbol_key j)
      then some (errors_arr 51)
      else if not (J.contains price_key j)
      then some (errors_arr 52)
      else if not (J.contains qty_key j)
      then some (errors_arr 53)
      else if not (J.contains order_side_key j)
      then some (errors_arr 54)
      else if not (J.contains order_type_key j)
      then some (errors_arr 55)
      else if not (J.contains order_status_key j)
      then some (errors_arr 56)
      else if not (J.contains acc_id_key j)
      then some (errors_arr 57)
      else if not (J.contains client_order_id_key j)
      then some (errors_arr 58)
      else if not (J.contains order_id_key j)
      then some (errors_arr 59)
      else none

  module _ (S : Scaling J.Double) (sides : EnumNames Side) (types : EnumNames OrderType)
      (statuses : EnumNames OrderStatus) where
    -- From the price on, at the time `now` of the order's construction.
    unfoldable pub parse_values : (now : ℕ) → J.Json → String → Option (Result Order)
    parse_values now j symbol = do
      price_value ← J.at price_key j
      price ← J.get_double price_value
      qty_value ← J.at qty_key j
      qty ← J.get_double qty_value
      or_return (parse_enum sides (errors_arr 120) j order_side_key) (λ side.
          or_return (parse_enum types (errors_arr 121) j order_type_key) (λ type.
            or_return (parse_enum statuses (errors_arr 122) j order_status_key) (λ status. (do
              acc_value ← J.at acc_id_key j
              acc_id ← J.get_uint64 acc_value
              client_value ← J.at client_order_id_key j
              client_order_id ← J.get_uint64 client_value
              id_value ← J.at order_id_key j
              order_id ← J.get_uint64 id_value
              some (
                  value (
                    new_order now symbol (S.scale_price price) (S.scale_quantity qty) side status
                      type acc_id client_order_id order_id))))))

    unfoldable pub parse_fields : (now : ℕ) → J.Json → Option (Result Order)
    parse_fields now j = do
      symbol_value ← J.at symbol_key j
      symbol ← J.get_string symbol_value
      if str_eq symbol "" then some (error (errors_arr 51)) else parse_values now j symbol

    unfoldable pub parse_order : (now : ℕ) → (message : String) → Option (Result Order)
    parse_order now message = do
      j ← J.parse message
      elim (validate_required_fields j) [
        | some missing ↦ some (error missing)
        | none ↦ parse_fields now j
      ]
