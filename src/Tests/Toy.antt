-- ===== src/Tests/Toy.antt =====
-- A JSON library, names of enumerators and a reactor to run the definitions with. `double` is in
-- whole units.
use Prim.Native.String.{String}
use text.Mathlib.Text.{◌==◌ as str_eq}
use order_forge_matching_eng.Common.{
  ℕ, ◌*◌, ◌/◌, ◌≡◌, refl, ap, Bool, true, false, if◌then◌else◌, Option, none, some, List, [], ◌∷◌,
  arith,
}
use order_forge_matching_eng.Common.Int.{pos, pos_part}
use order_forge_matching_eng.ScaledInt.{qty_scale}
use order_forge_matching_eng.Enums.{
  Side, buy, sell, OrderStatus, opened, partial, filled, cancelled, rejected, OrderType, limit,
  market, fill_and_kill,
}
use order_forge_matching_eng.JsonLibrary.{JsonLibrary, JsonWriter, Scaling, EnumNames, find_key}

mutual
  pub data Toy : Type 0 where
    words : String → Toy
    number : ℕ → Toy
    object : Fields → Toy

  pub data Fields : Type 0 where
    no_fields : Fields
    field : String → Toy → Fields → Fields

unfoldable pub toy_field : String → Fields → Option Toy
toy_field key no_fields = none
toy_field key (field k v rest) = if str_eq k key then some v else toy_field key rest

unfoldable pub toy_at : String → Toy → Option Toy
toy_at key (words _) = none
toy_at key (number _) = none
toy_at key (object fields) = toy_field key fields

abbrev pub is_there : Option Toy → Bool
is_there none = false
is_there (some _) = true

abbrev pub get_text : Toy → Option String
get_text (words s) = some s
get_text (number _) = none
get_text (object _) = none

abbrev pub get_number : Toy → Option ℕ
get_number (words _) = none
get_number (number n) = some n
get_number (object _) = none

pub there_is : (o : Option Toy) → is_there o ≡ true → (v : Toy) × (o ≡ some v)
there_is none h = absurd (ground (arith, h))
there_is (some v) h = (v, refl)

abbrev pub toy_with : (String → Option Toy) → JsonLibrary
toy_with parse = record {
  Json = Toy;
  Double = ℕ;
  parse = parse;
  contains = λ key j. is_there (toy_at key j);
  at = toy_at;
  get_string = get_text;
  get_double = get_number;
  get_uint64 = get_number;
  get_int = λ j. elim (get_number j) [ none ↦ none | some n ↦ some (pos n) ];
  get_bool = λ j. elim (get_number j) [ none ↦ none | some _ ↦ some true ];
  elements = λ j. j ∷ [];
  contains-at = λ key j h. there_is (toy_at key j) h;
  at-contains = λ key j v h. ap is_there h;
}

-- The library whose parser reads every text as `answer`.
abbrev pub toy : Toy → JsonLibrary
toy answer = toy_with (λ _. some answer)

-- The name of the event stands for the whole text.
abbrev pub event_of : Option Toy → String
event_of (some (words s)) = s
event_of _ = "{}"

unfoldable pub toy_fields : List (String × Toy) → Fields
toy_fields [] = no_fields
toy_fields ((k, v) ∷ rest) = field k v (toy_fields rest)

toy_field-toy_fields :
    (key : String) (fields : List (String × Toy))
    → toy_field key (toy_fields fields) ≡ find_key key fields
unfolding toy_field toy_fields find_key
toy_field-toy_fields key [] = refl
toy_field-toy_fields key ((k, v) ∷ rest) =
    ap (λ o. if str_eq k key then some v else o) (toy_field-toy_fields key rest)

pub toy_at-object :
    (key : String) (fields : List (String × Toy))
    → toy_at key (object (toy_fields fields)) ≡ find_key key fields
unfolding toy_at
toy_at-object key fields = toy_field-toy_fields key fields

abbrev pub toy_writer_with : (parse : String → Option Toy) → JsonWriter (toy_with parse)
toy_writer_with parse = record {
  object = λ fields. object (toy_fields fields);
  string = words;
  double = number;
  uint64 = number;
  dump = λ j. event_of (toy_at "event" j);
  at-object = toy_at-object;
  get_string-string = λ s. refl;
  get_double-double = λ d. refl;
  get_uint64-uint64 = λ n. refl;
}

abbrev pub toy_writer : (answer : Toy) → JsonWriter (toy answer)
toy_writer answer = toy_writer_with (λ _. some answer)

abbrev pub scaling : Scaling ℕ
scaling = record {
  zero_double = 0;
  scale_price = λ d. pos (d * 100);
  scale_quantity = λ d. d * qty_scale;
  descale_price = λ p. pos_part p / 100;
  descale_quantity = λ q. q / qty_scale;
}

abbrev pub side_name : Side → String
side_name buy = "BUY"
side_name sell = "SELL"

abbrev pub side_cast : String → Option Side
side_cast s = if str_eq s "BUY" then some buy else if str_eq s "SELL" then some sell else none

pub side_cast-side_name : (s : Side) → side_cast (side_name s) ≡ some s
side_cast-side_name buy = refl
side_cast-side_name sell = refl

abbrev pub sides : EnumNames Side
sides = record {
  enum_name = side_name;
  enum_cast = side_cast;
  enum_cast-enum_name = side_cast-side_name;
}

abbrev pub type_name : OrderType → String
type_name limit = "LIMIT"
type_name market = "MARKET"
type_name fill_and_kill = "FILL_AND_KILL"

abbrev pub type_cast : String → Option OrderType
type_cast s =
    if str_eq s "LIMIT"
    then some limit
    else if str_eq s "MARKET"
    then some market
    else if str_eq s "FILL_AND_KILL"
    then some fill_and_kill
    else none

pub type_cast-type_name : (t : OrderType) → type_cast (type_name t) ≡ some t
type_cast-type_name limit = refl
type_cast-type_name market = refl
type_cast-type_name fill_and_kill = refl

abbrev pub status_name : OrderStatus → String
status_name opened = "OPEN"
status_name partial = "PARTIAL"
status_name filled = "FILLED"
status_name cancelled = "CANCELLED"
status_name rejected = "REJECTED"

abbrev pub status_cast : String → Option OrderStatus
status_cast s =
    if str_eq s "OPEN"
    then some opened
    else if str_eq s "PARTIAL"
    then some partial
    else if str_eq s "FILLED"
    then some filled
    else if str_eq s "CANCELLED"
    then some cancelled
    else if str_eq s "REJECTED"
    then some rejected
    else none

pub status_cast-status_name : (t : OrderStatus) → status_cast (status_name t) ≡ some t
status_cast-status_name opened = refl
status_cast-status_name partial = refl
status_cast-status_name filled = refl
status_cast-status_name cancelled = refl
status_cast-status_name rejected = refl

abbrev pub types : EnumNames OrderType
types = record {
  enum_name = type_name;
  enum_cast = type_cast;
  enum_cast-enum_name = type_cast-type_name;
}

abbrev pub statuses : EnumNames OrderStatus
statuses = record {
  enum_name = status_name;
  enum_cast = status_cast;
  enum_cast-enum_name = status_cast-status_name;
}
