-- ===== src/JsonLibrary.antt =====
-- `nlohmann::json` and `magic_enum`, which src does not hold, and the arithmetic on `double`: what
-- message_protocols/json and config use of them, with what their documentation says. `none` is an
-- exception.
use Prim.Native.String.{String}
use text.Mathlib.Text.{◌==◌ as str_eq}
use order_forge_matching_eng.Common.{
  ℕ, ◌≡◌, Bool, true, Option, none, some, List, [], ◌∷◌, if◌then◌else◌,
}
use order_forge_matching_eng.Common.Int.{ℤ}
use order_forge_matching_eng.ScaledInt.{Price, Quantity}

-- Values and what is read of them: `contains`, `at`, `get<T>` and iteration.
pub record JsonLibrary : Type 1 where
  pub Json : Type 0
  pub Double : Type 0
  pub parse : String → Option Json
  pub contains : String → Json → Bool
  pub at : String → Json → Option Json
  pub get_string : Json → Option String
  pub get_double : Json → Option Double
  pub get_uint64 : Json → Option ℕ
  pub get_int : Json → Option ℤ
  pub get_bool : Json → Option Bool
  pub elements : Json → List Json
  pub contains-at :
      (key : String) (j : Json) → contains key j ≡ true → (v : Json) × (at key j ≡ some v)
  pub at-contains : (key : String) (j v : Json) → at key j ≡ some v → contains key j ≡ true

-- `value * Scale` and `value / Scale`, of a `Price` and of a `Quantity`.
pub record Scaling (Double : Type 0) : Type 0 where
  pub zero_double : Double
  pub scale_price : Double → Price
  pub scale_quantity : Double → Quantity
  pub descale_price : Price → Double
  pub descale_quantity : Quantity → Double

-- `magic_enum::enum_name` and `magic_enum::enum_cast` with `case_insensitive`.
pub record EnumNames (E : Type 0) : Type 0 where
  pub enum_name : E → String
  pub enum_cast : String → Option E
  pub enum_cast-enum_name : (e : E) → enum_cast (enum_name e) ≡ some e

unfoldable pub find_key {ℓ} : {A : Type ℓ} → String → List (String × A) → Option A
find_key key [] = none
find_key key ((k, v) ∷ rest) = if str_eq k key then some v else find_key key rest

-- Values built from `{{key, value}, ...}`, and `dump`.
pub record JsonWriter (J : JsonLibrary) : Type 0 where
  pub object : List (String × J.Json) → J.Json
  pub string : String → J.Json
  pub double : J.Double → J.Json
  pub uint64 : ℕ → J.Json
  pub dump : J.Json → String
  pub at-object :
      (key : String) (fields : List (String × J.Json))
      → J.at key (object fields) ≡ find_key key fields
  pub get_string-string : (s : String) → J.get_string (string s) ≡ some s
  pub get_double-double : (d : J.Double) → J.get_double (double d) ≡ some d
  pub get_uint64-uint64 : (n : ℕ) → J.get_uint64 (uint64 n) ≡ some n
