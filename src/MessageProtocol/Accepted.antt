-- ===== src/MessageProtocol/Accepted.antt =====
-- Which messages are refused for a missing field, and what an accepted message has said.
use Prim.Native.String.{String}
use Prim.Native.String.{◌++◌ as joined}
use text.Mathlib.Text.{◌==◌ as str_eq}
use order_forge_matching_eng.Common.{
  ℕ, ◌≡◌, refl, ◌∙◌, sym, ap, subst⁻¹, Bool-cases, Option-cases, bind-some, bind-inv, inl, inr,
  Option, none, some, ◌>>=◌,
}
use order_forge_matching_eng.Enums.{Side, OrderStatus, OrderType}
use order_forge_matching_eng.Order.{Order}
use order_forge_matching_eng.JsonLibrary.{JsonLibrary, Scaling, EnumNames}
use order_forge_matching_eng.MessageProtocol.{
  Result, value, error, or_return, get_value, get_error, parse_enum, validate_required_fields,
  parse_values, parse_fields, parse_order,
}
use order_forge_matching_eng.MessageProtocol.Required.{
  required, first_missing, missing_message, validate_required_fields-first_missing,
}
use order_forge_matching_eng.MessageProtocol.Outcome.{
  Reads, Fields, HasFields, judge, parse_order-judge,
}

abbrev IsValue : {T : Type 0} → Option (Result T) → Type 0
IsValue (some (value _)) = Unit
IsValue _ = ⊥

error-value : {T : Type 0} {m : String} {t : T} → some (error m) ≡ some (value t) → ⊥
error-value e = subst⁻¹ IsValue e tt

none-value : {T : Type 0} {t : T} → none ≡ some (value t) → ⊥
none-value e = subst⁻¹ IsValue e tt

or_return-inv :
    {A B : Type 0} (r : Option (Result A)) (next : A → Option (Result B)) (b : B)
    → or_return r next ≡ some (value b)
    → (a : A) × (r ≡ some (value a)) × (next a ≡ some (value b))
unfolding get_value get_error
or_return-inv none next b h = absurd (none-value h)
or_return-inv (some (value a)) next b h = (a, refl, h)
or_return-inv (some (error m)) next b h = absurd (error-value h)

some-inj : {A : Type 0} {a b : A} → some a ≡ some b → a ≡ b
some-inj {a = a} e = ap (λ o. elim o [ none ↦ a | some x ↦ x ]) e

module _ (J : JsonLibrary) where
  Reads-inv :
      {A B : Type 0} (get : J.Json → Option A) (key : String) (j : J.Json) (next : A → Option B)
      (b : B)
      → (J.at key j >>= (λ v. get v >>= next)) ≡ some b
      → (x : A) × Reads J get key j x × (next x ≡ some b)
  Reads-inv get key j next b h =
      let (v, there, rest) = bind-inv (J.at key j) (λ w. get w >>= next) b h in
      let (x, read, done) = bind-inv (get v) next b rest in (x, (v, there, read), done)

  parse_enum-inv :
      {E : Type 0} (names : EnumNames E) (m key : String) (j : J.Json) (e : E)
      → parse_enum J names m j key ≡ some (value e)
      → (text : String) × Reads J J.get_string key j text
  unfolding parse_enum
  parse_enum-inv names m key j e h =
      let (text, read, _) =
        Reads-inv J.get_string key j
          (λ t. some (elim (names.enum_cast t) [ none ↦ error m | some e ↦ value e ])) (value e)
          h in
      (text, read)

  module _ (S : Scaling J.Double) (sides : EnumNames Side) (types : EnumNames OrderType)
      (statuses : EnumNames OrderStatus) where
    parse_values-Fields :
        (now : ℕ) (j : J.Json) (symbol : String) (o : Order)
        → Reads J J.get_string "symbol" j symbol
        → parse_values J S sides types statuses now j symbol ≡ some (value o)
        → (f : Fields J) × HasFields J j f
    unfolding parse_values
    parse_values-Fields now j symbol o named h =
        let (price, price_read, h₁) = Reads-inv J.get_double "price" j _ (value o) h in
        let (qty, qty_read, h₂) = Reads-inv J.get_double "qty" j _ (value o) h₁ in
        let (side, sided, h₃) = or_return-inv _ _ o h₂ in
        let (type, typed, h₄) = or_return-inv _ _ o h₃ in
        let (status, stated, h₅) = or_return-inv _ _ o h₄ in
        let (side_text, side_read) = parse_enum-inv sides _ "order_side" j side sided in
        let (type_text, type_read) = parse_enum-inv types _ "order_type" j type typed in
        let (status_text, status_read) = parse_enum-inv statuses _ "order_status" j status stated in
        let (acc, acc_read, h₆) = Reads-inv J.get_uint64 "acc_id" j _ (value o) h₅ in
        let (client, client_read, h₇) = Reads-inv J.get_uint64 "client_order_id" j _ (value o) h₆ in
        let (id, id_read, h₈) = Reads-inv J.get_uint64 "order_id" j _ (value o) h₇ in
        (
          record {
            symbol = symbol;
            price = price;
            qty = qty;
            side = side_text;
            type = type_text;
            status = status_text;
            acc_id = acc;
            client_order_id = client;
            order_id = id;
          },
          record {
            symbol = named;
            price = price_read;
            qty = qty_read;
            side = side_read;
            type = type_read;
            status = status_read;
            acc_id = acc_read;
            client_order_id = client_read;
            order_id = id_read;
          },
        )

    parse_fields-Fields :
        (now : ℕ) (j : J.Json) (o : Order)
        → parse_fields J S sides types statuses now j ≡ some (value o)
        → (f : Fields J) × HasFields J j f
    unfolding parse_fields
    parse_fields-Fields now j o h =
        let (symbol, named, h₁) = Reads-inv J.get_string "symbol" j _ (value o) h in
        elim (Bool-cases (str_eq symbol "")) [
          | inl blank ↦ absurd (error-value (rw blank at h₁))
          | inr full ↦ parse_values-Fields now j symbol o named (rw full at h₁)
        ]

    -- A message that is accepted is a JSON value with all nine fields, each of its kind, and the order
    -- is the verdict on these fields.
    pub parse_order-value :
        (now : ℕ) (message : String) (o : Order)
        → parse_order J S sides types statuses now message ≡ some (value o)
        → (j : J.Json) × (f : Fields J) × (J.parse message ≡ some j)
          × HasFields J j f
          × (judge J S sides types statuses now f ≡ value o)
    unfolding parse_order parse_fields
    parse_order-value now message o h =
        let (j, parsed, h₁) = bind-inv (J.parse message) _ (value o) h in
        elim (Option-cases (validate_required_fields J j)) [
          | inr (m, missing) ↦ absurd (error-value (rw missing at h₁))
          | inl ready ↦
              let h₂ : parse_fields J S sides types statuses now j ≡ some (value o) =
                rw ready at h₁ in
              let (f, has) = parse_fields-Fields now j o h₂ in
              let same =
                sym (parse_order-judge J S sides types statuses now message j f parsed has) ∙ h in
              (j, f, parsed, has, some-inj same)
        ]

    -- A message that lacks a field is refused with the name of the first field that it lacks, in the
    -- order of the protocol, whatever else it holds.
    pub parse_order-missing :
        (now : ℕ) (message key : String) (j : J.Json)
        → J.parse message ≡ some j
        → first_missing J j required ≡ some key
        → parse_order J S sides types statuses now message
          ≡ some (error (joined "missing field: " key))
    unfolding parse_order missing_message
    parse_order-missing now message key j parsed lacks =
        bind-some _ parsed
          (rw (validate_required_fields-first_missing J j ∙ ap missing_message lacks) refl)
