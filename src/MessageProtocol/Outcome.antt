-- ===== src/MessageProtocol/Outcome.antt =====
-- What `parse_order` answers: a description of the outcome by the fields of the message alone.
use Prim.Native.String.{String}
use text.Mathlib.Text.{◌==◌ as str_eq}
use order_forge_matching_eng.Common.{
  ℕ, ◌≡◌, refl, ◌∙◌, Bool-cases, Option-cases, bind-some, inl, inr, if◌then◌else◌, Option, none,
  some,
}
use order_forge_matching_eng.Enums.{Side, OrderStatus, OrderType}
use order_forge_matching_eng.Order.{Order, new_order}
use order_forge_matching_eng.JsonLibrary.{JsonLibrary, Scaling, EnumNames}
use order_forge_matching_eng.MessageProtocol.{
  Result, value, error, errors_arr, or_return, get_value, get_error, parse_enum,
  validate_required_fields, parse_values, parse_fields, parse_order,
}

or_return-value :
    {A B : Type 0} {r : Option (Result A)} {a : A} (next : A → Option (Result B))
    {q : Option (Result B)}
    → r ≡ some (value a)
    → next a ≡ q
    → or_return r next ≡ q
unfolding get_value
or_return-value next e h = rw e h

or_return-error :
    {A B : Type 0} {r : Option (Result A)} {m : String} (next : A → Option (Result B))
    → r ≡ some (error m)
    → or_return r next ≡ some (error m)
unfolding get_error
or_return-error next e = rw e refl

module _ (J : JsonLibrary) where
  -- The field `key` is there and `get` reads `x` of it.
  abbrev pub Reads : {A : Type 0} → (J.Json → Option A) → String → J.Json → A → Type 0
  Reads get key j x = (v : J.Json) × (J.at key j ≡ some v) × (get v ≡ some x)

  pub record Fields : Type 0 where
    pub symbol : String
    pub price : J.Double
    pub qty : J.Double
    pub side : String
    pub type : String
    pub status : String
    pub acc_id : ℕ
    pub client_order_id : ℕ
    pub order_id : ℕ

  pub record HasFields (j : J.Json) (f : Fields) : Type 0 where
    pub symbol : Reads J.get_string "symbol" j f.symbol
    pub price : Reads J.get_double "price" j f.price
    pub qty : Reads J.get_double "qty" j f.qty
    pub side : Reads J.get_string "order_side" j f.side
    pub type : Reads J.get_string "order_type" j f.type
    pub status : Reads J.get_string "order_status" j f.status
    pub acc_id : Reads J.get_uint64 "acc_id" j f.acc_id
    pub client_order_id : Reads J.get_uint64 "client_order_id" j f.client_order_id
    pub order_id : Reads J.get_uint64 "order_id" j f.order_id

  validated : (j : J.Json) (f : Fields) → HasFields j f → validate_required_fields J j ≡ none
  unfolding validate_required_fields
  validated j f h =
      rw
        (
          J.at-contains "symbol" j h.symbol.0 h.symbol.1,
          J.at-contains "price" j h.price.0 h.price.1,
          J.at-contains "qty" j h.qty.0 h.qty.1,
          J.at-contains "order_side" j h.side.0 h.side.1,
          J.at-contains "order_type" j h.type.0 h.type.1,
          J.at-contains "order_status" j h.status.0 h.status.1,
          J.at-contains "acc_id" j h.acc_id.0 h.acc_id.1,
          J.at-contains "client_order_id" j h.client_order_id.0 h.client_order_id.1,
          J.at-contains "order_id" j h.order_id.0 h.order_id.1,
        )
        refl

  module _ (S : Scaling J.Double) (sides : EnumNames Side) (types : EnumNames OrderType)
      (statuses : EnumNames OrderStatus) where
    -- The verdict on a message with these fields, and a symbol that is not empty.
    unfoldable pub verdict : (now : ℕ) → Fields → Result Order
    verdict now f = elim (sides.enum_cast f.side) [
      | none ↦ error "invalid order_side value"
      | some side ↦ elim (types.enum_cast f.type) [
        | none ↦ error "invalid order_type value"
        | some type ↦ elim (statuses.enum_cast f.status) [
          | none ↦ error "invalid order_status value"
          | some status ↦ value (
              new_order now f.symbol (S.scale_price f.price) (S.scale_quantity f.qty) side status
                type f.acc_id f.client_order_id f.order_id)
        ]
      ]
    ]

    unfoldable pub judge : (now : ℕ) → Fields → Result Order
    judge now f = if str_eq f.symbol "" then error "missing field: symbol" else verdict now f

    enum_of :
        {E : Type 0} (names : EnumNames E) (m : String) (j : J.Json) (key text : String)
        → Reads J.get_string key j text
        → parse_enum J names m j key
          ≡ some (elim (names.enum_cast text) [ none ↦ error m | some e ↦ value e ])
    unfolding parse_enum
    enum_of names m j key text h = bind-some _ h.1 (bind-some _ h.2 refl)

    judge_values :
        (now : ℕ) (j : J.Json) (f : Fields)
        → HasFields j f
        → parse_values J S sides types statuses now j f.symbol ≡ some (verdict now f)
    unfolding parse_values verdict errors_arr
    judge_values now j f h =
        let side = enum_of sides "invalid order_side value" j "order_side" f.side h.side in
        let type = enum_of types "invalid order_type value" j "order_type" f.type h.type in
        let status =
          enum_of statuses "invalid order_status value" j "order_status" f.status h.status in
        bind-some _ h.price.1 (
          bind-some _ h.price.2 (
            bind-some _ h.qty.1 (
              bind-some _ h.qty.2 (elim (Option-cases (sides.enum_cast f.side)) [
                | inl unknown ↦
                    or_return-error {m = "invalid order_side value"} _
                      (side ∙ rw (unknown, verdict) refl)
                    ∙ rw (unknown, verdict) refl
                | inr (s, known) ↦
                    or_return-value {a = s} _ (side ∙ rw known refl)
                      (elim (Option-cases (types.enum_cast f.type)) [
                        | inl unknown ↦
                            or_return-error {m = "invalid order_type value"} _
                              (type ∙ rw (unknown, verdict) refl)
                            ∙ rw (known, verdict) (rw unknown refl)
                        | inr (t, sort) ↦
                            or_return-value {a = t} _ (type ∙ rw sort refl)
                              (elim (Option-cases (statuses.enum_cast f.status)) [
                                | inl unknown ↦
                                    or_return-error {m = "invalid order_status value"} _
                                      (status ∙ rw (unknown, verdict) refl)
                                    ∙ rw (known, verdict) (rw sort (rw unknown refl))
                                | inr (u, state) ↦
                                    or_return-value {a = u} _ (status ∙ rw state refl) (
                                      bind-some _ h.acc_id.1 (
                                        bind-some _ h.acc_id.2 (
                                          bind-some _ h.client_order_id.1 (
                                            bind-some _ h.client_order_id.2 (
                                              bind-some _ h.order_id.1 (
                                                bind-some _ h.order_id.2 (
                                                  rw (known, verdict)
                                                    (rw sort (rw state refl)))))))))
                              ])
                      ])
              ]))))

    -- A message that has every field, with values of the right kinds, is not an exception: it is an
    -- error that names the empty symbol or else the first field of side, type and status whose value
    -- is no enumerator, or else the order with the fields' values, its prices scaled and nothing of
    -- its quantity used up.
    pub parse_order-judge :
        (now : ℕ) (message : String) (j : J.Json) (f : Fields)
        → J.parse message ≡ some j
        → HasFields j f
        → parse_order J S sides types statuses now message ≡ some (judge now f)
    unfolding parse_order parse_fields errors_arr judge
    parse_order-judge now message j f parsed h = bind-some _ parsed (
        rw (validated j f h) (
          bind-some _ h.symbol.1 (
            bind-some _ h.symbol.2 (elim (Bool-cases (str_eq f.symbol "")) [
              | inl blank ↦ rw blank refl
              | inr full ↦ rw full (judge_values now j f h)
            ]))))
