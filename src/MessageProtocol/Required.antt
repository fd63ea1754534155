-- ===== src/MessageProtocol/Required.antt =====
-- The fields that a message must have, and in which order they are asked for.
use Prim.Native.String.{String}
use Prim.Native.String.{◌++◌ as joined}
use order_forge_matching_eng.Common.{◌≡◌, if◌then◌else◌, Option, none, some, List, [], ◌∷◌, arith}
use order_forge_matching_eng.JsonLibrary.{JsonLibrary}
use order_forge_matching_eng.MessageProtocol.{validate_required_fields, errors_arr}

abbrev pub required : List String
required =
    "symbol" ∷ "price" ∷ "qty" ∷ "order_side" ∷ "order_type" ∷ "order_status" ∷ "acc_id"
    ∷ "client_order_id" ∷ "order_id" ∷ []

unfoldable pub missing_message : Option String → Option String
missing_message none = none
missing_message (some key) = some (joined "missing field: " key)

module _ (J : JsonLibrary) (j : J.Json) where
  unfoldable pub first_missing : List String → Option String
  first_missing [] = none
  first_missing (key ∷ keys) = if J.contains key j then first_missing keys else some key

  -- The check of the fields answers with the first field of the list that the message lacks, by its
  -- name, and with nothing if the message has them all.
  pub validate_required_fields-first_missing :
      validate_required_fields J j ≡ missing_message (first_missing required)
  unfolding validate_required_fields first_missing missing_message errors_arr
  validate_required_fields-first_missing = ground arith
