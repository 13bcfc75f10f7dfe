-- ===== src/KisIngestion/Connection/Response.antt =====
-- The answers to control requests: `_extract_response_value`, `_classify_control_response` and
-- `_handle_json_response`.
use Prim.Native.String.{String}
use text.Mathlib.Text.{starts_with}
use invest_view.Common.{
  Bool, true, false, ◌||◌, Option, none, some, if◌then◌else◌, lookup, erase, str_beq,
}
use invest_view.KisIngestion.Pool.{
  Subscription, subscription_eq, confirm_subscribed, confirm_unsubscribed,
}
use invest_view.KisIngestion.Connection.{ControlOperation, subscribe, unsubscribe, Manager}

-- A JSON value, as far as the responses are read.
mutual
  pub data Json : Type 0 where
    json_text : String → Json
    json_object : Fields → Json
    json_other : Json

  pub data Fields : Type 0 where
    no_fields : Fields
    field : String → Json → Fields → Fields

unfoldable pub get : String → Fields → Option Json
get key no_fields = none
get key (field name value rest) = if str_beq name key then some value else get key rest

unfoldable pub text_of : Option Json → Option String
text_of none = none
text_of (some (json_text s)) = some s
text_of (some (json_object entries)) = none
text_of (some json_other) = none

unfoldable pub object_of : Option Json → Fields
object_of none = no_fields
object_of (some (json_text s)) = no_fields
object_of (some (json_object entries)) = entries
object_of (some json_other) = no_fields

unfoldable pub or_else : Option String → Option String → Option String
or_else none b = b
or_else (some a) b = some a

-- What a section holds under the key, itself or in its `input`; a section that is no object holds
-- nothing.
unfoldable pub in_section : String → Fields → Option String
unfolding get text_of object_of or_else
in_section key section =
    or_else (text_of (get key section)) (text_of (get key (object_of (get "input" section))))

unfoldable pub extract_response_value : Fields → String → Option String
unfolding in_section
extract_response_value response key = or_else (text_of (get key response)) (
    or_else (in_section key (object_of (get "header" response)))
      (in_section key (object_of (get "body" response))))

-- `str(value or "")`
unfoldable pub or_empty : Option String → String
or_empty none = ""
or_empty (some s) = s

unfoldable pub same_operation : ControlOperation → ControlOperation → Bool
same_operation subscribe subscribe = true
same_operation unsubscribe unsubscribe = true
same_operation subscribe unsubscribe = false
same_operation unsubscribe subscribe = false

unfoldable pub confirm : {T : Type 0} → ControlOperation → Subscription → Manager T → Manager T
confirm op k m =
    let popped = record m { pending = erase k m.pending } in
    elim op [
      | unsubscribe ↦ record popped { pool = confirm_unsubscribed k m.pool }
      | subscribe ↦ record popped { pool = confirm_subscribed k m.pool }
    ]

-- `normalized_code` and `normalized_msg` are made by the string methods.
module _ (normalized_code normalized_msg : String → String) where
  unfoldable pub classify_control_response : String → String → String → Option ControlOperation
  classify_control_response msg_cd msg1 rt_cd =
      let code = normalized_code msg_cd in
      let msg = normalized_msg msg1 in
      if str_beq code "OPSP0000" || str_beq code "OPSP0002"
      then some subscribe
      else if str_beq code "OPSP0001" || str_beq code "OPSP0003"
      then some unsubscribe
      else if str_beq rt_cd "0"
      then (if starts_with msg "UNSUBSCRIBE"
          then some unsubscribe
          else if starts_with msg "SUBSCRIBE"
          then some subscribe
          else none)
      else none

  -- What the response says was done: a bare success is taken for what is pending.
  unfoldable pub response_operation : Fields → Option ControlOperation → Option ControlOperation
  unfolding classify_control_response extract_response_value or_empty
  response_operation response pending =
      let rt_cd = or_empty (extract_response_value response "rt_cd") in
      elim (classify_control_response (or_empty (extract_response_value response "msg_cd"))
        (or_empty (extract_response_value response "msg1")) rt_cd) [
          | some op ↦ some op
          | none ↦ if str_beq rt_cd "0" then pending else none
        ]

  module _ {T : Type 0} where
    unfoldable pub handle_json_response : Fields → Manager T → Manager T
    unfolding confirm response_operation
    handle_json_response response m = elim (extract_response_value response "tr_id") [
      | none ↦ m
      | some tr_id ↦ elim (extract_response_value response "tr_key") [
        | none ↦ m
        | some symbol ↦ elim (response_operation response (lookup (tr_id, symbol) m.pending)) [
          | none ↦ m
          | some op ↦ confirm op (tr_id, symbol) m
        ]
      ]
    ]
