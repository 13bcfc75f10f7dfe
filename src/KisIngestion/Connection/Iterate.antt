-- ===== src/KisIngestion/Connection/Iterate.antt =====
-- The loop of `KISConnectionManager.__anext__` and `_handle_message`, with `is_pingpong` and
-- `is_json_response` of raw_parser.py. `json.loads`, the parser of ticks and the string methods
-- are arguments; so are the events that the loop meets.
pub mod Buffer
pub mod Arrivals
pub mod Fifo
mod Tests
use Prim.Native.String.{String}
use package.text.Mathlib.Text.{starts_with}
use invest_view.Common.{
  ℕ, Bool, true, false, not, Option, none, some, List, [], ◌∷◌, ℤ, pos, negsuc, if◌then◌else◌,
  str_beq,
}
use invest_view.KisIngestion.Connection.{Attempt, Manager, reconnect, handle_data_message}
use invest_view.KisIngestion.Connection.Response.{
  Json, json_text, json_object, json_other, Fields, get, text_of, handle_json_response,
}
use invest_view.KisIngestion.Parser.{Text, RawKisMessage, parse, split_records}

-- What `recv` gives, with the attempts that a reconnect would make.
pub data Event : Type 0 where
  received : Text → Bool → Event
  lost : (ℕ → Attempt) → Event

pub data Next (T : Type 0) : Type 0 where
  tick : T × String × ℕ → Next T
  stopped : Next T
  exhausted : Next T
  waiting : Next T

-- What `data.get("header", {})` gives, where it is a dictionary; the dictionary that is not there
-- is an empty one.
unfoldable pub header_tr_id : Option Json → Option (Option String)
unfolding get text_of
header_tr_id none = none
header_tr_id (some (json_text s)) = none
header_tr_id (some json_other) = none
header_tr_id (some (json_object data_fields)) = elim (get "header" data_fields) [
  | none ↦ some none
  | some (json_text s) ↦ none
  | some json_other ↦ none
  | some (json_object header) ↦ some (text_of (get "tr_id" header))
]

unfoldable pub is_pingpong : Option Json → Bool
unfolding header_tr_id
is_pingpong data_json = elim (header_tr_id data_json) [
  | none ↦ false
  | some none ↦ false
  | some (some t) ↦ str_beq t "PINGPONG"
]

unfoldable pub is_json_response : Option Json → Bool
unfolding header_tr_id
is_json_response data_json = elim (header_tr_id data_json) [
  | none ↦ false
  | some none ↦ true
  | some (some t) ↦ not (str_beq t "PINGPONG")
]

-- `range(count)`
unfoldable pub range_count : ℤ → ℕ
range_count (pos n) = n
range_count (negsuc n) = 0

-- `_resolve_market_adapter_from_tr_id`, by the name of its market, on the stripped upper-case id.
unfoldable pub market_of : String → Option String
market_of normalized =
    if starts_with normalized "H0ST"
    then some "KRX"
    else if starts_with normalized "H0NX"
    then some "NXT"
    else none

-- `self._tick_buffer.pop(0)`, where there is one.
unfoldable pub pop_tick : {T : Type 0} → Manager T → Option ((T × String × ℕ) × Manager T)
pop_tick m = elim m.tick_buffer [ [] ↦ none | t ∷ rest ↦ some (t, record m { tick_buffer = rest }) ]

module _ {T : Type 0} (json_loads : Text → Option Json) (int_of : Text → Option ℤ)
    (strip_upper : Text → String) (code_of msg_of : String → String)
    (parse_tick : String → List Text → Option T) where
  -- The data message, once the raw text is parsed.
  unfoldable pub handle_parsed : Option RawKisMessage → Manager T → Bool × Manager T
  unfolding range_count market_of
  handle_parsed none m = (true, m)
  handle_parsed (some message) m =
      if message.encrypted
      then (true, m)
      else handle_data_message parse_tick (market_of (strip_upper message.tr_id))
          (split_records message.payload) (range_count message.count) m

  -- A JSON response is a dictionary here: `is_json_response` has read its header.
  unfoldable pub handle_json : Option Json → Manager T → Bool × Manager T
  handle_json (some (json_object fields_of)) m =
      (true, handle_json_response code_of msg_of fields_of m)
  handle_json (some (json_text s)) m = (false, m)
  handle_json (some json_other) m = (false, m)
  handle_json none m = (false, m)

  -- `_handle_message`; `pong` is whether the socket takes the answer to a ping.
  unfoldable pub handle_message : Text → Bool → Manager T → Bool × Manager T
  unfolding is_pingpong is_json_response handle_parsed handle_json
  handle_message raw pong m =
      if is_pingpong (json_loads raw)
      then (pong, m)
      else if is_json_response (json_loads raw)
      then handle_json (json_loads raw) m
      else handle_parsed (parse int_of raw) m

  -- The `while True` over the events. After an exception the loop goes on without a look at the
  -- buffer, as the `continue` does.
  unfoldable pub receive : List Event → Manager T → Next T × Manager T × List Event
  unfolding handle_message pop_tick
  receive [] m = if m.running then (waiting, m, []) else (stopped, m, [])
  receive (received raw pong ∷ events) m =
      let (done, m') = handle_message raw pong m in
      let later = receive events m' in
      if not m.running
      then (stopped, m, received raw pong ∷ events)
      else if not done
      then later
      else elim (pop_tick m') [ none ↦ later | some (t, m'') ↦ (tick t, m'', events) ]
  receive (lost attempts ∷ events) m =
      let (done, m') = reconnect attempts m in
      let later = receive events m' in
      if not m.running
      then (stopped, m, lost attempts ∷ events)
      else if done
      then later
      else (exhausted, m', events)

  -- `__anext__`
  unfoldable pub next : List Event → Manager T → Next T × Manager T × List Event
  unfolding receive pop_tick
  next events m = elim (pop_tick m) [
    | some (t, m') ↦ (tick t, m', events)
    | none ↦ receive events m
  ]
