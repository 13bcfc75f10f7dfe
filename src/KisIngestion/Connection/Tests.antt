-- ===== src/KisIngestion/Connection/Tests.antt =====
-- A connection that subscribes one symbol and takes the broker's answer.
use Prim.Native.String.{String}
use invest_view.Common.{
  ℕ, ◌≡◌, refl, true, false, Option, some, none, List, [], ◌∷◌, ◌++◌, arith, lookup, insert, erase,
  str_beq, member, difference, length, ◌∙◌, sym,
}
use invest_view.KisIngestion.Pool.{subscription_eq, subscription_beq, diff, clear_actual}
use invest_view.KisIngestion.Connection.{
  subscribe, Manager, Attempt, mark_sent, send_all, subscribe_all, connect, try_reconnect,
  reconnect_from, reconnect, handle_data_message, handle_records, append_tick,
}
use invest_view.KisIngestion.Connection.Response.{
  json_text, json_object, Fields, no_fields, field, get, text_of, object_of, or_else, in_section,
  or_empty, extract_response_value, classify_control_response, response_operation, confirm,
  handle_json_response,
}
use invest_view.KisIngestion.Connection.Tracking.{
  Reconnected, reconnect-Reconnected, Honest, handle_all, connect_settles,
}

abbrev idle : Manager ℕ
idle = record {
  pool = record { cap = 40; desired = ("H0STCNT0", "005930") ∷ []; actual = [] };
  approval_key = none;
  session_id = "first";
  sequence = 3;
  running = false;
  pending = [];
  tick_buffer = [];
  sent = [];
}

abbrev works : Attempt
works = record {
  disconnects = true;
  refreshed_key = some "key";
  connects = true;
  new_session = "second";
  socket = λ op k. true;
}

abbrev connected : Manager ℕ
connected = record idle {
  approval_key = some "key";
  session_id = "second";
  sequence = 0;
  running = true;
  pending = (("H0STCNT0", "005930"), subscribe) ∷ [];
  sent = (subscribe, ("H0STCNT0", "005930")) ∷ [];
}

connects : connect works idle ≡ (true, connected)
unfolding connect subscribe_all send_all mark_sent diff difference member insert
connects = refl

abbrev answer : Fields
answer =
    field "header"
      (json_object
        (field "tr_id" (json_text "H0STCNT0") (field "tr_key" (json_text "005930") no_fields)))
      (field "body"
        (json_object
          (field "rt_cd" (json_text "0") (field "msg_cd" (json_text "OPSP0000") no_fields)))
        no_fields)

answer_operation : response_operation (λ s. s) (λ s. s) answer (some subscribe) ≡ some subscribe
unfolding response_operation classify_control_response extract_response_value in_section get text_of
    object_of or_else or_empty str_beq
answer_operation = refl

answer_tr_id : extract_response_value answer "tr_id" ≡ some "H0STCNT0"
unfolding extract_response_value in_section get text_of object_of or_else str_beq
answer_tr_id = refl

answer_symbol : extract_response_value answer "tr_key" ≡ some "005930"
unfolding extract_response_value in_section get text_of object_of or_else str_beq
answer_symbol = refl

subscribe_pending : lookup ("H0STCNT0", "005930") connected.pending ≡ some subscribe
unfolding lookup subscription_beq str_beq
subscribe_pending = refl

-- The response is about the one pending request.
answer-Honest : Honest (λ s. s) (λ s. s) connected answer
answer-Honest tr_id symbol op e e' o =
    about tr_id symbol (sym answer_tr_id ∙ e) (sym answer_symbol ∙ e') o
  where
    about :
        (tr_id symbol : String)
        → some "H0STCNT0" ≡ some tr_id
        → some "005930" ≡ some symbol
        → response_operation (λ s. s) (λ s. s) answer (lookup (tr_id, symbol) connected.pending)
          ≡ some op
        → lookup (tr_id, symbol) connected.pending ≡ some op
    about tr_id symbol a b o = grind (arith, subscribe_pending, answer_operation)

settled_pending : (handle_all (λ s. s) (λ s. s) (answer ∷ []) connected).pending ≡ []
unfolding handle_all handle_json_response confirm response_operation classify_control_response
    extract_response_value in_section get text_of object_of or_else or_empty str_beq lookup erase
    subscription_beq
settled_pending = refl

connect_settles_example :
    member ("H0STCNT0", "005930") (handle_all (λ s. s) (λ s. s) (answer ∷ []) connected).pool.actual
    ≡ member
        ("H0STCNT0", "005930")
        (handle_all (λ s. s) (λ s. s) (answer ∷ []) connected).pool.desired
connect_settles_example =
    connect_settles (λ s. s) (λ s. s) works idle connected (answer ∷ []) connects
      (answer-Honest, tt) settled_pending ("H0STCNT0", "005930")

reconnected : reconnect (λ n. works) connected ≡ (
  true,
  record connected {
    sent = (subscribe, ("H0STCNT0", "005930")) ∷ (subscribe, ("H0STCNT0", "005930")) ∷ [];
  },
)
unfolding reconnect reconnect_from try_reconnect subscribe_all send_all mark_sent diff difference
    clear_actual member insert
reconnected = refl

reconnect-Reconnected_example :
    Reconnected
      (λ n. works)
      connected
      (record connected {
        sent = (subscribe, ("H0STCNT0", "005930")) ∷ (subscribe, ("H0STCNT0", "005930")) ∷ [];
      })
reconnect-Reconnected_example =
    reconnect-Reconnected (λ n. works) connected
      (record connected {
        sent = (subscribe, ("H0STCNT0", "005930")) ∷ (subscribe, ("H0STCNT0", "005930")) ∷ [];
      })
      reconnected

-- The 46 fields of one record, and the count of a record that is not there.
abbrev fields : List String
fields = nine ++ nine ++ nine ++ nine ++ nine ++ "last" ∷ []
  where
    nine : List String
    nine = "1" ∷ "2" ∷ "3" ∷ "4" ∷ "5" ∷ "6" ∷ "7" ∷ "8" ∷ "9" ∷ []

abbrev parse : String → List String → Option ℕ
parse market values = some (length values)

one_tick :
    handle_data_message parse (some "KRX") fields 2 connected
    ≡ (true, record connected { sequence = 1; tick_buffer = (46, "second", 1) ∷ [] })
unfolding handle_data_message handle_records append_tick
one_tick = refl
