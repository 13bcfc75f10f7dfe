-- ===== src/AiSignal/SignalWorker/Tests.antt =====
-- Runs of the handler of a request.
use invest_view.Common.{◌≡◌, refl, true, false, none, some, pos, str_beq}
use invest_view.AiSignal.SignalWorker.{
  new_document, price_state_change, OpenMove, StoredSignal, Context, Generation, no_writes, work,
  is_state_change, candidate_range, is_covered, same_input, is_version, store_generation,
  generate_for, is_neutral, llm_failed, has_error,
}

abbrev move : OpenMove
move = record {
  move_id = "m";
  move_type = "DAILY";
  signal_enabled = true;
  window_start = 0;
  window_end = 1000;
  session_end = 2000;
  price_state = "UP";
  version = pos 3;
}

abbrev shown : Generation
shown = record { keep = false; status = "SHOWN"; last_error = none }

abbrev stored : StoredSignal
stored = record { move_version = pos 3; as_of_event_time = some 1500; input_hash = some "h1" }

abbrev context : Context
context = record {
  latest_move = λ symbol. some move;
  latest_signal = λ id. some stored;
  input_hash_of = λ move window current. "h2";
  generate = λ move window current. shown;
  locked_version = λ id. some (pos 3);
}

-- Within ten minutes of the last signal a document waits, a change of state does not.
document_waits :
    work context (record { symbol = "005930"; reason = new_document; event_time = 1600 })
    ≡ some no_writes
unfolding work is_covered is_neutral is_state_change str_beq
document_waits = refl

state_change_is_shown :
    work context (record { symbol = "005930"; reason = price_state_change; event_time = 1600 })
    ≡ some (record {
      retry = false;
      decision = false;
      signal = some ("m", pos 3, "h2", shown);
      retry_cleared = true;
    })
unfolding work is_covered is_neutral is_state_change candidate_range generate_for same_input
    is_version store_generation llm_failed has_error str_beq
state_change_is_shown = refl
