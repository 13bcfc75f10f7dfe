-- ===== src/AiSignal/SignalWorker.antt =====
-- services/ai_signal/src/ai_signal/signals/worker.py: `SignalWorker`, with the candidate range of
-- signals/move.py. What the tables hold, the candidates, the hash of their prompt and the generator
-- are arguments; the result says what is written. Times are microseconds.
pub mod Published
mod Tests
use Prim.Native.String.{String}
use invest_view.Common.{
  ℕ, ◌+◌, ◌*◌, Bool, true, false, ◌&&◌, not, Option, none, some, if◌then◌else◌, min, max, ltb,
  str_beq, ℤ, eqb_ℤ,
}

pub data SignalRequestReason : Type 0 where
  price_state_change new_document flow_update target_price_update market_close : SignalRequestReason

unfoldable pub is_state_change : SignalRequestReason → Bool
is_state_change price_state_change = true
is_state_change new_document = false
is_state_change flow_update = false
is_state_change target_price_update = false
is_state_change market_close = false

pub record SignalRequest : Type 0 where
  pub symbol : String
  pub reason : SignalRequestReason
  pub event_time : ℕ

-- `session_end` is 20:00 of the day on which the window ends.
pub record OpenMove : Type 0 where
  pub move_id : String
  pub move_type : String
  pub signal_enabled : Bool
  pub window_start : ℕ
  pub window_end : ℕ
  pub session_end : ℕ
  pub price_state : String
  pub version : ℤ

pub record CandidateRange : Type 0 where
  pub start : ℕ
  pub end : ℕ

-- `candidate_range`: daily moves alone have a rule; none is the ValueError.
unfoldable pub candidate_range : OpenMove → Option CandidateRange
candidate_range move =
    if str_beq move.move_type "DAILY"
    then some (record { start = move.window_start; end = max move.session_end move.window_end })
    else none

pub record StoredSignal : Type 0 where
  pub move_version : ℤ
  pub as_of_event_time : Option ℕ
  pub input_hash : Option String

pub record Generation : Type 0 where
  pub keep : Bool
  pub status : String
  pub last_error : Option String

unfoldable pub has_error : Option String → Bool
has_error none = false
has_error (some e) = true

-- `llm_failed`
unfoldable pub llm_failed : Generation → Bool
unfolding has_error
llm_failed g = str_beq g.status "HIDDEN" && has_error g.last_error

-- Ten minutes.
abbrev pub coalesce_window : ℕ
coalesce_window = 600000000

-- What the worker meets. The hash and the generation are of the candidates of the range, with the
-- current signal unless the request is a change of state; `locked_version` is read after the generation.
pub record Context : Type 0 where
  pub latest_move : String → Option OpenMove
  pub latest_signal : String → Option StoredSignal
  pub input_hash_of : OpenMove → CandidateRange → Bool → String
  pub generate : OpenMove → CandidateRange → Bool → Generation
  pub locked_version : String → Option ℤ

-- What is written: a retry, a decision to keep, or a signal of a version of the move, with its hash.
pub record SignalWrites : Type 0 where
  pub retry : Bool
  pub decision : Bool
  pub signal : Option (String × ℤ × String × Generation)
  pub retry_cleared : Bool

abbrev pub no_writes : SignalWrites
no_writes = record { retry = false; decision = false; signal = none; retry_cleared = false }

-- Whether the last signal covers the time of the request.
unfoldable pub is_covered : SignalRequest → OpenMove → Option StoredSignal → Bool
is_covered request move none = false
is_covered request move (some latest) = elim latest.as_of_event_time [
  | none ↦ false
  | some at ↦
      not (is_state_change request.reason)
      && eqb_ℤ latest.move_version move.version
      && ltb request.event_time (at + coalesce_window)
]

unfoldable pub same_input : String → Option StoredSignal → Bool
same_input input_hash none = false
same_input input_hash (some latest) = elim latest.input_hash [
  | none ↦ false
  | some stored ↦ str_beq stored input_hash
]

unfoldable pub is_version : ℤ → Option ℤ → Bool
is_version version none = false
is_version version (some locked) = eqb_ℤ locked version

-- What is written of a generation for the version that is still the move's.
unfoldable pub store_generation : SignalRequest → OpenMove → String → Generation → SignalWrites
unfolding llm_failed
store_generation request move input_hash g =
    if llm_failed g && not (is_state_change request.reason)
    then record no_writes { retry = true }
    else if g.keep
    then record no_writes { retry = llm_failed g; decision = true }
    else record {
      retry = llm_failed g;
      decision = false;
      signal = some (move.move_id, move.version, input_hash, g);
      retry_cleared = str_beq g.status "SHOWN";
    }

abbrev pub hidden : Generation
hidden = record { keep = false; status = "HIDDEN"; last_error = none }

unfoldable pub is_neutral : OpenMove → Bool
is_neutral move = str_beq move.price_state "NEUTRAL"

-- From the candidates on, in the range up to the time of the request.
unfoldable pub generate_for : Context → SignalRequest → OpenMove → CandidateRange → SignalWrites
unfolding is_neutral
generate_for context request move full =
    let window : CandidateRange = record {
      start = full.start;
      end = min full.end request.event_time;
    } in
    let with_current = not (is_state_change request.reason) in
    let input_hash = context.input_hash_of move window with_current in
    let generation =
      if is_neutral move then hidden else context.generate move window with_current in
    if same_input input_hash (context.latest_signal move.move_id)
    then no_writes
    else if not (is_version move.version (context.locked_version move.move_id))
    then no_writes
    else store_generation request move input_hash generation

-- `SignalWorker.__call__`; none is an exception.
unfoldable pub work : Context → SignalRequest → Option SignalWrites
unfolding is_neutral
work context request = elim (context.latest_move request.symbol) [
  | none ↦ some no_writes
  | some move ↦
      if not move.signal_enabled
      then some no_writes
      else if is_neutral move && not (is_state_change request.reason)
      then some no_writes
      else if is_covered request move (context.latest_signal move.move_id)
      then some no_writes
      else elim (candidate_range move) [
        | none ↦ none
        | some full ↦ some (generate_for context request move full)
      ]
]
