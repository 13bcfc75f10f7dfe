-- ===== src/AiSignal/Moves.antt =====
-- services/ai_signal/src/ai_signal: `MoveSink` of moves/sink.py, over the table of moves as a dict by
-- id, and signal_requests.py. The other tables and the decomposition of a day are arguments. What is
-- only written to a row is one value.
pub mod Versions
mod Tests
use Prim.Native.String.{String}
use invest_view.Common.{
  ℕ, Bool, true, false, ◌&&◌, ◌||◌, not, Option, none, some, List, [], ◌∷◌, ◌++◌, map,
  if◌then◌else◌, Dict, lookup, insert, string_eq, discard, str_beq, ℤ, ltb_ℤ, eqb_ℤ,
}

pub record MoveRecord (P : Type 0) : Type 0 where
  pub move_id : String
  pub move_type : String
  pub symbol : String
  pub window_start : ℕ
  pub window_end : ℕ
  pub business_date : ℕ
  pub payload : P
  pub signal_status : String
  pub version : ℤ

pub record SymbolGate : Type 0 where
  pub entity_id : String
  pub signal_enabled : Bool

-- A row of `gold.move`.
pub record MoveRow (P D : Type 0) : Type 0 where
  pub type_of : String
  pub symbol_entity_id : String
  pub start : ℕ
  pub end : ℕ
  pub values : P
  pub contrib : Option D
  pub status : String
  pub row_version : ℤ

abbrev pub daily : String
daily = "DAILY"

unfoldable pub is_some : {A : Type 0} → Option A → Bool
is_some none = false
is_some (some a) = true

-- The statement `UPSERT_MOVE`: a newer version, or the same one where nothing was decomposed. The
-- type, the symbol and the status of a row that is there stay.
unfoldable pub overwrites : {P D : Type 0} → MoveRecord P → MoveRow P D → Bool
unfolding is_some
overwrites r old =
    ltb_ℤ old.row_version r.version
    || (eqb_ℤ old.row_version r.version && not (is_some old.contrib))

unfoldable pub upsert_move :
    {P D : Type 0}
    → MoveRecord P
    → String
    → ℕ
    → Option D
    → Dict String (MoveRow P D)
    → Dict String (MoveRow P D)
upsert_move r symbol_id window_start decomposition moves = elim (lookup r.move_id moves) [
  | none ↦
      insert r.move_id
        (record {
          type_of = r.move_type;
          symbol_entity_id = symbol_id;
          start = window_start;
          end = r.window_end;
          values = r.payload;
          contrib = decomposition;
          status = r.signal_status;
          row_version = r.version;
        })
        moves
  | some old ↦
      if overwrites r old
      then insert r.move_id
          (record old {
            start = window_start;
            end = r.window_end;
            values = r.payload;
            contrib = decomposition;
            row_version = r.version;
          })
          moves
      else moves
]

-- Whether a stored move is newer than the record, or the same version and decomposed.
unfoldable pub is_stored : {P D : Type 0} → MoveRecord P → Option (MoveRow P D) → Bool
unfolding is_some
is_stored r none = false
is_stored r (some old) =
    ltb_ℤ r.version old.row_version || (eqb_ℤ old.row_version r.version && is_some old.contrib)

unfoldable pub is_transition : {P D : Type 0} → MoveRecord P → Option (MoveRow P D) → Bool
is_transition r none = true
is_transition r (some old) = ltb_ℤ old.row_version r.version

-- `requests` lists what was put into the outbox: a target and the time of the request.
pub record World (P D : Type 0) : Type 0 where
  pub moves : Dict String (MoveRow P D)
  pub requests : List (String × ℕ)

-- `_unique`: without empty symbols, each where it comes first.
unfoldable pub unique : List String → List String
unique [] = []
unique (symbol ∷ symbols) =
    let rest = unique symbols in if str_beq symbol "" then rest else symbol ∷ discard symbol rest

unfoldable pub request_targets : List String → List String
unfolding unique
request_targets symbols = unique symbols

-- `publish_signal_requests`, to the end of what is in the outbox.
unfoldable pub publish_signal_requests : List String → ℕ → List (String × ℕ) → List (String × ℕ)
unfolding unique
publish_signal_requests symbols event_time requests =
    requests ++ map (λ (target : String). (target, event_time)) (unique symbols)

module _ {P D : Type 0} (symbol_gate : String → Option SymbolGate)
    (previous_close_at : ℕ → Option ℕ) (decompose_daily : String → ℕ → Option D) where
  unfoldable pub candidate_start : MoveRecord P → ℕ
  candidate_start r = elim (previous_close_at r.business_date) [
    | none ↦ r.window_start
    | some at ↦ at
  ]

  -- `_decompose`
  unfoldable pub decompose : MoveRecord P → Option D
  decompose r = if str_beq r.move_type daily then decompose_daily r.symbol r.business_date else none

  -- `MoveSink.__call__`
  unfoldable pub sink_move : MoveRecord P → World P D → World P D
  sink_move r w = elim (symbol_gate r.symbol) [
    | none ↦ w
    | some gate ↦
        let stored = lookup r.move_id w.moves in
        let written = record w {
          moves = upsert_move r gate.entity_id (candidate_start r) (decompose r) w.moves;
        } in
        if is_stored r stored
        then w
        else if is_transition r stored && gate.signal_enabled
        then record written {
          requests =
              publish_signal_requests (request_targets (r.symbol ∷ [])) r.window_end w.requests;
        }
        else written
  ]
