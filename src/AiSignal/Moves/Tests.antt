-- ===== src/AiSignal/Moves/Tests.antt =====
-- A move that arrives twice.
use Prim.Native.String.{String}
use invest_view.Common.{
  ℕ, ◌≡◌, refl, true, Option, some, [], ◌∷◌, pos, lookup, str_beq, string_eq, discard,
}
use invest_view.AiSignal.Moves.{
  MoveRecord, SymbolGate, MoveRow, World, sink_move, is_stored, is_transition,
  publish_signal_requests, request_targets,
}
use invest_view.AiSignal.Moves.Versions.{Later, sink_move_lem}

abbrev move : MoveRecord ℕ
move = record {
  move_id = "m";
  move_type = "DAILY";
  symbol = "005930";
  window_start = 10;
  window_end = 20;
  business_date = 2;
  payload = 7;
  signal_status = "OPEN";
  version = pos 3;
}

abbrev gate : String → Option SymbolGate
gate ticker = some (record { entity_id = "e"; signal_enabled = true })

abbrev close_at : ℕ → Option ℕ
close_at day = some 9

abbrev split_day : String → ℕ → Option ℕ
split_day ticker day = some 5

-- The version before is there.
abbrev known : World ℕ ℕ
known = record {
  moves =
      (
        "m",
        record {
          type_of = "DAILY";
          symbol_entity_id = "e";
          start = 9;
          end = 19;
          values = 6;
          contrib = some 4;
          status = "OPEN";
          row_version = pos 2;
        },
      )
      ∷ [];
  requests = [];
}

asks : (sink_move gate close_at split_day move known).requests ≡ ("005930", 20) ∷ []
unfolding sink_move is_stored lookup is_transition publish_signal_requests request_targets str_beq
    discard
asks = refl

sink_move_lem_example :
    ((id : String) (row : MoveRow ℕ ℕ)
      → lookup id known.moves ≡ some row
      → (new : MoveRow ℕ ℕ) × (lookup id (sink_move gate close_at split_day move known).moves
          ≡ some new)
        × Later move row new)
    × ((sink_move gate close_at split_day move
          (sink_move gate close_at split_day move known)).requests
        ≡ (sink_move gate close_at split_day move known).requests)
sink_move_lem_example = sink_move_lem gate close_at split_day move known
