-- ===== src/AiSignal/SignalWorker/Published.antt =====
-- What holds of a signal that is written.
use Prim.Native.String.{String}
use invest_view.Common.{◌≡◌, refl, Bool, true, false, not, some, arith, if◌then◌else◌, ℤ}
use invest_view.AiSignal.SignalWorker.{
  SignalRequest, OpenMove, CandidateRange, Context, Generation, no_writes, same_input, is_version,
  store_generation, generate_for,
}

store_generation-signal :
    (request : SignalRequest) (move : OpenMove) (input_hash : String) (g g' : Generation)
    (id hash : String) (version : ℤ)
    → (store_generation request move input_hash g).signal ≡ some (id, version, hash, g')
    → (id ≡ move.move_id) × (version ≡ move.version) × (hash ≡ input_hash)
unfolding store_generation
store_generation-signal request move input_hash g g' id hash version h = ground (arith, h)

-- A signal is written of the version that the move still has, and only where the last signal is not
-- of the same input.
written-signal :
    (context : Context) (request : SignalRequest) (move : OpenMove) (input_hash : String)
    (g g' : Generation) (id hash : String) (version : ℤ) (same locked : Bool)
    → same_input input_hash (context.latest_signal move.move_id) ≡ same
    → is_version move.version (context.locked_version move.move_id) ≡ locked
    → (if same
        then no_writes
        else if not locked
        then no_writes
        else store_generation request move input_hash g).signal
      ≡ some (id, version, hash, g')
    → (id ≡ move.move_id)
      × (version ≡ move.version)
      × (is_version version (context.locked_version id) ≡ true)
      × (same_input hash (context.latest_signal id) ≡ false)
written-signal context request move input_hash g g' id hash version true locked es el h =
    ground (arith, h)
written-signal context request move input_hash g g' id hash version false false es el h =
    ground (arith, h)
written-signal context request move input_hash g g' id hash version false true es el h =
    let of_move = store_generation-signal request move input_hash g g' id hash version h in
    ground (arith, of_move, es, el)

generate_for-signal :
    (context : Context) (request : SignalRequest) (move : OpenMove) (full : CandidateRange)
    (g : Generation) (id hash : String) (version : ℤ)
    → (generate_for context request move full).signal ≡ some (id, version, hash, g)
    → (id ≡ move.move_id)
      × (version ≡ move.version)
      × (is_version version (context.locked_version id) ≡ true)
      × (same_input hash (context.latest_signal id) ≡ false)
unfolding generate_for
generate_for-signal context request move full g id hash version h =
    written-signal context request move _ _ g id hash version _ _ refl refl h
