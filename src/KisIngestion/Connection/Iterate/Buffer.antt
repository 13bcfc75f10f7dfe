-- ===== src/KisIngestion/Connection/Iterate/Buffer.antt =====
-- What leaves the tick buffer alone: reconnecting and the answers of the broker.
use Prim.Native.String.{String}
use invest_view.Common.{
  ℕ, zero, suc, ◌≡◌, inl, inr, refl, List, [], ◌∷◌, arith, Option-cases, lookup,
}
use invest_view.KisIngestion.Pool.{diff, subscription_eq}
use invest_view.KisIngestion.Connection.{
  ControlOperation, subscribe, unsubscribe, Socket, Subscription, Attempt, Manager, mark_sent,
  send_all, subscribe_all, try_reconnect, reconnect_from, max_retries, reconnect,
}
use invest_view.KisIngestion.Connection.Response.{
  Fields, extract_response_value, response_operation, confirm, handle_json_response,
}
use invest_view.KisIngestion.Connection.Tracking.{reset}

module _ {T : Type 0} where
  send_all_buffer :
      (socket : Socket) (op : ControlOperation) (ks : List Subscription) (m : Manager T)
      → (send_all socket op ks m).1.tick_buffer ≡ m.tick_buffer
  unfolding send_all
  send_all_buffer socket op [] m = refl
  send_all_buffer socket op (k ∷ ks) m =
      ground (arith, send_all_buffer socket op ks (mark_sent op k m))

  subscribe_all_buffer :
      (socket : Socket) (m : Manager T) → (subscribe_all socket m).1.tick_buffer ≡ m.tick_buffer
  unfolding subscribe_all
  subscribe_all_buffer socket m = ground (
    arith,
    send_all_buffer socket unsubscribe (diff m.pool).1 m,
    send_all_buffer socket subscribe (diff m.pool).0
        (send_all socket unsubscribe (diff m.pool).1 m).1,
  )

  try_reconnect_buffer :
      (attempt : Attempt) (m : Manager T) → (try_reconnect attempt m).1.tick_buffer ≡ m.tick_buffer
  unfolding try_reconnect
  try_reconnect_buffer attempt m = elim (Option-cases attempt.refreshed_key) [
    | inl missing ↦ ground (arith, missing)
    | inr (key, given) ↦
        ground (arith, given, subscribe_all_buffer attempt.socket (reset attempt key m))
  ]

  reconnect_from_buffer :
      (attempts : ℕ → Attempt) (attempt retries : ℕ) (m : Manager T)
      → (reconnect_from attempts attempt retries m).1.tick_buffer ≡ m.tick_buffer
  unfolding reconnect_from
  reconnect_from_buffer attempts attempt zero m = refl
  reconnect_from_buffer attempts attempt (suc retries) m = ground (
    arith,
    try_reconnect_buffer (attempts attempt) m,
    reconnect_from_buffer attempts (suc attempt) retries (try_reconnect (attempts attempt) m).1,
  )

  pub reconnect_buffer :
      (attempts : ℕ → Attempt) (m : Manager T)
      → (reconnect attempts m).1.tick_buffer ≡ m.tick_buffer
  unfolding reconnect
  reconnect_buffer attempts m = reconnect_from_buffer attempts 1 max_retries m

  confirm_buffer :
      (op : ControlOperation) (k : Subscription) (m : Manager T)
      → (confirm op k m).tick_buffer ≡ m.tick_buffer
  unfolding confirm
  confirm_buffer subscribe k m = refl
  confirm_buffer unsubscribe k m = refl

  pub handle_json_response_buffer :
      (code_of msg_of : String → String) (fields_of : Fields) (m : Manager T)
      → (handle_json_response code_of msg_of fields_of m).tick_buffer ≡ m.tick_buffer
  unfolding handle_json_response
  handle_json_response_buffer code_of msg_of fields_of m =
      elim (Option-cases (extract_response_value fields_of "tr_id")) [
        | inl missing ↦ ground (arith, missing)
        | inr (tr_id, given) ↦ elim (Option-cases (extract_response_value fields_of "tr_key")) [
          | inl missing ↦ ground (arith, missing, given)
          | inr (symbol, named) ↦
              elim (Option-cases
                (response_operation code_of msg_of fields_of (lookup (tr_id, symbol) m.pending))) [
                  | inl unknown ↦ ground (arith, given, named, unknown)
                  | inr (op, done) ↦
                      ground (arith, given, named, done, confirm_buffer op (tr_id, symbol) m)
                ]
        ]
      ]
