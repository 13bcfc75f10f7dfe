-- ===== src/KisIngestion/Connection.antt =====
-- services/kis_ingestion/src/kis_ingestion/connection_manager.py: `KISConnectionManager`.
-- What the socket, the key manager and the parsers answer is given as arguments, so is what
-- Python's strip, upper and split make of a code or a message. An operation that can raise
-- returns `false` with the state that it leaves. `sent` is what went out on the socket.
pub mod Response
pub mod Tracking
pub mod Sequence
pub mod Iterate
mod Tests
use Prim.Native.String.{String}
use invest_view.Common.{
  ℕ, zero, suc, ◌+◌, ◌*◌, Bool, true, false, ◌&&◌, ◌||◌, Option, none, some, List, [], ◌∷◌, ◌++◌,
  if◌then◌else◌, Dict, lookup, insert, erase, str_beq, ◌==◌, length, drop,
}
use invest_view.KisIngestion.Pool.{
  Subscription, subscription_eq, KisSubscriptionPool, confirm_subscribed, confirm_unsubscribed,
  diff, clear_actual,
}

pub data ControlOperation : Type 0 where
  subscribe unsubscribe : ControlOperation

pub record Manager (T : Type 0) : Type 0 where
  pub pool : KisSubscriptionPool
  pub approval_key : Option String
  pub session_id : String
  pub sequence : ℕ
  pub running : Bool
  pub pending : Dict Subscription ControlOperation
  pub tick_buffer : List (T × String × ℕ)
  pub sent : List (ControlOperation × Subscription)

-- Whether the socket takes a request; `false` is an exception.
abbrev pub Socket : Type 0
Socket = ControlOperation → Subscription → Bool

-- What one attempt to connect meets.
pub record Attempt : Type 0 where
  pub disconnects : Bool
  pub refreshed_key : Option String
  pub connects : Bool
  pub new_session : String
  pub socket : Socket

abbrev pub max_retries : ℕ
max_retries = 8

abbrev pub record_field_count : ℕ
record_field_count = 46

abbrev pub take : {A : Type 0} → ℕ → List A → List A
take zero xs = []
take (suc n) [] = []
take (suc n) (x ∷ xs) = x ∷ take n xs

-- `values[start:end]`
abbrev pub record_values : {A : Type 0} → List A → ℕ → List A
record_values values index = take record_field_count (drop (index * record_field_count) values)

module _ {T : Type 0} where
  unfoldable pub mark_sent : ControlOperation → Subscription → Manager T → Manager T
  mark_sent op k m = record m { pending = insert k op m.pending; sent = m.sent ++ (op, k) ∷ [] }

  -- One of the two loops of `_subscribe_all`.
  pub send_all : Socket → ControlOperation → List Subscription → Manager T → Bool × Manager T
  unfolding mark_sent
  send_all socket op [] m = (true, m)
  send_all socket op (k ∷ ks) m =
      if socket op k then send_all socket op ks (mark_sent op k m) else (false, m)

  pub subscribe_all : Socket → Manager T → Bool × Manager T
  unfolding send_all
  subscribe_all socket m = elim m.approval_key [
    | none ↦ (false, m)
    | some key ↦
        let (to_subscribe, to_unsubscribe) = diff m.pool in
        let (done, m') = send_all socket unsubscribe to_unsubscribe m in
        if done then send_all socket subscribe to_subscribe m' else (false, m')
  ]

  -- `connect`, with the key that the key manager gives, if it does not raise.
  pub connect : Attempt → Manager T → Bool × Manager T
  unfolding subscribe_all
  connect attempt m = elim attempt.refreshed_key [
    | none ↦ (false, m)
    | some key ↦
        if attempt.connects
        then subscribe_all attempt.socket (record m {
          approval_key = some key;
          session_id = attempt.new_session;
          sequence = 0;
          running = true;
          pending = [];
        })
        else (false, m)
  ]

  -- `stop`: the buffer stays if the disconnect raises.
  pub stop : Bool → Manager T → Bool × Manager T
  stop disconnects m =
      let m' = record m { running = false; pending = [] } in
      if disconnects then (true, record m' { tick_buffer = [] }) else (false, m')

  -- The body of the `try` of `_reconnect`; `disconnects` is true as well when nothing was connected.
  pub try_reconnect : Attempt → Manager T → Bool × Manager T
  unfolding subscribe_all
  try_reconnect attempt m = elim attempt.refreshed_key [
    | none ↦ (false, m)
    | some key ↦
        if attempt.disconnects && attempt.connects
        then subscribe_all attempt.socket (record m {
          approval_key = some key;
          pool = clear_actual m.pool;
          pending = [];
          session_id = attempt.new_session;
          sequence = 0;
        })
        else (false, m)
  ]

  -- The attempts of the loop from number `attempt` on; `false` is `ReconnectExhaustedError`.
  pub reconnect_from : (ℕ → Attempt) → ℕ → ℕ → Manager T → Bool × Manager T
  unfolding try_reconnect
  reconnect_from attempts attempt zero m = (false, m)
  reconnect_from attempts attempt (suc retries) m =
      let (done, m') = try_reconnect (attempts attempt) m in
      if done then (true, m') else reconnect_from attempts (suc attempt) retries m'

  pub reconnect : (ℕ → Attempt) → Manager T → Bool × Manager T
  unfolding reconnect_from
  reconnect attempts m = reconnect_from attempts 1 max_retries m

  unfoldable pub append_tick : T → Manager T → Manager T
  append_tick t m = record m {
    sequence = suc m.sequence;
    tick_buffer = m.tick_buffer ++ (t, m.session_id, suc m.sequence) ∷ [];
  }

  -- The loop of `_handle_data_message` from `index` on. The tick parser raises where it gives none;
  -- the market is that of the adapter of the transaction id, if there is one.
  pub handle_records :
      {A : Type 0}
      → (String → List A → Option T)
      → Option String
      → List A
      → ℕ
      → ℕ
      → Manager T
      → Bool × Manager T
  unfolding append_tick
  handle_records parse market values index zero m = (true, m)
  handle_records parse market values index (suc count) m =
      if length (record_values values index) == record_field_count
      then elim market [
        | none ↦ handle_records parse market values (suc index) count m
        | some name ↦ elim (parse name (record_values values index)) [
          | none ↦ (false, m)
          | some t ↦ handle_records parse market values (suc index) count (append_tick t m)
        ]
      ]
      else handle_records parse market values (suc index) count m

  pub handle_data_message :
      {A : Type 0}
      → (String → List A → Option T)
      → Option String
      → List A
      → ℕ
      → Manager T
      → Bool × Manager T
  unfolding handle_records
  handle_data_message parse market values count m = handle_records parse market values 0 count m
