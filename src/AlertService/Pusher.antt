-- ===== src/AlertService/Pusher.antt =====
-- services/alert_service/src/alert_service/ws/pusher.py: `AlertPusher.handle`. The watchers of a symbol,
-- the sockets and the database are arguments; `pushed` lists what the sockets took.
pub mod Replay
mod Tests
use Prim.Native.String.{String}
use invest_view.Common.{
  ℕ, Bool, true, false, not, List, [], ◌∷◌, ◌++◌, if◌then◌else◌, str_beq, string_eq, add, ltb,
}
use invest_view.AlertService.Registry.{ConnectionRegistry, is_connected, send_to_user}
use invest_view.AlertService.Notifications.{
  NotificationKey, DeliveryStatus, sent, failed, Table, bulk_create_pending, mark,
}

-- The fields of an alert that decide what happens to it; the payload is carried.
pub record AlertEvent : Type 0 where
  pub alert_event_id : String
  pub symbol : String

pub record World : Type 0 where
  pub alerts : List String
  pub notifications : Table
  pub registry : ConnectionRegistry
  pub pushed : List (NotificationKey × ℕ)

-- What the database does; `false` is an exception.
pub record Database : Type 0 where
  pub upserts : Bool
  pub find_users_for_symbol : String → List String
  pub finds : Bool
  pub creates : Bool
  pub marks : NotificationKey → Bool

abbrev pub sentinel_alert_event_id : String
sentinel_alert_event_id = "00000000-0000-0000-0000-000000000000"

unfoldable pub mark_row : Database → DeliveryStatus → NotificationKey → World → Bool × World
mark_row db status k w =
    if db.marks k
    then (true, record w { notifications = mark status k w.notifications })
    else (false, w)

-- One round of the loop over the pairs.
unfoldable pub notify : Database → (ℕ → Bool) → NotificationKey → World → Bool × World
unfolding mark_row
notify db takes k w =
    if not (is_connected k.0 w.registry)
    then mark_row db (failed "no_connection") k w
    else let ((sent_n, failed_n), registry) = send_to_user takes k.0 w.registry in
      if ltb 0 sent_n
      then mark_row db sent k
          (record w { registry = registry; pushed = w.pushed ++ (k, sent_n) ∷ [] })
      else mark_row db (failed "send_error") k (record w { registry = registry })

unfoldable pub notify_all : Database → (ℕ → Bool) → String → List String → World → Bool × World
notify_all db takes alert [] w = (true, w)
notify_all db takes alert (user ∷ users) w =
    let (done, w') = notify db takes (user, alert) w in
    let rest = notify_all db takes alert users w' in if done then rest else (false, w')

-- What follows the watchers' query.
unfoldable pub fan_out : Database → (ℕ → Bool) → AlertEvent → List String → World → Bool × World
fan_out db takes event [] w = (true, w)
fan_out db takes event (user ∷ users) w =
    if not db.creates
    then (false, w)
    else let (pairs, created) =
        bulk_create_pending (user ∷ users) event.alert_event_id event.symbol w.notifications in
      notify_all db takes event.alert_event_id pairs (record w { notifications = created })

-- `handle`; `fail_after_alert` is `fanout_fail_after_alert`.
unfoldable pub handle_alert : Bool → Database → (ℕ → Bool) → AlertEvent → World → Bool × World
handle_alert fail_after_alert db takes event w =
    if str_beq event.alert_event_id sentinel_alert_event_id
    then (false, w)
    else if not db.upserts
    then (false, w)
    else let upserted = record w { alerts = add event.alert_event_id w.alerts } in
      if fail_after_alert
      then (false, upserted)
      else if not db.finds
      then (false, upserted)
      else fan_out db takes event (db.find_users_for_symbol event.symbol) upserted
