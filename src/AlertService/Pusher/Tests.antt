-- ===== src/AlertService/Pusher/Tests.antt =====
-- An alert for two watchers, one of them connected.
use invest_view.Common.{
  ℕ, ◌≡◌, refl, Bool, true, false, ◌==◌, [], ◌∷◌, All, lookup, insert, str_beq, add, member,
  discard,
}
use invest_view.AlertService.Registry.{send_to_user, is_connected}
use invest_view.AlertService.Notifications.{
  sent, failed, notification_beq, bulk_create_pending, insert_all, insert_pending, pending_users,
  is_pending, mark,
}
use invest_view.AlertService.Pusher.{
  AlertEvent, World, Database, handle_alert, fan_out, notify_all, notify,
}
use invest_view.AlertService.Pusher.Replay.{settled, handle_alert_replay}

abbrev jump : AlertEvent
jump = record { alert_event_id = "a1"; symbol = "005930" }

abbrev start : World
start = record {
  alerts = [];
  notifications = [];
  registry = record { by_user = ("kim", 1 ∷ 2 ∷ []) ∷ [] };
  pushed = [];
}

abbrev answering : Database
answering = record {
  upserts = true;
  find_users_for_symbol = λ symbol. "kim" ∷ "lee" ∷ [];
  finds = true;
  creates = true;
  marks = λ k. true;
}

-- The second socket is broken.
abbrev takes : ℕ → Bool
takes ws = ws == 1

abbrev after : World
after = record {
  alerts = "a1" ∷ [];
  notifications =
      (("kim", "a1"), record { symbol = "005930"; delivery_status = sent })
      ∷ (("lee", "a1"), record { symbol = "005930"; delivery_status = failed "no_connection" })
      ∷ [];
  registry = record { by_user = ("kim", 1 ∷ []) ∷ [] };
  pushed = (("kim", "a1"), 1) ∷ [];
}

handled : handle_alert false answering takes jump start ≡ (true, after)
unfolding handle_alert str_beq fan_out notify_all bulk_create_pending pending_users is_pending
    lookup insert_all insert_pending insert notification_beq notify is_connected send_to_user
    discard add mark member
handled = refl

handle_alert_replay_example :
    All (λ user. settled (user, "a1") after.notifications ≡ true) ("kim" ∷ "lee" ∷ [])
    × (handle_alert false answering (λ ws. true) jump after ≡ (true, after))
handle_alert_replay_example =
    handle_alert_replay false answering answering takes (λ ws. true) jump start after handled refl
      refl refl refl
