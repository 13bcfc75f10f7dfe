-- ===== src/AiSignal/Outbox/Tests.antt =====
-- An outbox of two events, relayed one at a time.
use invest_view.Common.{ℕ, ◌≡◌, refl, true, false, List, [], ◌∷◌, member, nat_eq}
use invest_view.AiSignal.Outbox.{
  OutboxEvent, Outbox, to_record, Answers, all_delivered, select_batch, delete_events, relay_once,
  run, count_reports,
}
use invest_view.AiSignal.Outbox.Delivery.{ids_of, record_ids, relay_once_delivers}

abbrev event : ℕ → OutboxEvent ℕ
event i = record {
  id = i;
  aggregatetype = "signal";
  aggregateid = "005930";
  event_type = "created";
  payload = i;
  created_at = 5000;
}

abbrev outbox : Outbox ℕ
outbox = record { events = event 1 ∷ event 2 ∷ []; produced = [] }

abbrev delivered : Answers
delivered = record { locked = λ i. false; reports = true ∷ []; remaining = 0; commits = true }

abbrev in_flight : Answers
in_flight = record delivered { reports = []; remaining = 1 }

there : member 1 (ids_of outbox.events) ≡ true
unfolding member
there = refl

gone : member 1 (ids_of (relay_once (λ i. "1") delivered 1 outbox).1.events) ≡ false
unfolding relay_once select_batch all_delivered count_reports delete_events member to_record
gone = refl

relay_once_delivers_example :
    (member 1 (record_ids (relay_once (λ i. "1") delivered 1 outbox).1.produced) ≡ true)
    × (delivered.remaining ≡ 0)
    × (count_reports false delivered.reports ≡ 0)
    × (delivered.commits ≡ true)
relay_once_delivers_example = relay_once_delivers (λ i. "1") delivered 1 outbox 1 there gone

-- The first round delivers event 1, the second publishes event 2 and raises.
abbrev rounds : List Answers
rounds = delivered ∷ in_flight ∷ []

ends : run (λ i. "1") rounds 1 outbox ≡ (
  false,
  record {
    events = event 2 ∷ [];
    produced = to_record (λ i. "1") (event 1) ∷ to_record (λ i. "1") (event 2) ∷ [];
  },
)
unfolding run relay_once select_batch all_delivered count_reports delete_events member to_record
ends = refl
