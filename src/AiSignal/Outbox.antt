-- ===== src/AiSignal/Outbox.antt =====
-- services/ai_signal/src/ai_signal/outbox/relay.py: `to_record`, `send_records` and
-- `OutboxRelay.relay_once`. A text stands for its UTF-8 bytes, a time is in microseconds. The rows
-- that another transaction has locked, the delivery reports, what is left after the flush and the
-- answer of the database are arguments; `produced` is what was handed to the producer.
pub mod Delivery
pub mod Running
mod Tests
use Prim.Native.String.{String}
use invest_view.Common.{
  ℕ, zero, suc, ◌/◌, Bool, true, false, not, ◌&&◌, ◌||◌, Option, none, some, List, [], ◌∷◌, ◌++◌,
  if◌then◌else◌, ◌==◌, length, map, member, nat_eq,
}

pub record OutboxEvent (B : Type 0) : Type 0 where
  pub id : ℕ
  pub aggregatetype : String
  pub aggregateid : String
  pub event_type : String
  pub payload : B
  pub created_at : ℕ

pub record OutboxRecord (B : Type 0) : Type 0 where
  pub event_id : ℕ
  pub record_topic : String
  pub record_key : String
  pub record_value : B
  pub headers : List (String × String)
  pub timestamp_ms : ℕ

pub record Outbox (B : Type 0) : Type 0 where
  pub events : List (OutboxEvent B)
  pub produced : List (OutboxRecord B)

-- `id_text` is `str` on the event's id.
unfoldable pub to_record : {B : Type 0} → (ℕ → String) → OutboxEvent B → OutboxRecord B
to_record id_text e = record {
  event_id = e.id;
  record_topic = e.aggregatetype;
  record_key = e.aggregateid;
  record_value = e.payload;
  headers = ("id", id_text e.id) ∷ ("type", e.event_type) ∷ [];
  timestamp_ms = e.created_at / 1000;
}

-- How many delivery reports say so.
unfoldable pub count_reports : Bool → List Bool → ℕ
count_reports wanted [] = 0
count_reports wanted (report ∷ reports) =
    let rest = count_reports wanted reports in
    if (if wanted then report else not report) then suc rest else rest

-- What one call of `relay_once` meets.
pub record Answers : Type 0 where
  pub locked : ℕ → Bool
  pub reports : List Bool
  pub remaining : ℕ
  pub commits : Bool

module _ {B : Type 0} where
  -- The condition at the end of `send_records`; `false` is `OutboxRelayError`.
  unfoldable pub all_delivered : Answers → List (OutboxRecord B) → Bool
  unfolding count_reports
  all_delivered answers records =
      (answers.remaining == 0)
      && (count_reports false answers.reports == 0)
      && (count_reports true answers.reports == length records)

  -- The rows in their order that are not locked, up to the batch size.
  unfoldable pub select_batch : (ℕ → Bool) → ℕ → List (OutboxEvent B) → List (OutboxEvent B)
  select_batch locked zero events = []
  select_batch locked (suc n) [] = []
  select_batch locked (suc n) (e ∷ events) =
      if locked e.id then select_batch locked (suc n) events else e ∷ select_batch locked n events

  unfoldable pub delete_events : List ℕ → List (OutboxEvent B) → List (OutboxEvent B)
  delete_events ids [] = []
  delete_events ids (e ∷ events) =
      let rest = delete_events ids events in if member e.id ids then rest else e ∷ rest

  -- `relay_once`: the count, or none for an exception, after which the rows are as they were.
  unfoldable pub relay_once : (ℕ → String) → Answers → ℕ → Outbox B → Option ℕ × Outbox B
  unfolding to_record all_delivered select_batch delete_events
  relay_once id_text answers batch_size o =
      let rows = select_batch answers.locked batch_size o.events in
      let records = map (to_record id_text) rows in
      let sent = record o { produced = o.produced ++ records } in
      if length rows == 0
      then (some 0, o)
      else if all_delivered answers records && answers.commits
      then (
        some (length records),
        record sent { events = delete_events (map (λ r. r.event_id) records) o.events },
      )
      else (none, sent)

  -- `run`, by the answers that its rounds meet until it is stopped; an exception ends it, and false
  -- says so. Waiting between rounds changes nothing.
  unfoldable pub run : (ℕ → String) → List Answers → ℕ → Outbox B → Bool × Outbox B
  unfolding relay_once
  run id_text [] batch_size o = (true, o)
  run id_text (answers ∷ rounds) batch_size o =
      let (count, o') = relay_once id_text answers batch_size o in
      let rest = run id_text rounds batch_size o' in
      elim count [ none ↦ (false, o') | some n ↦ rest ]
