-- ===== src/AiSignal/Outbox/Delivery.antt =====
-- An event leaves the outbox only once it was produced and delivered.
use Prim.Native.String.{String}
use invest_view.Common.{
  ℕ, ◌≡◌, refl, true, false, not, ◌&&◌, ◌||◌, List, [], ◌∷◌, ◌++◌, arith, map, member, nat_eq,
}
use invest_view.AiSignal.Outbox.{
  OutboxEvent, OutboxRecord, Outbox, to_record, Answers, all_delivered, select_batch, delete_events,
  relay_once, count_reports,
}

abbrev pub ids_of : {B : Type 0} → List (OutboxEvent B) → List ℕ
ids_of events = map (λ e. e.id) events

abbrev pub record_ids : {B : Type 0} → List (OutboxRecord B) → List ℕ
record_ids records = map (λ r. r.event_id) records

member-append : (i : ℕ) (xs ys : List ℕ) → member i (xs ++ ys) ≡ (member i xs || member i ys)
unfolding member
member-append i [] ys = refl
member-append i (x ∷ xs) ys = ground (arith, member-append i xs ys)

map-append :
    {B : Type 0} (xs ys : List (OutboxRecord B))
    → record_ids (xs ++ ys) ≡ record_ids xs ++ record_ids ys
map-append [] ys = refl
map-append (x ∷ xs) ys = ground (arith, map-append xs ys)

member-delete_events :
    {B : Type 0} (i : ℕ) (ids : List ℕ) (events : List (OutboxEvent B))
    → member i (ids_of (delete_events ids events))
      ≡ (member i (ids_of events) && not (member i ids))
unfolding delete_events member
member-delete_events i ids [] = refl
member-delete_events i ids (e ∷ events) = ground (arith, member-delete_events i ids events)

-- When an id has left the outbox after `relay_once`, it is among the
-- records produced; nothing was left after the flush, no delivery failed, and the transaction
-- was committed.
pub relay_once_delivers :
    {B : Type 0} (id_text : ℕ → String) (answers : Answers) (batch_size : ℕ) (o : Outbox B) (i : ℕ)
    → member i (ids_of o.events) ≡ true
    → member i (ids_of (relay_once id_text answers batch_size o).1.events) ≡ false
    → (member i (record_ids (relay_once id_text answers batch_size o).1.produced) ≡ true)
      × (answers.remaining ≡ 0)
      × (count_reports false answers.reports ≡ 0)
      × (answers.commits ≡ true)
unfolding relay_once all_delivered
relay_once_delivers id_text answers batch_size o i h gone =
    let records = map (to_record id_text) (select_batch answers.locked batch_size o.events) in
    ground (
      arith,
      member-delete_events i (record_ids records) o.events,
      map-append o.produced records,
      member-append i (record_ids o.produced) (record_ids records),
    )
