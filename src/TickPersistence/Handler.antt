-- ===== src/TickPersistence/Handler.antt =====
-- services/tick_persistence/src/tick_persistence/handler.py: the parts of `TickHandler` that stand
-- between the consumer, the repositories and the aggregator. Validation is an argument here, a
-- function that gives the reason for which a message is refused.
pub mod Reconcile
pub mod Latest
pub mod Load
pub mod Validate
pub mod Batch
mod Tests
use Prim.Native.String.{String}
use invest_view.Common.{
  ℕ, suc, ◌+◌, ◌≡◌, Bool, true, false, not, ◌&&◌, ◌||◌, Option, none, some, List, [], ◌∷◌, ◌++◌, ℤ,
  pos, leb_ℤ, leb, ltb, if◌then◌else◌, Dict, lookup, insert, str_beq, string_eq, map, max, arith,
}
use invest_view.TickPersistence.Bar.{TickKey, key_lt}
use invest_view.TickPersistence.Aggregator.{BarKey}
use invest_view.TickPersistence.Consumer.{TickMessage}
use invest_view.TickPersistence.Ledger.{ReconciliationLedger, record_handled}

pub record QuarantinedTick (V : Type 0) : Type 0 where
  pub payload : V
  pub quarantine_topic : String
  pub quarantine_partition : ℤ
  pub quarantine_offset : ℤ
  pub reason : String

-- A row that Postgres inserted, over the tick's dictionary.
pub record InsertedTick (V : Type 0) : Type 0 where
  pub value : V
  pub lineage : TickKey

module _ {V : Type 0} where
  quarantine_of : TickMessage V → String → QuarantinedTick V
  quarantine_of m why = record {
    payload = m.tick;
    quarantine_topic = m.from_topic;
    quarantine_partition = m.from_partition;
    quarantine_offset = m.from_offset;
    reason = why;
  }

  -- `_partition_messages`, with the exception of `_validate_message` as `some reason`.
  pub partition_messages :
      (TickMessage V → Option String)
      → List (TickMessage V)
      → List (TickMessage V) × List (QuarantinedTick V)
  unfolding quarantine_of
  partition_messages validate [] = ([], [])
  partition_messages validate (m ∷ messages) =
      let (valid, quarantined) = partition_messages validate messages in
      elim (validate m) [
        | none ↦ (m ∷ valid, quarantined)
        | some why ↦ (valid, quarantine_of m why ∷ quarantined)
      ]

  -- `_record_reconciliation` with a ledger.
  unfoldable pub record_reconciliation :
      List (TickMessage V)
      → List (QuarantinedTick V)
      → List (InsertedTick V)
      → ReconciliationLedger
      → ReconciliationLedger
  record_reconciliation valid quarantined inserted_ticks l =
      record_handled (map (λ m. m.from_partition) valid)
        (map (λ q. q.quarantine_partition) quarantined)
        (map (λ t. t.lineage.partition) inserted_ticks) l

  -- One round of the loop of `_latest_ticks_by_symbol`; `str(value["symbol"])` is the argument
  -- `symbol_of`.
  keep_later :
      (V → String) → InsertedTick V → Dict String (InsertedTick V) → Dict String (InsertedTick V)
  keep_later symbol_of t latest = elim (lookup (symbol_of t.value) latest) [
    | none ↦ insert (symbol_of t.value) t latest
    | some current ↦
        if key_lt current.lineage t.lineage then insert (symbol_of t.value) t latest else latest
  ]

  latest_into :
      (V → String)
      → List (InsertedTick V)
      → Dict String (InsertedTick V)
      → Dict String (InsertedTick V)
  latest_into symbol_of [] latest = latest
  latest_into symbol_of (t ∷ ticks) latest =
      latest_into symbol_of ticks (keep_later symbol_of t latest)

  pub latest_ticks_by_symbol : (V → String) → List (InsertedTick V) → Dict String (InsertedTick V)
  unfolding latest_into
  latest_ticks_by_symbol symbol_of ticks = latest_into symbol_of ticks []

  -- `_observe_price_anomalies`: the new counter; `price_of` is `int(value["price"])`, none if that
  -- raises.
  pub observe_price_anomalies : (V → Option ℤ) → List (InsertedTick V) → ℕ → ℕ
  observe_price_anomalies price_of [] anomalies = anomalies
  observe_price_anomalies price_of (t ∷ ticks) anomalies =
      observe_price_anomalies price_of ticks (elim (price_of t.value) [
        | none ↦ anomalies
        | some price ↦ if leb_ℤ price (pos 0) then suc anomalies else anomalies
      ])

-- `_forget_hydrated_before`: the hydrated keys that stay.
pub forget_hydrated_before : String → ℕ → List BarKey → List BarKey
forget_hydrated_before symbol bucket [] = []
forget_hydrated_before symbol bucket (k ∷ keys) =
    let rest = forget_hydrated_before symbol bucket keys in
    if not (str_beq k.0 symbol) || leb bucket k.1 then k ∷ rest else rest
