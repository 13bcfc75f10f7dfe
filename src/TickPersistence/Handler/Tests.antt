-- ===== src/TickPersistence/Handler/Tests.antt =====
-- A handled batch of three messages: one inserted, one duplicate, one without a tick.
use Prim.Native.String.{String}
use invest_view.Common.{
  ℕ, ◌≤◌, ◌≡◌, refl, Option, none, some, List, [], ◌∷◌, pos, arith, lookup, insert, str_beq,
  string_eq, map, All,
}
use invest_view.TickPersistence.Bar.{TickKey, key_lt}
use invest_view.TickPersistence.Ledger.{ReconciliationLedger, record_batch, imbalance}
use invest_view.TickPersistence.Ledger.Counting.{count_of}
use invest_view.TickPersistence.Consumer.{
  Message, TickMessage, QueuedMessage, ticks_of, ledger_rows,
}
use invest_view.TickPersistence.Handler.{
  InsertedTick, partition_messages, record_reconciliation, latest_ticks_by_symbol, latest_into,
  keep_later,
}
use invest_view.TickPersistence.Handler.Reconcile.{Agree, reconciliation_balanced}
use invest_view.TickPersistence.Handler.Latest.{AtLeast, latest_ticks_by_symbol_lem}

abbrev message : ℕ → Message ℕ
message o = record {
  topic = some "ticks";
  partition = some (pos 0);
  offset = some (pos o);
  error = none;
  value = some 0;
}

abbrev tick_at : ℕ → TickMessage String
tick_at o = record {
  tick = "005930";
  from_topic = "ticks";
  from_partition = pos 0;
  from_offset = pos o;
}

abbrev batch : List (QueuedMessage ℕ String)
batch = (message 1, some (tick_at 1)) ∷ (message 2, some (tick_at 2)) ∷ (message 3, none) ∷ []

abbrev key_of : ℕ → TickKey
key_of o = record { event_ts = 100; partition = pos 0; offset = pos o }

abbrev inserted_ticks : List (InsertedTick String)
inserted_ticks = record { value = "005930"; lineage = key_of 1 } ∷ []

abbrev validate : TickMessage String → Option String
validate m = none

abbrev ledger : ReconciliationLedger
ledger = record { consumed = []; accounted = [] }

batch-Agree : All Agree batch
batch-Agree = (refl, (refl, (tt, tt)))

few_inserted :
    count_of (pos 0) (map (λ t. t.lineage.partition) inserted_ticks)
    ≤ count_of
        (pos 0)
        (map (λ m. m.from_partition) (partition_messages validate (ticks_of batch)).0)
unfolding count_of partition_messages ticks_of
few_inserted = omega arith

reconciliation_balanced_example :
    imbalance
      (record_batch (ledger_rows batch) (
        record_reconciliation
          (partition_messages validate (ticks_of batch)).0
          (partition_messages validate (ticks_of batch)).1
          inserted_ticks
          ledger))
      (pos 0)
    ≡ imbalance ledger (pos 0)
reconciliation_balanced_example =
    reconciliation_balanced validate batch inserted_ticks ledger (pos 0) batch-Agree few_inserted

abbrev two_ticks : List (InsertedTick String)
two_ticks =
    record { value = "005930"; lineage = key_of 2 }
    ∷ record { value = "005930"; lineage = key_of 1 }
    ∷ []

latest_ticks_by_symbol_lem_example :
    All (λ u. AtLeast (λ s. s) (latest_ticks_by_symbol (λ s. s) two_ticks) u.value u) two_ticks
latest_ticks_by_symbol_lem_example = latest_ticks_by_symbol_lem (λ s. s) two_ticks

latest_of_two :
    lookup "005930" (latest_ticks_by_symbol (λ s. s) two_ticks)
    ≡ some (record { value = "005930"; lineage = key_of 2 })
unfolding latest_ticks_by_symbol latest_into keep_later lookup insert str_beq key_lt
latest_of_two = refl
