-- ===== src/TickPersistence/Handler/Batch/Tests.antt =====
-- A batch of two messages, one of them refused, on a fresh aggregator.
use mathlib.Core.List.{Perm, Nodup, Nodup-cons, Nodup-nil, not-mem-nil, mem-cons}
use mathlib.Core.List.Perm
use mathlib.Core.HLevel.{⊥_prop}
use mathlib.Core.Logic.Or
use Prim.Native.String.{String}
use invest_view.Common.{
  ℕ, ◌≡◌, ◌≢◌, ap, arith, refl, Option, none, some, List, [], ◌∷◌, pos, true, false, if◌then◌else◌,
  ◌==◌, ℤ,
}
use invest_view.TickPersistence.Bar.{TickKey, BarState, TickInput, ok}
use invest_view.TickPersistence.Bar.Order.{keys_of}
use invest_view.TickPersistence.Bar.Invariant.{IsOhlc}
use invest_view.TickPersistence.Aggregator.{Tick, BarKey, init}
use invest_view.TickPersistence.Aggregator.Shape.{Sound, init-Sound}
use invest_view.TickPersistence.Consumer.{TickMessage}
use invest_view.TickPersistence.Handler.{
  InsertedTick, QuarantinedTick, partition_messages, quarantine_of,
}
use invest_view.TickPersistence.Handler.Load.{
  BronzeRow, load_bar_state, load_bar_state-perm, inputs_of, input_of_row,
}
use invest_view.TickPersistence.Handler.Batch.{
  TickHandler, Database, Written, committed, handle_batch,
}
use invest_view.TickPersistence.Handler.Batch.Keeping.{Touched}
use invest_view.TickPersistence.Handler.Batch.Committed.{
  WrittenFor, handle_batch-Sound, handle_batch_commits,
}

abbrev tick_of : ℕ → Tick
tick_of v = record {
  symbol = "005930";
  trade_at = 32461;
  price = pos v;
  amount = pos 10;
  vwap = none;
}

abbrev price_of : ℕ → Option ℤ
price_of v = some (pos v)

abbrev key_of : ℕ → TickKey
key_of o = record { event_ts = 32461; partition = pos 0; offset = pos o }

abbrev message : ℕ → ℕ → TickMessage ℕ
message v o = record { tick = v; from_topic = "ticks"; from_partition = pos 0; from_offset = pos o }

-- A price of zero is refused here.
abbrev validate : TickMessage ℕ → Option String
validate m = if m.tick == 0 then some "price" else none

abbrev blank : BarState
blank = record {
  open_price = pos 0;
  high = pos 0;
  low = pos 0;
  close = pos 0;
  volume = pos 0;
  vwap_last = none;
  tick_count = 0;
  open_key = key_of 0;
  close_key = key_of 0;
  is_final = false;
}

abbrev fresh : TickHandler
fresh = record {
  aggregator = init blank;
  hydrated_keys = [];
  price_anomaly_count = 0;
  ledger = record { consumed = []; accounted = [] };
}

abbrev row : BronzeRow
row = record {
  event_ts = some 32460;
  partition = some (pos 0);
  offset = some (pos 1);
  price = some (pos 690);
  trade_volume = some (pos 5);
  vwap = none;
}

abbrev inserted : List (InsertedTick ℕ)
inserted = record { value = 700; lineage = key_of 2 } ∷ []

abbrev accepting : Database ℕ
accepting = record {
  takes_quarantine = true;
  rows_of = λ k. some (row ∷ []);
  insert_many = λ messages. some inserted;
  takes_snapshots = true;
  takes_bars = true;
  commits = true;
}

abbrev messages : List (TickMessage ℕ)
messages = message 700 2 ∷ message 0 3 ∷ []

abbrev refused : List (QuarantinedTick ℕ)
refused =
    record {
      payload = 0;
      quarantine_topic = "ticks";
      quarantine_partition = pos 0;
      quarantine_offset = pos 3;
      reason = "price";
    }
    ∷ []

splits : partition_messages validate messages ≡ (message 700 2 ∷ [], refused)
unfolding partition_messages quarantine_of
splits = refl

handle_batch-Sound_example :
    Sound
      (handle_batch tick_of price_of validate
        (λ ticks. ticks)
        (record accepting { rows_of = λ k. none })
        messages
        fresh).1.aggregator
handle_batch-Sound_example =
    handle_batch-Sound tick_of price_of validate (λ ticks. ticks)
      (record accepting { rows_of = λ k. none }) messages fresh (init-Sound blank)

handle_batch_commits_example :
    (w : Written ℕ) × ((handle_batch tick_of price_of validate
        (λ ticks. ticks)
        accepting
        messages
        fresh).0
      ≡ committed w)
    × (w.quarantine_rows ≡ refused)
    × ((k : BarKey) → Touched tick_of k inserted → WrittenFor k w.bars)
handle_batch_commits_example =
    handle_batch_commits tick_of price_of validate (λ ticks. ticks) accepting messages fresh
      (message 700 2) [] refused inserted (init-Sound blank) (λ k. (row ∷ [], refl)) splits refl
      refl refl refl refl (λ k touched. touched)

abbrev late_row : BronzeRow
late_row = record row { event_ts = some 32470; offset = some (pos 2); price = some (pos 710) }

abbrev unfinished_row : BronzeRow
unfinished_row = record row { price = none }

distinct : Nodup (keys_of (inputs_of (row ∷ unfinished_row ∷ late_row ∷ [])))
unfolding inputs_of input_of_row
distinct =
    Nodup-cons.1
      (λ m. Or.elim ⊥_prop (mem-cons.0 m) apart not-mem-nil, Nodup-cons.1 (not-mem-nil, Nodup-nil))
  where
    early_key : TickKey
    early_key = record { event_ts = 32460; partition = pos 0; offset = pos 1 }

    apart : early_key ≢ record { event_ts = 32470; partition = pos 0; offset = pos 2 }
    apart e = absurd (omega (arith, ap (λ (k : TickKey). k.event_ts) e))

input_at : ℕ → ℕ → ℕ → TickInput
input_at price time offset = record {
  price = pos price;
  amount = pos 5;
  vwap = none;
  tick_key = record { event_ts = time; partition = pos 0; offset = pos offset };
}

swapped : Perm (inputs_of (row ∷ unfinished_row ∷ late_row ∷ [])) (inputs_of (late_row ∷ row ∷ []))
unfolding inputs_of input_of_row input_at
swapped = Perm.swap (input_at 710 32470 2) (input_at 690 32460 1) []

load_bar_state-perm_example :
    (load_bar_state (row ∷ unfinished_row ∷ late_row ∷ []) ≡ load_bar_state (late_row ∷ row ∷ []))
    × (bar : Option BarState) × (load_bar_state (row ∷ unfinished_row ∷ late_row ∷ []) ≡ ok bar)
    × ((b : BarState) → bar ≡ some b → IsOhlc b)
load_bar_state-perm_example =
    load_bar_state-perm (row ∷ unfinished_row ∷ late_row ∷ []) (late_row ∷ row ∷ []) swapped
      distinct
