-- ===== src/TickPersistence/Handler/Batch.antt =====
-- services/tick_persistence/src/tick_persistence/handler.py: `TickHandler.handle_batch` and what it
-- calls. What the database answers in the transaction is an argument, so are the
-- reading of a tick's fields, its validation and Python's `sorted`.
pub mod Keeping
pub mod Committed
mod Tests
use Prim.Native.String.{String}
use invest_view.Common.{
  ℕ, ◌+◌, Bool, true, false, ◌&&◌, not, Option, none, some, List, [], ◌∷◌, ◌++◌, ℤ, if◌then◌else◌,
  add, Dict, lookup, insert, member, map, max, string_eq,
}
use invest_view.TickPersistence.Bar.{
  Decimal, TickKey, BarState, TickInput, Result, ok, raise, from_tick, add_tick as add_to_bar,
}
use invest_view.TickPersistence.Aggregator.{
  BarKey, key_beq, key_eq, Aggregator, Tick, tick_key_of, bucket_size, allocate, hydrate, has_bar,
  add_tick, pop_finalized_bars, clear,
}
use invest_view.TickPersistence.Consumer.{TickMessage}
use invest_view.TickPersistence.Ledger.{ReconciliationLedger}
use invest_view.TickPersistence.Handler.Load.{BronzeRow, load_bar_state}
use invest_view.TickPersistence.Handler.{
  QuarantinedTick, InsertedTick, partition_messages, record_reconciliation, latest_ticks_by_symbol,
  observe_price_anomalies, forget_hydrated_before,
}

pub record TickHandler : Type 0 where
  pub aggregator : Aggregator
  pub hydrated_keys : List BarKey
  pub price_anomaly_count : ℕ
  pub ledger : ReconciliationLedger

-- What the database does in the transaction; `false` and none are exceptions.
pub record Database (V : Type 0) : Type 0 where
  pub takes_quarantine : Bool
  pub rows_of : BarKey → Option (List BronzeRow)
  pub insert_many : List (TickMessage V) → Option (List (InsertedTick V))
  pub takes_snapshots : Bool
  pub takes_bars : Bool
  pub commits : Bool

pub record Written (V : Type 0) : Type 0 where
  pub quarantine_rows : List (QuarantinedTick V)
  pub snapshots : List V
  pub bars : List (String × ℕ × ℕ × BarState)

pub data Outcome (V : Type 0) : Type 0 where
  nothing_to_do : Outcome V
  rolled_back : Outcome V
  committed : Written V → Outcome V

unfoldable pub add_key : BarKey → TickHandler → TickHandler
add_key k h = record h { hydrated_keys = add k h.hydrated_keys }

-- `_hydrate_once`; the loaded bar is a new object.
unfoldable pub hydrate_once :
    (BarKey → Option (List BronzeRow)) → BarKey → TickHandler → Bool × TickHandler
unfolding add_key
hydrate_once rows_of k h =
    if has_bar k h.aggregator then (true, add_key k h) else elim (rows_of k) [
      | none ↦ (false, add_key k h)
      | some rows ↦ elim (load_bar_state rows) [
        | raise e ↦ (false, add_key k h)
        | ok existing ↦ elim existing [
          | none ↦ (true, add_key k h)
          | some bar ↦ (
            true,
            record (add_key k h) {
              aggregator = hydrate k h.aggregator.next (allocate h.aggregator bar);
            },
          )
        ]
      ]
    ]

-- `{**changed, **finalized}`
unfoldable pub update : Dict BarKey ℕ → List (BarKey × ℕ) → Dict BarKey ℕ
update changed [] = changed
update changed ((k, i) ∷ finalized) = update (insert k i changed) finalized

-- `bar_rows`, as the bars are when they are written.
unfoldable pub bar_rows : Aggregator → Dict BarKey ℕ → List (String × ℕ × ℕ × BarState)
bar_rows a [] = []
bar_rows a ((k, i) ∷ merged) = (k.0, k.1, k.1 + bucket_size, a.heap i) ∷ bar_rows a merged

-- The loop that fills `latest_bucket_by_symbol`.
unfoldable pub latest_bucket_by_symbol : Dict BarKey ℕ → Dict String ℕ → Dict String ℕ
latest_bucket_by_symbol [] latest = latest
latest_bucket_by_symbol ((k, i) ∷ changed) latest =
    latest_bucket_by_symbol changed
      (insert k.0 (elim (lookup k.0 latest) [ none ↦ k.1 | some b ↦ max k.1 b ]) latest)

unfoldable pub forget_all : Dict String ℕ → List BarKey → List BarKey
forget_all [] keys = keys
forget_all ((symbol, bucket) ∷ latest) keys =
    forget_all latest (forget_hydrated_before symbol bucket keys)

unfoldable pub is_empty : {A : Type 0} → List A → Bool
is_empty [] = true
is_empty (x ∷ xs) = false

-- `clear_state`
unfoldable pub clear_state : TickHandler → TickHandler
clear_state h = record h { aggregator = clear h.aggregator; hydrated_keys = [] }

module _ {V : Type 0} (tick_of : V → Tick) where
  -- `_hydrate_batch` from a message on.
  unfoldable pub hydrate_batch :
      (BarKey → Option (List BronzeRow))
      → List BarKey
      → List (TickMessage V)
      → TickHandler
      → Bool × TickHandler
  unfolding hydrate_once
  hydrate_batch rows_of seen [] h = (true, h)
  hydrate_batch rows_of seen (m ∷ messages) h =
      let k = tick_key_of (tick_of m.tick) in
      let (done, h') = hydrate_once rows_of k h in
      let skipped = hydrate_batch rows_of seen messages h in
      let rest = hydrate_batch rows_of (k ∷ seen) messages h' in
      if member k seen then skipped else if done then rest else (false, h')

  -- Whether the next tick is of the bucket, by `_same_bucket`.
  unfoldable pub next_in_bucket : BarKey → List (InsertedTick V) → Bool
  next_in_bucket k [] = false
  next_in_bucket k (t ∷ ticks) = key_beq (tick_key_of (tick_of t.value)) k

  -- The loop of `_add_inserted_ticks`.
  unfoldable pub add_ordered_ticks :
      List (InsertedTick V) → Dict BarKey ℕ → Aggregator → Option (Dict BarKey ℕ) × Aggregator
  unfolding next_in_bucket
  add_ordered_ticks [] changed a = (some changed, a)
  add_ordered_ticks (t ∷ ticks) changed a =
      let tick = tick_of t.value in
      let k = tick_key_of tick in
      let (r, b) = add_tick tick t.lineage a in
      elim r [
        | raise e ↦ (none, b)
        | ok i ↦
            add_ordered_ticks ticks (insert k i changed)
              (if (b.heap i).is_final && next_in_bucket k ticks then hydrate k i b else b)
      ]

  -- The values of `_latest_ticks_by_symbol`.
  unfoldable pub latest_values : List (InsertedTick V) → List V
  latest_values inserted =
      map (λ (entry : String × InsertedTick V). entry.1.value)
        (latest_ticks_by_symbol (λ v. (tick_of v).symbol) inserted)

  module _ (price_of : V → Option ℤ) (validate : TickMessage V → Option String)
      (sorted : List (InsertedTick V) → List (InsertedTick V)) where
    unfoldable pub add_inserted_ticks :
        List (InsertedTick V) → Aggregator → Option (Dict BarKey ℕ) × Aggregator
    unfolding add_ordered_ticks
    add_inserted_ticks ticks a = add_ordered_ticks (sorted ticks) [] a

    -- What follows the insert, for the ticks that Postgres inserted: the snapshots and the bars that
    -- are written, none if something raised.
    unfoldable pub write_inserted :
        Database V
        → List (InsertedTick V)
        → TickHandler
        → Option (List V × List (String × ℕ × ℕ × BarState)) × TickHandler
    unfolding add_inserted_ticks update bar_rows forget_all latest_bucket_by_symbol
    write_inserted db [] h = (some ([], []), h)
    write_inserted db (t ∷ ticks) h =
        let inserted = t ∷ ticks in
        let observed = record h {
          price_anomaly_count = observe_price_anomalies price_of inserted h.price_anomaly_count;
        } in
        let (changed_bars, a) = add_inserted_ticks inserted h.aggregator in
        let (finalized, popped) = pop_finalized_bars a in
        if not db.takes_snapshots then (none, observed) else elim changed_bars [
          | none ↦ (none, record observed { aggregator = a })
          | some changed ↦
              if not db.takes_bars then (none, record observed { aggregator = popped }) else (
                some (latest_values inserted, bar_rows popped (update changed finalized)),
                record observed {
                  aggregator = popped;
                  hydrated_keys = forget_all (latest_bucket_by_symbol changed []) h.hydrated_keys;
                },
              )
        ]

    -- The part of the transaction that is about valid messages.
    unfoldable pub persist_valid :
        Database V
        → List (TickMessage V)
        → TickHandler
        → Option (List (InsertedTick V) × List V × List (String × ℕ × ℕ × BarState)) × TickHandler
    unfolding write_inserted hydrate_batch
    persist_valid db [] h = (some ([], [], []), h)
    persist_valid db (m ∷ messages) h =
        let (done, hydrated) = hydrate_batch db.rows_of [] (m ∷ messages) h in
        if not done then (none, hydrated) else elim (db.insert_many (m ∷ messages)) [
          | none ↦ (none, hydrated)
          | some inserted ↦
              let (written, h') = write_inserted db inserted hydrated in
              elim written [
                | none ↦ (none, h')
                | some (snapshots, bars) ↦ (some (inserted, snapshots, bars), h')
              ]
        ]

    unfoldable pub handle_batch :
        Database V → List (TickMessage V) → TickHandler → Outcome V × TickHandler
    unfolding persist_valid is_empty
    handle_batch db messages h =
        let (valid, quarantined) = partition_messages validate messages in
        let (persisted, h') = persist_valid db valid h in
        if is_empty valid && is_empty quarantined
        then (nothing_to_do, h)
        else if not (is_empty quarantined) && not db.takes_quarantine
        then (rolled_back, h)
        else elim persisted [
          | none ↦ (rolled_back, h')
          | some (inserted, snapshots, bars) ↦
              if db.commits
              then (
                committed
                    (record { quarantine_rows = quarantined; snapshots = snapshots; bars = bars }),
                record h' { ledger = record_reconciliation valid quarantined inserted h'.ledger },
              )
              else (rolled_back, h')
        ]
