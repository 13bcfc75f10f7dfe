-- ===== src/TickPersistence/Ledger.antt =====
-- services/tick_persistence/src/tick_persistence/observability/reconciliation.py, and the two
-- callers that fill the ledger: `_record_reconciliation` of handler.py and of kafka/consumer.py.
-- The Prometheus counters that the ledger mirrors are left out. A `defaultdict` entry that is not
-- there reads as 0.
pub mod Balance
pub mod Counting
use invest_view.Common.{
  ℕ, suc, ◌+◌, ◌≡◌, Bool, true, false, ◌&&◌, Option, none, some, List, [], ◌∷◌, ◌++◌, arith, ℤ, pos,
  leb_ℤ, ltb_ℤ, ◌+ℤ◌, ◌-ℤ◌, if◌then◌else◌, Dict, lookup, insert, int_eq, map,
}

pub data Category : Type 0 where
  inserted conflict quarantine skip : Category

-- The inner dictionary, over the keys of `_ACCOUNTED`.
pub record Counts : Type 0 where
  pub inserted_count : ℤ
  pub conflict_count : ℤ
  pub quarantine_count : ℤ
  pub skip_count : ℤ

pub record ReconciliationLedger : Type 0 where
  pub consumed : Dict ℤ ℤ
  pub accounted : Dict ℤ Counts

abbrev no_counts : Counts
no_counts = record {
  inserted_count = pos 0;
  conflict_count = pos 0;
  quarantine_count = pos 0;
  skip_count = pos 0;
}

abbrev pub get_or {ℓ} : {A : Type ℓ} → A → Option A → A
get_or d none = d
get_or d (some a) = a

pub consumed_at : ReconciliationLedger → ℤ → ℤ
consumed_at l p = get_or (pos 0) (lookup p l.consumed)

counts_at : ReconciliationLedger → ℤ → Counts
counts_at l p = get_or no_counts (lookup p l.accounted)

abbrev add_count : Category → ℤ → Counts → Counts
add_count inserted n c = record c { inserted_count = c.inserted_count +ℤ n }
add_count conflict n c = record c { conflict_count = c.conflict_count +ℤ n }
add_count quarantine n c = record c { quarantine_count = c.quarantine_count +ℤ n }
add_count skip n c = record c { skip_count = c.skip_count +ℤ n }

pub record_consumed : ℤ → ℤ → ReconciliationLedger → ReconciliationLedger
unfolding consumed_at
record_consumed p n l =
    if leb_ℤ n (pos 0)
    then l
    else record l { consumed = insert p (consumed_at l p +ℤ n) l.consumed }

pub record_category : Category → ℤ → ℤ → ReconciliationLedger → ReconciliationLedger
unfolding counts_at
record_category c p n l =
    if leb_ℤ n (pos 0)
    then l
    else record l { accounted = insert p (add_count c n (counts_at l p)) l.accounted }

-- `sum(self._accounted[partition].values())`
pub accounted_at : ReconciliationLedger → ℤ → ℤ
unfolding counts_at
accounted_at l p =
    let c = counts_at l p in
    c.inserted_count +ℤ c.conflict_count +ℤ c.quarantine_count +ℤ c.skip_count

unfoldable pub imbalance : ReconciliationLedger → ℤ → ℤ
unfolding consumed_at accounted_at
imbalance l p = consumed_at l p -ℤ accounted_at l p

-- `_counts_by_partition`
unfoldable pub count_into : Dict ℤ ℤ → List ℤ → Dict ℤ ℤ
count_into counts [] = counts
count_into counts (p ∷ ps) =
    count_into (insert p (get_or (pos 0) (lookup p counts) +ℤ pos 1) counts) ps

abbrev pub counts_by_partition : List ℤ → Dict ℤ ℤ
counts_by_partition ps = count_into [] ps

-- One loop of `TickHandler._record_reconciliation`.
unfoldable pub record_all : Category → Dict ℤ ℤ → ReconciliationLedger → ReconciliationLedger
record_all c [] l = l
record_all c ((p, n) ∷ counts) l = record_all c counts (record_category c p n l)

-- The loop over the valid messages: what was not inserted was a duplicate.
unfoldable pub record_conflicts : Dict ℤ ℤ → Dict ℤ ℤ → ReconciliationLedger → ReconciliationLedger
record_conflicts inserted_by [] l = l
record_conflicts inserted_by ((p, n) ∷ valid_by) l =
    let conflict_n = n -ℤ get_or (pos 0) (lookup p inserted_by) in
    record_conflicts inserted_by valid_by
      (if ltb_ℤ (pos 0) conflict_n then record_category conflict p conflict_n l else l)

-- The partitions of the valid messages, of the quarantined and of the inserted ticks.
unfoldable pub record_handled :
    List ℤ → List ℤ → List ℤ → ReconciliationLedger → ReconciliationLedger
record_handled valid quarantined inserted_ticks l =
    let valid_by = counts_by_partition valid in
    let inserted_by = counts_by_partition inserted_ticks in
    let quarantine_by = counts_by_partition quarantined in
    record_conflicts inserted_by valid_by
      (record_all quarantine quarantine_by (record_all inserted inserted_by l))

-- `TickConsumer._record_reconciliation` over the partition of each message, if it has one, and
-- whether it gave a tick.
unfoldable pub record_batch : List (Option ℤ × Bool) → ReconciliationLedger → ReconciliationLedger
record_batch [] l = l
record_batch ((none, has_tick) ∷ batch) l = record_batch batch l
record_batch ((some p, has_tick) ∷ batch) l =
    let consumed_one = record_consumed p (pos 1) l in
    record_batch batch
      (if has_tick then consumed_one else record_category skip p (pos 1) consumed_one)
