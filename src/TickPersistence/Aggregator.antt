-- ===== src/TickPersistence/Aggregator.antt =====
-- services/tick_persistence/src/tick_persistence/aggregation/ohlc.py: `FiveMinuteAggregator`.
-- Bars are mutable objects that `_bars` and `_newly_finalized` share, so they live on a heap and
-- both fields hold references. A tick arrives with its fields converted: `_validate_message`
-- (handler.py) has let through only ticks whose time, price and volume convert.
pub mod Bucket
pub mod Finalize
pub mod Shape
pub mod Marking
pub mod Recording
pub mod Add
pub mod Hydrate
mod Tests
use Prim.Native.String.{String}
use invest_view.Common.{
  ℕ, suc, ◌+◌, ◌-◌, ◌*◌, ◌/◌, ◌%◌, ◌≡◌, ◌↔◌, Bool, true, false, not, ◌&&◌, ◌||◌, Option, none, some,
  List, [], ◌∷◌, ◌++◌, arith, ℤ, ltb, leb, ◌==◌, if◌then◌else◌, Eq, Dict, lookup, insert, erase,
  max, drop, length, str_beq, str_beq_iff, string_eq,
}
use invest_view.TickPersistence.Bar.{
  Decimal, TickKey, BarState, TickInput, Result, ok, raise, from_tick, add_tick as add_to_bar,
}

-- The key of `_bars`: a symbol and the start of a bucket.
abbrev pub BarKey : Type 0
BarKey = String × ℕ

pub key_beq : BarKey → BarKey → Bool
key_beq k j = str_beq k.0 j.0 && (k.1 == j.1)

pub key_beq_iff : (k j : BarKey) → (key_beq k j ≡ true) ↔ (k ≡ j)
unfolding key_beq
key_beq_iff k j = ground (arith, str_beq_iff k.0 j.0)

instance abbrev pub key_eq : Eq BarKey
key_eq = record { beq = key_beq; beq_iff = key_beq_iff }

-- `BUCKET_SIZE = timedelta(minutes=5)`, in seconds.
abbrev pub bucket_size : ℕ
bucket_size = 300

pub record Aggregator : Type 0 where
  pub bars : Dict BarKey ℕ
  pub latest : Dict String ℕ
  pub newly_finalized : List (BarKey × ℕ)
  pub heap : ℕ → BarState
  pub next : ℕ

pub record Tick : Type 0 where
  pub symbol : String
  pub trade_at : ℕ
  pub price : ℤ
  pub amount : ℤ
  pub vwap : Option Decimal

-- The minute is floored to a multiple of five, and the seconds are dropped.
pub bucket_start : ℕ → ℕ
bucket_start trade_at =
    let minute = trade_at / 60 % 60 in
    let floored_minute = minute - minute % 5 in trade_at - trade_at % 3600 + floored_minute * 60

abbrev pub tick_key_of : Tick → BarKey
tick_key_of t = (t.symbol, bucket_start t.trade_at)

write : Aggregator → ℕ → BarState → Aggregator
write a i b = record a { heap = λ j. if j == i then b else a.heap j }

pub allocate : Aggregator → BarState → Aggregator
allocate a b = record a { heap = λ j. if j == a.next then b else a.heap j; next = suc a.next }

pub is_older_than_latest : Aggregator → String → ℕ → Bool
is_older_than_latest a symbol bucket = elim (lookup symbol a.latest) [
  | none ↦ false
  | some latest ↦ ltb bucket latest
]

-- `max(bucket, latest.get(symbol, bucket))`
pub raise_latest : Aggregator → String → ℕ → Aggregator
raise_latest a symbol bucket = record a {
  latest =
      insert symbol
        (elim (lookup symbol a.latest) [ none ↦ bucket | some latest ↦ max bucket latest ])
        a.latest;
}

-- `self._bars.get(key) is bar`
holds : Aggregator → BarKey → ℕ → Bool
holds a k i = elim (lookup k a.bars) [ none ↦ false | some j ↦ j == i ]

pub finalize : BarKey → ℕ → Aggregator → Aggregator
unfolding write holds
finalize k i a =
    let b = write a i (record (a.heap i) { is_final = true }) in
    record b {
      newly_finalized = b.newly_finalized ++ (k, i) ∷ [];
      bars = if holds b k i then erase k b.bars else b.bars;
    }

pub is_prior : String → ℕ → BarKey → Bool
is_prior symbol bucket k = str_beq k.0 symbol && ltb k.1 bucket

-- The loop of `_mark_prior_buckets_final` over the copy of the items.
pub close_prior : String → ℕ → List (BarKey × ℕ) → Aggregator → Aggregator
unfolding is_prior
close_prior symbol bucket [] a = a
close_prior symbol bucket ((k, i) ∷ items) a =
    close_prior symbol bucket items
      (if is_prior symbol bucket k && not (a.heap i).is_final then finalize k i a else a)

pub mark_prior_buckets_final : String → ℕ → Aggregator → Aggregator
mark_prior_buckets_final symbol bucket a = close_prior symbol bucket a.bars a

abbrev pub input_of : Tick → TickKey → TickInput
input_of t key = record { price = t.price; amount = t.amount; vwap = t.vwap; tick_key = key }

-- The bar under the tick's key, made by the first tick and mutated by the others.
pub record_tick : Tick → TickKey → Bool → Aggregator → Result ℕ × Aggregator
unfolding write allocate
record_tick t key older a = elim (lookup (tick_key_of t) a.bars) [
  | none ↦
      let b = allocate a (from_tick (input_of t key) older) in
      (ok a.next, record b { bars = insert (tick_key_of t) a.next a.bars })
  | some i ↦
      let (r, bar) = add_to_bar (input_of t key) (a.heap i) in
      (elim r [ ok _ ↦ ok i | raise e ↦ raise e ], write a i bar)
]

-- What follows the update of the bar.
pub settle : Tick → Bool → ℕ → Aggregator → Aggregator
unfolding raise_latest
settle t older i a =
    let b = raise_latest a t.symbol (bucket_start t.trade_at) in
    if older || (b.heap i).is_final then finalize (tick_key_of t) i b else b

pub add_tick : Tick → TickKey → Aggregator → Result ℕ × Aggregator
unfolding is_older_than_latest mark_prior_buckets_final record_tick settle
add_tick t key a =
    let bucket = bucket_start t.trade_at in
    let older = is_older_than_latest a t.symbol bucket in
    let (r, b) = record_tick t key older (mark_prior_buckets_final t.symbol bucket a) in
    elim r [ ok i ↦ (ok i, settle t older i b) | raise e ↦ (raise e, b) ]

pub hydrate : BarKey → ℕ → Aggregator → Aggregator
unfolding is_older_than_latest write raise_latest
hydrate k i a =
    let b =
      if is_older_than_latest a k.0 k.1
      then write a i (record (a.heap i) { is_final = true })
      else a in
    let c = record b { bars = insert k i b.bars } in
    if not (c.heap i).is_final then raise_latest c k.0 k.1 else c

pub has_bar : BarKey → Aggregator → Bool
has_bar k a = elim (lookup k a.bars) [ none ↦ false | some _ ↦ true ]

-- `current_bar`, as a reference.
pub current_bar : String → Aggregator → Option ℕ
current_bar symbol a = elim (lookup symbol a.latest) [
  | none ↦ none
  | some bucket ↦ lookup (symbol, bucket) a.bars
]

pub pop_finalized_bars : Aggregator → List (BarKey × ℕ) × Aggregator
pop_finalized_bars a = (a.newly_finalized, record a { newly_finalized = [] })

pub clear : Aggregator → Aggregator
clear a = record a { bars = []; latest = []; newly_finalized = [] }

-- The loop of `finalized_bars` over the copy of the items.
pub close_due : ℕ → List (BarKey × ℕ) → Aggregator → Aggregator
close_due now [] a = a
close_due now ((k, i) ∷ items) a =
    close_due now items
      (if not (a.heap i).is_final && leb (k.1 + bucket_size) now then finalize k i a else a)

-- The bars that are over at `now` are finalized; the result is the part of the list that this adds.
pub finalized_bars : ℕ → Aggregator → List (BarKey × ℕ) × Aggregator
unfolding close_due
finalized_bars now a =
    let b = close_due now a.bars a in (drop (length a.newly_finalized) b.newly_finalized, b)

pub init : BarState → Aggregator
init blank = record { bars = []; latest = []; newly_finalized = []; heap = λ _. blank; next = 0 }
