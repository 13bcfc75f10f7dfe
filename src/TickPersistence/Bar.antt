-- ===== src/TickPersistence/Bar.antt =====
-- services/tick_persistence/src/tick_persistence/aggregation/ohlc.py: `BarState`.
-- A datetime is the number of seconds of its KST wall clock (the code brings every datetime to
-- KST and formats have no fraction); a Decimal is its coefficient and exponent, only carried.
pub mod Keys
pub mod Invariant
pub mod Commute
pub mod Order
pub mod Cover
mod Tests
use invest_view.Common.{
  ℕ, suc, ◌+◌, ◌≡◌, Bool, true, false, ◌&&◌, ◌||◌, Option, none, some, List, [], ◌∷◌, arith, ℤ,
  ltb_ℤ, leb_ℤ, eqb_ℤ, max_ℤ, min_ℤ, ◌+ℤ◌, ltb, ◌==◌, if◌then◌else◌, foldl,
}

abbrev pub Decimal : Type 0
Decimal = ℤ × ℤ

-- `TickKey = tuple[datetime, int, int]`
pub record TickKey : Type 0 where
  pub event_ts : ℕ
  pub partition : ℤ
  pub offset : ℤ

-- Python's `<` on tuples is lexicographic.
unfoldable pub key_lt : TickKey → TickKey → Bool
key_lt a b =
    ltb a.event_ts b.event_ts
    || ((a.event_ts == b.event_ts)
        && (ltb_ℤ a.partition b.partition
            || (eqb_ℤ a.partition b.partition && ltb_ℤ a.offset b.offset)))

-- `key >= other`
abbrev pub key_ge : TickKey → TickKey → Bool
key_ge a b = if key_lt a b then false else true

pub record BarState : Type 0 where
  pub open_price : ℤ
  pub high : ℤ
  pub low : ℤ
  pub close : ℤ
  pub volume : ℤ
  pub vwap_last : Option Decimal
  pub tick_count : ℕ
  pub open_key : TickKey
  pub close_key : TickKey
  pub is_final : Bool

-- The keyword arguments that `from_tick` and `add_tick` share.
pub record TickInput : Type 0 where
  pub price : ℤ
  pub amount : ℤ
  pub vwap : Option Decimal
  pub tick_key : TickKey

unfoldable pub from_tick : TickInput → Bool → BarState
from_tick t is_final = record {
  open_price = t.price;
  high = t.price;
  low = t.price;
  close = t.price;
  volume = t.amount;
  vwap_last = t.vwap;
  tick_count = 1;
  open_key = t.tick_key;
  close_key = t.tick_key;
  is_final = is_final;
}

pub data Error : Type 0 where
  invalid_ohlc : Error

pub data Result {ℓ} (A : Type ℓ) : Type ℓ where
  ok : A → Result A
  raise : Error → Result A

-- `low <= open <= high and low <= close <= high`
unfoldable pub ensure_invariants : BarState → Result (Unit {0})
ensure_invariants b =
    if leb_ℤ b.low b.open_price
      && leb_ℤ b.open_price b.high
      && leb_ℤ b.low b.close
      && leb_ℤ b.close b.high
    then ok tt
    else raise invalid_ohlc

-- The assignments of `add_tick`, before its check.
set_open : TickInput → BarState → BarState
set_open t b =
    if key_lt t.tick_key b.open_key
    then record b { open_price = t.price; open_key = t.tick_key }
    else b

set_close : TickInput → BarState → BarState
set_close t b =
    if key_ge t.tick_key b.close_key
    then record b { close = t.price; close_key = t.tick_key; vwap_last = t.vwap }
    else b

set_totals : TickInput → BarState → BarState
set_totals t b = record b {
  high = max_ℤ b.high t.price;
  low = min_ℤ b.low t.price;
  volume = b.volume +ℤ t.amount;
  tick_count = b.tick_count + 1;
}

unfoldable pub assign_tick : TickInput → BarState → BarState
unfolding set_open set_close set_totals
assign_tick t b = set_totals t (set_close t (set_open t b))

-- The bar is mutated whether or not the check at the end raises.
unfoldable pub add_tick : TickInput → BarState → Result (Unit {0}) × BarState
add_tick t b = (ensure_invariants (assign_tick t b), assign_tick t b)

-- `from_existing`: a stored bar is checked before it is used.
pub from_existing : BarState → Result BarState
from_existing b = elim (ensure_invariants b) [ ok _ ↦ ok b | raise e ↦ raise e ]
