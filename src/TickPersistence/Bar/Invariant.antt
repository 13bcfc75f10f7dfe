-- ===== src/TickPersistence/Bar/Invariant.antt =====
-- The OHLC invariant of a bar: what `_ensure_invariants` tests, and that no tick breaks it.
use invest_view.Common.{◌≡◌, ◌↔◌, Bool, arith, ◌≤ℤ◌, max_ℤ_bounds, min_ℤ_bounds}
use invest_view.TickPersistence.Bar.{
  BarState, TickInput, from_tick, ok, ensure_invariants, assign_tick, add_tick, from_existing,
}

pub record IsOhlc (b : BarState) : Type 0 where
  pub low_open : b.low ≤ℤ b.open_price
  pub open_high : b.open_price ≤ℤ b.high
  pub low_close : b.low ≤ℤ b.close
  pub close_high : b.close ≤ℤ b.high

pub ensure_of_IsOhlc : (b : BarState) → IsOhlc b → ensure_invariants b ≡ ok tt
unfolding ensure_invariants
ensure_of_IsOhlc b h = ground arith

pub IsOhlc-of_ensure : (b : BarState) → ensure_invariants b ≡ ok tt → IsOhlc b
unfolding ensure_invariants
IsOhlc-of_ensure b h = ground arith

pub from_tick-IsOhlc : (t : TickInput) (f : Bool) → IsOhlc (from_tick t f)
unfolding from_tick
from_tick-IsOhlc t f = ground arith

pub assign_tick-IsOhlc : (t : TickInput) (b : BarState) → IsOhlc b → IsOhlc (assign_tick t b)
unfolding assign_tick
assign_tick-IsOhlc t b h = ground (arith, max_ℤ_bounds b.high t.price, min_ℤ_bounds b.low t.price)

-- The stored bar passes the check of `from_existing` exactly when it is a proper bar.
pub from_existing-ok_iff : (b : BarState) → (from_existing b ≡ ok b) ↔ IsOhlc b
unfolding from_existing ensure_invariants
from_existing-ok_iff b = ground arith

-- On a proper bar `add_tick` does not raise, and it leaves a proper bar.
add_tick-IsOhlc :
    (t : TickInput) (b : BarState) → IsOhlc b → ((add_tick t b).0 ≡ ok tt) × IsOhlc (add_tick t b).1
unfolding add_tick
add_tick-IsOhlc t b h = (ensure_of_IsOhlc _ (assign_tick-IsOhlc t b h), assign_tick-IsOhlc t b h)

pub add_tick_lem :
    (t : TickInput) (b : BarState) → IsOhlc b → add_tick t b ≡ (ok tt, assign_tick t b)
unfolding add_tick
add_tick_lem t b h = ground (arith, add_tick-IsOhlc t b h)

pub assign_tick-final : (t : TickInput) (b : BarState) → (assign_tick t b).is_final ≡ b.is_final
unfolding assign_tick
assign_tick-final t b = ground arith
