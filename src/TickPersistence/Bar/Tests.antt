-- ===== src/TickPersistence/Bar/Tests.antt =====
-- Runs of `BarState`, and its theorems at concrete ticks.
use mathlib.Core.List.{Nodup, Nodup-cons, Nodup-nil, not-mem-nil, mem-cons}
use mathlib.Core.List.Perm
use mathlib.Core.HLevel.{⊥_prop}
use mathlib.Core.Logic.Or
use invest_view.Common.{ℕ, ◌≡◌, ◌≢◌, ap, refl, false, arith, none, [], ◌∷◌, pos}
use invest_view.TickPersistence.Bar.{TickKey, TickInput, from_tick, add_tick, key_lt, assign_tick}
use invest_view.TickPersistence.Bar.Order.{bar_of, absorb, keys_of, bar_of-perm}
use invest_view.TickPersistence.Bar.Cover.{Summary, bar_of-Summary}

abbrev tick_at : ℕ → ℕ → TickInput
tick_at time price = record {
  price = pos price;
  amount = pos 10;
  vwap = none;
  tick_key = record { event_ts = time; partition = pos 0; offset = pos time };
}

abbrev first_tick : TickInput
first_tick = tick_at 100 700

abbrev late_tick : TickInput
late_tick = tick_at 90 680

-- A late tick reopens the bar and leaves its close alone.
add_tick_late : (add_tick late_tick (from_tick first_tick false)).1.open_price ≡ pos 680
unfolding add_tick from_tick assign_tick key_lt
add_tick_late = refl

add_tick_late_close : (add_tick late_tick (from_tick first_tick false)).1.close ≡ pos 700
unfolding add_tick from_tick assign_tick key_lt
add_tick_late_close = refl

distinct_keys : Nodup (keys_of (first_tick ∷ late_tick ∷ []))
distinct_keys =
    Nodup-cons.1
      (λ m. Or.elim ⊥_prop (mem-cons.0 m) apart not-mem-nil, Nodup-cons.1 (not-mem-nil, Nodup-nil))
  where
    apart : first_tick.tick_key ≢ late_tick.tick_key
    apart e = absurd (omega (arith, ap (λ (k : TickKey). k.event_ts) e))

bar_of-perm_example : bar_of (first_tick ∷ late_tick ∷ []) ≡ bar_of (late_tick ∷ first_tick ∷ [])
bar_of-perm_example =
    bar_of-perm (first_tick ∷ late_tick ∷ []) (late_tick ∷ first_tick ∷ [])
      (Perm.swap late_tick first_tick []) distinct_keys

bar_of-Summary_example :
    Summary (assign_tick late_tick (from_tick first_tick false)) (first_tick ∷ late_tick ∷ [])
unfolding bar_of absorb
bar_of-Summary_example =
    bar_of-Summary (first_tick ∷ late_tick ∷ [])
      (assign_tick late_tick (from_tick first_tick false)) refl
