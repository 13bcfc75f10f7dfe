-- ===== src/TickPersistence/Bar/Commute.antt =====
-- Two ticks with distinct keys reach the same bar in either order.
use invest_view.Common.{
  ◌≡◌, ◌≢◌, Bool, arith, max_ℤ_swap, min_ℤ_swap, +ℤ_swap, max_ℤ_comm, min_ℤ_comm, +ℤ_comm, ◌∙◌, ap,
  sym,
}
use invest_view.TickPersistence.Bar.{
  BarState, TickInput, from_tick, assign_tick, set_open, set_close, set_totals,
}
use invest_view.TickPersistence.Bar.Keys.{key_lt_trans, key_lt_asymm, key_lt_total}

set_open_swap :
    (t u : TickInput) (b : BarState)
    → t.tick_key ≢ u.tick_key
    → set_open t (set_open u b) ≡ set_open u (set_open t b)
unfolding set_open
set_open_swap t u b ne = ground (
  arith,
  key_lt_asymm t.tick_key u.tick_key,
  key_lt_total t.tick_key u.tick_key,
  key_lt_trans t.tick_key u.tick_key b.open_key,
  key_lt_trans u.tick_key t.tick_key b.open_key,
)

set_close_swap :
    (t u : TickInput) (b : BarState)
    → t.tick_key ≢ u.tick_key
    → set_close t (set_close u b) ≡ set_close u (set_close t b)
unfolding set_close
set_close_swap t u b ne = ground (
  arith,
  key_lt_asymm t.tick_key u.tick_key,
  key_lt_total t.tick_key u.tick_key,
  key_lt_trans t.tick_key u.tick_key b.close_key,
  key_lt_trans u.tick_key t.tick_key b.close_key,
)

set_totals_swap :
    (t u : TickInput) (b : BarState) → set_totals t (set_totals u b) ≡ set_totals u (set_totals t b)
unfolding set_totals
set_totals_swap t u b = ground (
  arith,
  max_ℤ_swap b.high u.price t.price,
  min_ℤ_swap b.low u.price t.price,
  +ℤ_swap b.volume u.amount t.amount,
)

-- The three groups of assignments touch different fields.
assign_tick_groups :
    (t u : TickInput) (b : BarState)
    → assign_tick t (assign_tick u b)
      ≡ set_totals t (set_totals u (set_close t (set_close u (set_open t (set_open u b)))))
unfolding assign_tick
assign_tick_groups t u b = ground arith

pub assign_tick_swap :
    (t u : TickInput) (b : BarState)
    → t.tick_key ≢ u.tick_key
    → assign_tick t (assign_tick u b) ≡ assign_tick u (assign_tick t b)
assign_tick_swap t u b ne =
    assign_tick_groups t u b
    ∙ set_totals_swap t u _
    ∙ ap (λ c. set_totals u (set_totals t c))
        (ap (λ c. set_close t (set_close u c)) (set_open_swap t u b ne) ∙ set_close_swap t u _ ne)
    ∙ sym (assign_tick_groups u t b)

pub from_tick_swap :
    (t u : TickInput) (f : Bool)
    → t.tick_key ≢ u.tick_key
    → assign_tick t (from_tick u f) ≡ assign_tick u (from_tick t f)
unfolding assign_tick from_tick
from_tick_swap t u f ne = ground (
  arith,
  key_lt_asymm t.tick_key u.tick_key,
  key_lt_total t.tick_key u.tick_key,
  max_ℤ_comm t.price u.price,
  min_ℤ_comm t.price u.price,
  +ℤ_comm t.amount u.amount,
)
