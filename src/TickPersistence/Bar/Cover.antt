-- ===== src/TickPersistence/Bar/Cover.antt =====
-- What a bar says of its ticks: extremes, the opening and the closing tick, totals.
use invest_view.Common.{
  ◌+◌, ◌≡◌, Bool, false, arith, some, List, [], ◌∷◌, foldl, ℤ, pos, ◌+ℤ◌, ◌≤ℤ◌, max_ℤ, min_ℤ,
  max_ℤ_bounds, min_ℤ_bounds, +ℤ_assoc, +ℤ_zero, length, All, Any, ◌⊎◌, inr, subst,
}
use invest_view.TickPersistence.Bar.{BarState, TickInput, from_tick, assign_tick, key_lt}
use invest_view.TickPersistence.Bar.Keys.{key_lt_irrefl, key_lt_trans, key_lt_asymm, key_lt_total}
use invest_view.TickPersistence.Bar.Order.{absorb, bar_of}

-- The bar neither opens after the tick nor closes before it, and its range holds the price.
pub record Covers (b : BarState) (t : TickInput) : Type 0 where
  pub opens : key_lt t.tick_key b.open_key ≡ false
  pub closes : key_lt b.close_key t.tick_key ≡ false
  pub above : t.price ≤ℤ b.high
  pub below : b.low ≤ℤ t.price

from_tick-Covers : (t : TickInput) (f : Bool) → Covers (from_tick t f) t
unfolding from_tick
from_tick-Covers t f = ground (arith, key_lt_irrefl t.tick_key)

assign_tick-Covers_self : (t : TickInput) (b : BarState) → Covers (assign_tick t b) t
unfolding assign_tick
assign_tick-Covers_self t b = ground (
  arith,
  key_lt_irrefl t.tick_key,
  key_lt_asymm t.tick_key b.close_key,
  max_ℤ_bounds b.high t.price,
  min_ℤ_bounds b.low t.price,
)

assign_tick-Covers :
    (u : TickInput) (b : BarState) (t : TickInput) → Covers b t → Covers (assign_tick u b) t
unfolding assign_tick
assign_tick-Covers u b t h = ground (
  arith,
  key_lt_trans t.tick_key u.tick_key b.open_key,
  key_lt_trans b.close_key u.tick_key t.tick_key,
  key_lt_total b.close_key u.tick_key,
  key_lt_asymm u.tick_key b.close_key,
  max_ℤ_bounds b.high u.price,
  min_ℤ_bounds b.low u.price,
)

-- The bar opens, or closes, with this tick.
abbrev pub OpensWith : BarState → TickInput → Type 0
OpensWith b t = (b.open_key ≡ t.tick_key) × (b.open_price ≡ t.price)

abbrev pub ClosesWith : BarState → TickInput → Type 0
ClosesWith b t = (b.close_key ≡ t.tick_key) × (b.close ≡ t.price) × (b.vwap_last ≡ t.vwap)

pub sum_amounts : List TickInput → ℤ
sum_amounts [] = pos 0
sum_amounts (t ∷ ts) = t.amount +ℤ sum_amounts ts

-- What `bar` says of the ticks that it absorbed.
pub record Summary (b : BarState) (ts : List TickInput) : Type 0 where
  pub covers : All (Covers b) ts
  pub opened : Any (OpensWith b) ts
  pub closed : Any (ClosesWith b) ts
  pub peak : Any (λ t. b.high ≡ t.price) ts
  pub trough : Any (λ t. b.low ≡ t.price) ts
  pub volume : b.volume ≡ sum_amounts ts
  pub count : b.tick_count ≡ length ts

fold-Covers :
    (ts : List TickInput) (b₀ b : BarState) (t : TickInput)
    → foldl absorb (some b₀) ts ≡ some b
    → Covers b₀ t
    → Covers b t
unfolding absorb
fold-Covers [] b₀ b t e h = subst (λ c. Covers c t) (ground arith) h
fold-Covers (u ∷ ts) b₀ b t e h =
    fold-Covers ts (assign_tick u b₀) b t e (assign_tick-Covers u b₀ t h)

fold-All :
    (ts : List TickInput) (b₀ b : BarState) → foldl absorb (some b₀) ts ≡ some b → All (Covers b) ts
unfolding absorb
fold-All [] b₀ b e = tt
fold-All (u ∷ ts) b₀ b e = (
  fold-Covers ts (assign_tick u b₀) b u e (assign_tick-Covers_self u b₀),
  fold-All ts (assign_tick u b₀) b e,
)

assign_tick-open :
    (t : TickInput) (b : BarState)
    → OpensWith (assign_tick t b) t
      ⊎ (((assign_tick t b).open_key ≡ b.open_key) × ((assign_tick t b).open_price ≡ b.open_price))
unfolding assign_tick
assign_tick-open t b = ground arith

assign_tick-close :
    (t : TickInput) (b : BarState)
    → ClosesWith (assign_tick t b) t
      ⊎ (((assign_tick t b).close_key ≡ b.close_key)
          × ((assign_tick t b).close ≡ b.close)
          × ((assign_tick t b).vwap_last ≡ b.vwap_last))
unfolding assign_tick
assign_tick-close t b = ground arith

fold-open :
    (ts : List TickInput) (b₀ b : BarState)
    → foldl absorb (some b₀) ts ≡ some b
    → Any (OpensWith b) ts ⊎ ((b.open_key ≡ b₀.open_key) × (b.open_price ≡ b₀.open_price))
unfolding absorb
fold-open [] b₀ b e = inr (ground arith)
fold-open (t ∷ ts) b₀ b e = ground (arith, fold-open ts (assign_tick t b₀) b, assign_tick-open t b₀)

fold-close :
    (ts : List TickInput) (b₀ b : BarState)
    → foldl absorb (some b₀) ts ≡ some b
    → Any (ClosesWith b) ts
      ⊎ ((b.close_key ≡ b₀.close_key) × (b.close ≡ b₀.close) × (b.vwap_last ≡ b₀.vwap_last))
unfolding absorb
fold-close [] b₀ b e = inr (ground arith)
fold-close (t ∷ ts) b₀ b e =
    ground (arith, fold-close ts (assign_tick t b₀) b, assign_tick-close t b₀)

assign_tick-range :
    (t : TickInput) (b : BarState)
    → (((assign_tick t b).high ≡ t.price) ⊎ ((assign_tick t b).high ≡ b.high))
      × (((assign_tick t b).low ≡ t.price) ⊎ ((assign_tick t b).low ≡ b.low))
unfolding assign_tick max_ℤ min_ℤ
assign_tick-range t b = ground arith

fold-high :
    (ts : List TickInput) (b₀ b : BarState)
    → foldl absorb (some b₀) ts ≡ some b
    → Any (λ t. b.high ≡ t.price) ts ⊎ (b.high ≡ b₀.high)
unfolding absorb
fold-high [] b₀ b e = inr (ground arith)
fold-high (t ∷ ts) b₀ b e =
    ground (arith, fold-high ts (assign_tick t b₀) b, assign_tick-range t b₀)

fold-low :
    (ts : List TickInput) (b₀ b : BarState)
    → foldl absorb (some b₀) ts ≡ some b
    → Any (λ t. b.low ≡ t.price) ts ⊎ (b.low ≡ b₀.low)
unfolding absorb
fold-low [] b₀ b e = inr (ground arith)
fold-low (t ∷ ts) b₀ b e = ground (arith, fold-low ts (assign_tick t b₀) b, assign_tick-range t b₀)

fold-totals :
    (ts : List TickInput) (b₀ b : BarState)
    → foldl absorb (some b₀) ts ≡ some b
    → (b.volume ≡ b₀.volume +ℤ sum_amounts ts) × (b.tick_count ≡ b₀.tick_count + length ts)
unfolding absorb assign_tick sum_amounts
fold-totals [] b₀ b e = ground (arith, +ℤ_zero b₀.volume)
fold-totals (t ∷ ts) b₀ b e =
    ground
      (arith, +ℤ_assoc b₀.volume t.amount (sum_amounts ts), fold-totals ts (assign_tick t b₀) b)

-- The bar built from a list of ticks: it covers every one of them, it opens and it closes with one
-- of them, its high and low are prices of theirs, its volume is their sum and its count their number.
pub bar_of-Summary : (ts : List TickInput) (b : BarState) → bar_of ts ≡ some b → Summary b ts
unfolding bar_of absorb sum_amounts from_tick
bar_of-Summary [] b e = cc
bar_of-Summary (t ∷ ts) b e = record {
  covers = (
    fold-Covers ts (from_tick t false) b t e (from_tick-Covers t false),
    fold-All ts (from_tick t false) b e,
  );
  opened = ground (arith, fold-open ts (from_tick t false) b);
  closed = ground (arith, fold-close ts (from_tick t false) b);
  peak = ground (arith, fold-high ts (from_tick t false) b);
  trough = ground (arith, fold-low ts (from_tick t false) b);
  volume = (fold-totals ts (from_tick t false) b e).0;
  count = omega (arith, (fold-totals ts (from_tick t false) b e).1);
}
