-- ===== src/TickPersistence/Handler/Load.antt =====
-- services/tick_persistence/src/tick_persistence/repository/metrics.py: `load_bar_state`, over the
-- rows that the select gives.
use mathlib.Core.List.{Perm, Nodup}
use invest_view.Common.{
  ℕ, false, Option, none, some, List, [], ◌∷◌, ℤ, ◌>>=◌, ◌≡◌, refl, sym, ap, subst, arith,
  Option-cases, inl, inr, some-inj, foldl, ◌∙◌,
}
use invest_view.TickPersistence.Bar.{
  Decimal, BarState, TickInput, Result, ok, raise, from_tick, add_tick as add_to_bar,
}
use invest_view.TickPersistence.Bar.Order.{absorb, bar_of, keys_of, bar_of-perm}
use invest_view.TickPersistence.Bar.Invariant.{
  IsOhlc, from_tick-IsOhlc, assign_tick-IsOhlc, add_tick_lem,
}

-- The columns that `load_bar_state` selects.
pub record BronzeRow : Type 0 where
  pub event_ts : Option ℕ
  pub partition : Option ℤ
  pub offset : Option ℤ
  pub price : Option ℤ
  pub trade_volume : Option ℤ
  pub vwap : Option Decimal

-- A row without one of the columns but the vwap is skipped.
unfoldable pub input_of_row : BronzeRow → Option TickInput
input_of_row row = do
  event_ts ← row.event_ts
  partition ← row.partition
  offset ← row.offset
  price ← row.price
  amount ← row.trade_volume
  some (record {
    price = price;
    amount = amount;
    vwap = row.vwap;
    tick_key = record { event_ts = event_ts; partition = partition; offset = offset };
  })

-- The loop of `load_bar_state`.
unfoldable pub load_rows : Option BarState → List BronzeRow → Result (Option BarState)
load_rows bar [] = ok bar
load_rows bar (row ∷ rows) = elim (input_of_row row) [
  | none ↦ load_rows bar rows
  | some t ↦ elim bar [
    | none ↦ load_rows (some (from_tick t false)) rows
    | some b ↦
        let (r, b') = add_to_bar t b in
        elim r [ ok _ ↦ load_rows (some b') rows | raise e ↦ raise e ]
  ]
]

unfoldable pub load_bar_state : List BronzeRow → Result (Option BarState)
unfolding load_rows
load_bar_state rows = load_rows none rows

unfoldable pub inputs_of : List BronzeRow → List TickInput
inputs_of [] = []
inputs_of (row ∷ rows) = elim (input_of_row row) [
  | none ↦ inputs_of rows
  | some t ↦ t ∷ inputs_of rows
]

abbrev Proper : Option BarState → Type 0
Proper bar = (b : BarState) → bar ≡ some b → IsOhlc b

absorb-Proper : (bar : Option BarState) (t : TickInput) → Proper bar → Proper (absorb bar t)
unfolding absorb
absorb-Proper none t h b e = subst IsOhlc (some-inj e) (from_tick-IsOhlc t false)
absorb-Proper (some b') t h b e = subst IsOhlc (some-inj e) (assign_tick-IsOhlc t b' (h b' refl))

-- A row that is skipped, and one that is taken.
load_rows_skip :
    (bar : Option BarState) (row : BronzeRow) (rows : List BronzeRow)
    → input_of_row row ≡ none
    → (load_rows bar (row ∷ rows) ≡ load_rows bar rows) × (inputs_of (row ∷ rows) ≡ inputs_of rows)
unfolding load_rows inputs_of
load_rows_skip bar row rows e = ground (arith, e)

load_rows_take :
    (bar : Option BarState) (row : BronzeRow) (rows : List BronzeRow) (t : TickInput)
    → Proper bar
    → input_of_row row ≡ some t
    → (load_rows bar (row ∷ rows) ≡ load_rows (absorb bar t) rows)
      × (inputs_of (row ∷ rows) ≡ t ∷ inputs_of rows)
unfolding load_rows inputs_of absorb
load_rows_take none row rows t h e = ground (arith, e)
load_rows_take (some b) row rows t h e = ground (arith, e, add_tick_lem t b (h b refl))

load_rows_lem :
    (bar : Option BarState) (rows : List BronzeRow)
    → Proper bar
    → (load_rows bar rows ≡ ok (foldl absorb bar (inputs_of rows)))
      × Proper (foldl absorb bar (inputs_of rows))
load_rows_lem bar [] h = unfold load_rows inputs_of in (refl, h)
load_rows_lem bar (row ∷ rows) h = elim (Option-cases (input_of_row row)) [
  | inl e ↦
      let (skipped, same) = load_rows_skip bar row rows e in
      let (loaded, proper) = load_rows_lem bar rows h in (skipped ∙ rw same loaded, rw same proper)
  | inr (t, e) ↦
      let (taken, more) = load_rows_take bar row rows t h e in
      let (loaded, proper) = load_rows_lem (absorb bar t) rows (absorb-Proper bar t h) in
      (taken ∙ rw more loaded, rw more proper)
]

-- A restart rebuilds from the bronze rows the bar that their complete rows make one by one, a
-- proper one, and the checks on the way never raise.
pub load_bar_state_lem :
    (rows : List BronzeRow)
    → (load_bar_state rows ≡ ok (bar_of (inputs_of rows))) × Proper (bar_of (inputs_of rows))
unfolding load_bar_state bar_of
load_bar_state_lem rows = load_rows_lem none rows (λ b e. absurd cc)

-- The select has no order: whichever way it orders the bronze rows, whose complete ones have
-- distinct keys, the rebuilt bar is the same proper bar, and the checks on the way never raise.
pub load_bar_state-perm :
    (rows rows' : List BronzeRow)
    → Perm (inputs_of rows) (inputs_of rows')
    → Nodup (keys_of (inputs_of rows))
    → (load_bar_state rows ≡ load_bar_state rows')
      × (bar : Option BarState) × (load_bar_state rows ≡ ok bar)
      × ((b : BarState) → bar ≡ some b → IsOhlc b)
load_bar_state-perm rows rows' p distinct =
    let (e, proper) = load_bar_state_lem rows in
    let (e', _) = load_bar_state_lem rows' in
    (
      e ∙ ap ok (bar_of-perm (inputs_of rows) (inputs_of rows') p distinct) ∙ sym e',
      bar_of (inputs_of rows),
      e,
      proper,
    )
