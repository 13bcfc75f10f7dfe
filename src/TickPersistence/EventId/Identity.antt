-- ===== src/TickPersistence/EventId/Identity.antt =====
-- Ticks share an id when their normalised fields agree.
use invest_view.Common.{
  ◌≡◌, ◌↔◌, refl, Option, none, some, List, [], ◌∷◌, All, ap, sym, ◌∙◌, arith, length, some-inj,
  bind-some, subst, ◌≤◌,
}
use invest_view.KisIngestion.Parser.{Text, split}
use invest_view.KisIngestion.Parser.RoundTrip.{Free, join, split-join}
use invest_view.TickPersistence.EventId.{
  TickMapping, Texts, clean_str, int_string, market_value, normalized, compute_event_id,
}

join-inj :
    (p p' : List Text)
    → 1 ≤ length p
    → 1 ≤ length p'
    → All (Free b'|') p
    → All (Free b'|') p'
    → join b'|' p ≡ join b'|' p'
    → p ≡ p'
join-inj [] p' l l' free free' h = absurd (omega arith)
join-inj (m ∷ rest) [] l l' free free' h = absurd (omega arith)
join-inj (m ∷ rest) (m' ∷ rest') l l' free free' h =
    sym (split-join b'|' m rest free) ∙ ap (split b'|') h ∙ split-join b'|' m' rest' free'

module _ (texts : Texts) where
  -- The seven normalised fields of a tick.
  abbrev Parts : TickMapping → List Text → Type 0
  Parts tick parts =
      (market : Text) × (symbol : Text) × (business_date : Text) × (volume : Text)
      × (trade_time : Text) × (price : Text) × (trade_type : Text) × (clean_str texts
            (market_value texts tick)
          ≡ some market)
      × (clean_str texts tick.symbol ≡ some symbol)
      × (clean_str texts tick.business_date ≡ some business_date)
      × (int_string texts tick.cumulative_volume ≡ some volume)
      × (clean_str texts tick.trade_time ≡ some trade_time)
      × (int_string texts tick.price ≡ some price)
      × (clean_str texts tick.trade_type ≡ some trade_type)
      × (parts
          ≡ texts.upper market
            ∷ symbol
            ∷ business_date
            ∷ volume
            ∷ trade_time
            ∷ price
            ∷ trade_type
            ∷ [])

  normalized-Parts :
      (tick : TickMapping) (parts : List Text)
      → normalized texts tick ≡ some parts
      → Parts tick parts
  unfolding normalized
  normalized-Parts tick parts h =
      let (market, e1, h1) = bind-some (clean_str texts (market_value texts tick)) _ parts h in
      let (symbol, e2, h2) = bind-some (clean_str texts tick.symbol) _ parts h1 in
      let (business_date, e3, h3) = bind-some (clean_str texts tick.business_date) _ parts h2 in
      let (volume, e4, h4) = bind-some (int_string texts tick.cumulative_volume) _ parts h3 in
      let (trade_time, e5, h5) = bind-some (clean_str texts tick.trade_time) _ parts h4 in
      let (price, e6, h6) = bind-some (int_string texts tick.price) _ parts h5 in
      let (trade_type, e7, h7) = bind-some (clean_str texts tick.trade_type) _ parts h6 in
      (
        market,
        symbol,
        business_date,
        volume,
        trade_time,
        price,
        trade_type,
        e1,
        e2,
        e3,
        e4,
        e5,
        e6,
        e7,
        sym (some-inj h7),
      )

  Parts-nonempty : (tick : TickMapping) (parts : List Text) → Parts tick parts → 1 ≤ length parts
  Parts-nonempty tick parts (m, s, d, v, t, p, y, e1, e2, e3, e4, e5, e6, e7, e) =
      subst (λ p. 1 ≤ length p) (sym e) (omega arith)

  -- The market, or else the transaction id, in upper case.
  unfoldable pub market_name : TickMapping → Option Text
  market_name tick = elim (clean_str texts (market_value texts tick)) [
    | none ↦ none
    | some market ↦ some (texts.upper market)
  ]

  -- The two ticks agree in each of the seven fields.
  abbrev pub Agree : TickMapping → TickMapping → Type 0
  Agree tick tick' =
      (market_name tick ≡ market_name tick')
      × (clean_str texts tick.symbol ≡ clean_str texts tick'.symbol)
      × (clean_str texts tick.business_date ≡ clean_str texts tick'.business_date)
      × (int_string texts tick.cumulative_volume ≡ int_string texts tick'.cumulative_volume)
      × (clean_str texts tick.trade_time ≡ clean_str texts tick'.trade_time)
      × (int_string texts tick.price ≡ int_string texts tick'.price)
      × (clean_str texts tick.trade_type ≡ clean_str texts tick'.trade_type)

  Parts-Agree :
      (tick tick' : TickMapping) (parts parts' : List Text)
      → Parts tick parts
      → Parts tick' parts'
      → (parts ≡ parts') ↔ Agree tick tick'
  unfolding market_name
  Parts-Agree tick tick' parts parts' (m, s, d, v, t, p, y, e1, e2, e3, e4, e5, e6, e7, e)
        (m', s', d', v', t', p', y', f1, f2, f3, f4, f5, f6, f7, f) =
      (
        λ same. ground (arith, same, e, f, e1, e2, e3, e4, e5, e6, e7, f1, f2, f3, f4, f5, f6, f7),
        λ agree.
            ground (arith, agree, e, f, e1, e2, e3, e4, e5, e6, e7, f1, f2, f3, f4, f5, f6, f7),
      )

  compute_event_id_lem :
      {U : Type 0} (uuid5 : Text → U) (tick : TickMapping) (parts : List Text)
      → normalized texts tick ≡ some parts
      → compute_event_id texts uuid5 tick ≡ some (uuid5 (join b'|' parts))
  unfolding compute_event_id
  compute_event_id_lem uuid5 tick parts h = rw h refl

  -- Two ticks whose identity fields are there, with no bar in any of the seven, get the same id
  -- exactly when they agree in the market, or the transaction id of one without, in upper case,
  -- and in the cleaned symbol, date, cumulative volume, time, price and kind of trade, if the hash
  -- keeps the two names apart.
  pub compute_event_id_iff :
      {U : Type 0} (uuid5 : Text → U) (tick tick' : TickMapping) (parts parts' : List Text)
      → normalized texts tick ≡ some parts
      → normalized texts tick' ≡ some parts'
      → All (Free b'|') parts
      → All (Free b'|') parts'
      → (uuid5 (join b'|' parts) ≡ uuid5 (join b'|' parts') → join b'|' parts ≡ join b'|' parts')
      → (compute_event_id texts uuid5 tick ≡ compute_event_id texts uuid5 tick') ↔ Agree tick tick'
  compute_event_id_iff uuid5 tick tick' parts parts' h h' free free' apart =
      let fields = normalized-Parts tick parts h in
      let fields' = normalized-Parts tick' parts' h' in
      let e = compute_event_id_lem uuid5 tick parts h in
      let e' = compute_event_id_lem uuid5 tick' parts' h' in
      let (to_agree, to_same) = Parts-Agree tick tick' parts parts' fields fields' in
      (
        λ same. to_agree (
            join-inj parts parts' (Parts-nonempty tick parts fields)
              (Parts-nonempty tick' parts' fields') free free'
              (apart (some-inj (sym e ∙ same ∙ e')))),
        λ agree. e ∙ ap (λ p. some (uuid5 (join b'|' p))) (to_same agree) ∙ sym e',
      )
