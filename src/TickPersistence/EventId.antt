-- ===== src/TickPersistence/EventId.antt =====
-- services/tick_persistence/src/tick_persistence/event_id.py: the identity of a tick; the file of
-- the same name in kis_ingestion differs in that it takes empty texts. A tick is its mapping. A text
-- is the list of its code points; the methods of `str` and `uuid5` are arguments.
pub mod Identity
mod Tests
use invest_view.Common.{ℕ, Bool, Option, none, some, List, [], ◌∷◌, ℤ, ◌>>=◌}
use invest_view.KisIngestion.Parser.{Text}
use invest_view.KisIngestion.Parser.RoundTrip.{join}

pub data Value : Type 0 where
  boolean : Bool → Value
  integer : ℤ → Value
  str : Text → Value
  other : Value

-- A tick, by the fields that the identity is made of; none where `get` gives None.
pub record TickMapping : Type 0 where
  pub market : Option Value
  pub source_tr_id : Option Value
  pub symbol : Option Value
  pub business_date : Option Value
  pub cumulative_volume : Option Value
  pub trade_time : Option Value
  pub price : Option Value
  pub trade_type : Option Value

-- What Python's `str(value).strip()`, `str(n)`, `int(text.strip())` and `upper` make.
pub record Texts : Type 0 where
  pub stripped : Value → Text
  pub text_of_int : ℤ → Text
  pub int_of : Text → Option ℤ
  pub upper : Text → Text

module _ (texts : Texts) where
  -- `_clean_str` of a required field; none is the ValueError.
  unfoldable pub clean_str : Option Value → Option Text
  clean_str none = none
  clean_str (some value) = elim (texts.stripped value) [ [] ↦ none | c ∷ rest ↦ some (c ∷ rest) ]

  -- `_int_string` of a required field.
  unfoldable pub int_string : Option Value → Option Text
  int_string none = none
  int_string (some (boolean b)) = none
  int_string (some (integer n)) = some (texts.text_of_int n)
  int_string (some (str t)) = elim (texts.int_of t) [
    | none ↦ none
    | some n ↦ some (texts.text_of_int n)
  ]
  int_string (some other) = none

  -- The market, or else the transaction id.
  unfoldable pub market_value : TickMapping → Option Value
  market_value tick = elim tick.market [ none ↦ tick.source_tr_id | some value ↦ some value ]

  -- `normalized`, in the order of `TICK_EVENT_ID_FIELDS`.
  unfoldable pub normalized : TickMapping → Option (List Text)
  unfolding clean_str int_string market_value
  normalized tick = do
    market ← clean_str (market_value tick)
    symbol ← clean_str tick.symbol
    business_date ← clean_str tick.business_date
    cumulative_volume ← int_string tick.cumulative_volume
    trade_time ← clean_str tick.trade_time
    price ← int_string tick.price
    trade_type ← clean_str tick.trade_type
    some (
        texts.upper market
        ∷ symbol
        ∷ business_date
        ∷ cumulative_volume
        ∷ trade_time
        ∷ price
        ∷ trade_type
        ∷ [])

  -- `"|".join(…)` under `uuid5`.
  unfoldable pub compute_event_id : {U : Type 0} → (Text → U) → TickMapping → Option U
  unfolding normalized
  compute_event_id uuid5 tick = do parts ← normalized tick; some (uuid5 (join b'|' parts))
