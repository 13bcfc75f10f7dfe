-- ===== src/TickPersistence/Handler/Validate.antt =====
-- services/tick_persistence/src/tick_persistence/handler.py: `_validate_message`. What `strptime` and
-- `int` make of the fields is given as arguments.
use Prim.Native.String.{String}
use invest_view.Common.{
  ◌≡◌, Bool, true, false, Option, none, some, List, [], ◌∷◌, not, ◌&&◌, if◌then◌else◌, arith,
}
use invest_view.TickPersistence.EventId.{Value, TickMapping, Texts, compute_event_id}

-- A tick's mapping: the fields of the identity and the volume.
pub record TickFields : Type 0 where
  pub identity : TickMapping
  pub trade_volume : Option Value

-- Why a tick is refused.
pub data Refusal : Type 0 where
  missing_field : String → Refusal
  missing_market : Refusal
  bad_timestamp : Refusal
  bad_number : String → Refusal
  bad_identity : Refusal

unfoldable pub is_missing : {A : Type 0} → Option A → Bool
is_missing none = true
is_missing (some a) = false

-- `_REQUIRED_TICK_FIELDS`, with what the tick has under them.
abbrev pub required_tick_fields : TickFields → List (String × Option Value)
required_tick_fields tick =
    ("symbol", tick.identity.symbol)
    ∷ ("business_date", tick.identity.business_date)
    ∷ ("trade_time", tick.identity.trade_time)
    ∷ ("price", tick.identity.price)
    ∷ ("trade_volume", tick.trade_volume)
    ∷ ("cumulative_volume", tick.identity.cumulative_volume)
    ∷ ("trade_type", tick.identity.trade_type)
    ∷ []

unfoldable pub first_missing : List (String × Option Value) → Option String
unfolding is_missing
first_missing [] = none
first_missing ((name, value) ∷ fields) =
    let rest = first_missing fields in if is_missing value then some name else rest

module _ (texts : Texts) (has_event_ts : TickMapping → Bool) (is_int : Option Value → Bool) where
  unfoldable pub validate_numbers : TickFields → Option Refusal
  validate_numbers tick =
      if not (is_int tick.identity.price)
      then some (bad_number "price")
      else if not (is_int tick.trade_volume)
      then some (bad_number "trade_volume")
      else if not (is_int tick.identity.cumulative_volume)
      then some (bad_number "cumulative_volume")
      else if is_missing (compute_event_id texts (λ name. name) tick.identity)
      then some bad_identity
      else none

  -- `_validate_message`, none if it does not raise.
  unfoldable pub validate_message : TickFields → Option Refusal
  validate_message tick = elim (first_missing (required_tick_fields tick)) [
    | some name ↦ some (missing_field name)
    | none ↦
        if is_missing tick.identity.market && is_missing tick.identity.source_tr_id
        then some missing_market
        else if not (has_event_ts tick.identity)
        then some bad_timestamp
        else validate_numbers tick
  ]

  validate_numbers_lem :
      (tick : TickFields)
      → validate_numbers tick ≡ none
      → (is_int tick.identity.price ≡ true)
        × (is_int tick.trade_volume ≡ true)
        × (is_int tick.identity.cumulative_volume ≡ true)
        × (is_missing (compute_event_id texts (λ name. name) tick.identity) ≡ false)
  unfolding validate_numbers
  validate_numbers_lem tick h = ground (arith, h)

  validate_message_lem :
      (tick : TickFields)
      → validate_message tick ≡ none
      → (has_event_ts tick.identity ≡ true) × (validate_numbers tick ≡ none)
  unfolding validate_message
  validate_message_lem tick h = ground (arith, h)

  -- A message that passes has a time, numbers and an identity.
  pub validated :
      (tick : TickFields)
      → validate_message tick ≡ none
      → (has_event_ts tick.identity ≡ true)
        × (is_int tick.identity.price ≡ true)
        × (is_int tick.trade_volume ≡ true)
        × (is_int tick.identity.cumulative_volume ≡ true)
        × (is_missing (compute_event_id texts (λ name. name) tick.identity) ≡ false)
  validated tick h =
      let (timed, passed) = validate_message_lem tick h in
      let (price, volume, cumulative, identified) = validate_numbers_lem tick passed in
      (timed, price, volume, cumulative, identified)
