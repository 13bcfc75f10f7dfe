-- ===== src/KisIngestion/Connection/Iterate/Arrivals.antt =====
-- The ticks that came in with an event, from the text of its message alone.
use Prim.Native.String.{String}
use invest_view.Common.{
  ℕ, zero, suc, ◌≡◌, inl, inr, refl, Bool, Option, none, some, List, [], ◌∷◌, ◌++◌, arith, ℤ, true,
  Bool-cases, Option-cases, ap, ◌∙◌, append_assoc, append_nil, length, ◌==◌, false, if◌then◌else◌,
  ◌⊎◌,
}
use invest_view.KisIngestion.Pool.{subscription_eq}
use invest_view.KisIngestion.Connection.{
  Manager, append_tick, handle_records, handle_data_message, record_values, record_field_count,
}
use invest_view.KisIngestion.Connection.Response.{
  Json, json_object, json_text, json_other, handle_json_response,
}
use invest_view.KisIngestion.Connection.Iterate.{
  market_of, range_count, Event, received, lost, is_pingpong, is_json_response, handle_parsed,
  handle_json, handle_message,
}
use invest_view.KisIngestion.Parser.{split_records, Text, RawKisMessage, parse}
use invest_view.KisIngestion.Connection.Iterate.Buffer.{handle_json_response_buffer}

-- The records of the payload that are whole.
unfoldable pub whole_records : {A : Type 0} → List A → ℕ → ℕ → List (List A)
whole_records values index zero = []
whole_records values index (suc count) =
    let rest = whole_records values (suc index) count in
    if length (record_values values index) == record_field_count
    then record_values values index ∷ rest
    else rest

-- The ticks of the records before the first one that the parser refuses.
unfoldable pub parsed_ticks : {A T : Type 0} → (A → Option T) → List A → List T
parsed_ticks parse_record [] = []
parsed_ticks parse_record (r ∷ records) =
    let rest = parsed_ticks parse_record records in
    elim (parse_record r) [ none ↦ [] | some t ↦ t ∷ rest ]

-- A message of no known market has no ticks.
unfoldable pub ticks_of_market :
    {A T : Type 0} → (String → A → Option T) → Option String → List A → List T
unfolding parsed_ticks
ticks_of_market parse_tick none records = []
ticks_of_market parse_tick (some name) records = parsed_ticks (parse_tick name) records

unfoldable pub payloads : {T : Type 0} → List (T × String × ℕ) → List T
payloads [] = []
payloads (t ∷ ticks) = t.0 ∷ payloads ticks

pub payloads-append :
    {T : Type 0} (xs ys : List (T × String × ℕ)) → payloads (xs ++ ys) ≡ payloads xs ++ payloads ys
unfolding payloads
payloads-append [] ys = refl
payloads-append (x ∷ xs) ys = ground (arith, payloads-append xs ys)

module _ {T : Type 0} where
  -- The buffer has grown at its end by these.
  abbrev pub Grows : List T → Manager T → Manager T → Type 0
  Grows new m m' = payloads m'.tick_buffer ≡ payloads m.tick_buffer ++ new

  pub Grows-same : (m m' : Manager T) → m'.tick_buffer ≡ m.tick_buffer → Grows [] m m'
  Grows-same m m' e = ap payloads e ∙ append_nil (payloads m.tick_buffer)

  append_tick-Grows : (t : T) (m : Manager T) → Grows (t ∷ []) m (append_tick t m)
  unfolding append_tick payloads
  append_tick-Grows t m = payloads-append m.tick_buffer ((t, m.session_id, suc m.sequence) ∷ [])

  Grows-trans :
      (new new' : List T) (m m₁ m₂ : Manager T)
      → Grows new m m₁
      → Grows new' m₁ m₂
      → Grows (new ++ new') m m₂
  Grows-trans new new' m m₁ m₂ e f =
      f ∙ ap (λ l. l ++ new') e ∙ append_assoc (payloads m.tick_buffer) new new'

  -- One record more: it is skipped, it is refused, or it gives a tick.
  handle_records_ticks :
      {A : Type 0} (parse_tick : String → List A → Option T) (market : Option String)
      (values : List A) (index count : ℕ) (m : Manager T)
      → let r = handle_records parse_tick market values index (suc count) m in
        let now = ticks_of_market parse_tick market (whole_records values index (suc count)) in
        let later = ticks_of_market parse_tick market (whole_records values (suc index) count) in
        ((r ≡ handle_records parse_tick market values (suc index) count m) × (now ≡ later))
        ⊎ ((r ≡ (false, m)) × (now ≡ []))
        ⊎ ((t : T) × (r
              ≡ handle_records parse_tick market values (suc index) count (append_tick t m))
            × (now ≡ t ∷ later))
  unfolding handle_records whole_records ticks_of_market parsed_ticks
  handle_records_ticks parse_tick market values index count m =
      elim (Bool-cases (length (record_values values index) == record_field_count)) [
        | inr short ↦ inl (ground (arith, short), ground (arith, short))
        | inl whole ↦ elim (Option-cases market) [
          | inl e ↦ inl (ground (arith, whole, e), ground (arith, whole, e))
          | inr (name, e) ↦ elim (Option-cases (parse_tick name (record_values values index))) [
            | inl refused ↦
                inr (inl (ground (arith, whole, e, refused), ground (arith, whole, e, refused)))
            | inr (t, e') ↦
                inr (inr (t, ground (arith, whole, e, e'), ground (arith, whole, e, e')))
          ]
        ]
      ]

  no_records :
      {A : Type 0} (parse_tick : String → List A → Option T) (market : Option String)
      (values : List A) (index : ℕ)
      → ticks_of_market parse_tick market (whole_records values index 0) ≡ []
  unfolding ticks_of_market whole_records parsed_ticks
  no_records parse_tick none values index = refl
  no_records parse_tick (some name) values index = refl

  handle_no_records :
      {A : Type 0} (parse_tick : String → List A → Option T) (market : Option String)
      (values : List A) (index : ℕ) (m : Manager T)
      → handle_records parse_tick market values index 0 m ≡ (true, m)
  unfolding handle_records
  handle_no_records parse_tick market values index m = refl

  handle_records-Grows :
      {A : Type 0} (parse_tick : String → List A → Option T) (market : Option String)
      (values : List A) (index count : ℕ) (m : Manager T)
      → Grows
          (ticks_of_market parse_tick market (whole_records values index count))
          m
          (handle_records parse_tick market values index count m).1
  handle_records-Grows parse_tick market values index zero m =
      rw
        (
          no_records parse_tick market values index,
          handle_no_records parse_tick market values index m,
        )
        (Grows-same m m refl)
  handle_records-Grows parse_tick market values index (suc count) m =
      elim (handle_records_ticks parse_tick market values index count m) [
        | inl (e, f) ↦ rw (e, f) (handle_records-Grows parse_tick market values (suc index) count m)
        | inr (inl (e, f)) ↦ rw (e, f) (Grows-same m m refl)
        | inr (inr (t, e, f)) ↦
            rw (e, f)
              (Grows-trans (t ∷ [])
                (ticks_of_market parse_tick market (whole_records values (suc index) count)) m
                (append_tick t m)
                (handle_records parse_tick market values (suc index) count (append_tick t m)).1
                (append_tick-Grows t m)
                (handle_records-Grows parse_tick market values (suc index) count (append_tick t m)))
      ]

module _ {T : Type 0} (json_loads : Text → Option Json) (int_of : Text → Option ℤ)
    (strip_upper : Text → String) (parse_tick : String → List Text → Option T) where
  -- The ticks of a data message; one that is encrypted or cannot be read has none.
  unfoldable pub message_ticks : Option RawKisMessage → List T
  unfolding ticks_of_market whole_records
  message_ticks none = []
  message_ticks (some message) =
      if message.encrypted
      then []
      else ticks_of_market parse_tick (market_of (strip_upper message.tr_id))
          (whole_records (split_records message.payload) 0 (range_count message.count))

  unfoldable pub raw_ticks : Text → List T
  unfolding message_ticks
  raw_ticks raw =
      if is_pingpong (json_loads raw)
      then []
      else if is_json_response (json_loads raw)
      then []
      else message_ticks (parse int_of raw)

  -- The ticks that the events bring.
  unfoldable pub arrivals : List Event → List T
  unfolding raw_ticks
  arrivals [] = []
  arrivals (received raw pong ∷ events) = raw_ticks raw ++ arrivals events
  arrivals (lost attempts ∷ events) = arrivals events

  module _ (code_of msg_of : String → String) where
    handle_parsed-Grows :
        (parsed : Option RawKisMessage) (m : Manager T)
        → Grows
            (message_ticks parsed)
            m
            (handle_parsed json_loads int_of strip_upper code_of msg_of parse_tick parsed m).1
    unfolding handle_parsed message_ticks handle_data_message
    handle_parsed-Grows none m = Grows-same m m refl
    handle_parsed-Grows (some message) m = elim (Bool-cases message.encrypted) [
      | inl hidden ↦ rw hidden (Grows-same m m refl)
      | inr plain ↦ rw plain (
          handle_records-Grows parse_tick (market_of (strip_upper message.tr_id))
            (split_records message.payload) 0 (range_count message.count) m)
    ]

    handle_json-Grows :
        (data_json : Option Json) (m : Manager T)
        → Grows [] m
            (handle_json json_loads int_of strip_upper code_of msg_of parse_tick data_json m).1
    unfolding handle_json
    handle_json-Grows none m = Grows-same m m refl
    handle_json-Grows (some (json_text s)) m = Grows-same m m refl
    handle_json-Grows (some json_other) m = Grows-same m m refl
    handle_json-Grows (some (json_object fields_of)) m =
        Grows-same m (handle_json_response code_of msg_of fields_of m)
          (handle_json_response_buffer code_of msg_of fields_of m)

    pub handle_message-Grows :
        (raw : Text) (pong : Bool) (m : Manager T)
        → Grows
            (raw_ticks raw)
            m
            (handle_message json_loads int_of strip_upper code_of msg_of parse_tick raw pong m).1
    unfolding handle_message raw_ticks
    handle_message-Grows raw pong m = elim (Bool-cases (is_pingpong (json_loads raw))) [
      | inl ping ↦ rw ping (Grows-same m m refl)
      | inr data_sent ↦ elim (Bool-cases (is_json_response (json_loads raw))) [
        | inl json ↦ rw (data_sent, json) (handle_json-Grows (json_loads raw) m)
        | inr ticks ↦ rw (data_sent, ticks) (handle_parsed-Grows (parse int_of raw) m)
      ]
    ]
