-- ===== src/TickPersistence/EventId/Tests.antt =====
-- Two deliveries of one trade.
use invest_view.Common.{ℕ, ◌≡◌, ◌↔◌, refl, Option, some, none, List, [], ◌∷◌, pos, All}
use invest_view.KisIngestion.Parser.{Text}
use invest_view.KisIngestion.Parser.RoundTrip.{Free}
use invest_view.TickPersistence.EventId.{
  Value, boolean, integer, str, other, TickMapping, Texts, clean_str, int_string, market_value,
  normalized, compute_event_id,
}
use invest_view.TickPersistence.EventId.Identity.{Agree, compute_event_id_iff}

-- Numbers are of one figure here, and texts have no blanks.
abbrev texts : Texts
texts = record {
  stripped = λ value. elim value [ str t ↦ t | boolean b ↦ [] | integer n ↦ [] | other ↦ [] ];
  text_of_int = λ n. elim n [ pos k ↦ k ∷ [] | _ ↦ [] ];
  int_of = λ t. elim t [ [] ↦ none | c ∷ rest ↦ some (pos c) ];
  upper = λ t. t;
}

abbrev field_of : ℕ → Option Value
field_of c = some (str (c ∷ []))

abbrev trade : Option Value → TickMapping
trade market = record {
  market = market;
  source_tr_id = field_of b'K';
  symbol = field_of b'5';
  business_date = field_of b'1';
  cumulative_volume = field_of b'9';
  trade_time = field_of b'2';
  price = some (integer (pos b'7'));
  trade_type = field_of b'3';
}

abbrev letters : List Text
letters =
    (b'K' ∷ [])
    ∷ (b'5' ∷ [])
    ∷ (b'1' ∷ [])
    ∷ (b'9' ∷ [])
    ∷ (b'2' ∷ [])
    ∷ (b'7' ∷ [])
    ∷ (b'3' ∷ [])
    ∷ []

by_market : normalized texts (trade (field_of b'K')) ≡ some letters
unfolding normalized clean_str int_string market_value
by_market = refl

by_transaction : normalized texts (trade none) ≡ some letters
unfolding normalized clean_str int_string market_value
by_transaction = refl

no_volume : normalized texts (record (trade none) { cumulative_volume = none }) ≡ none
unfolding normalized clean_str int_string market_value
no_volume = refl

compute_event_id_iff_example :
    (compute_event_id texts (λ n. n) (trade (field_of b'K'))
      ≡ compute_event_id texts (λ n. n) (trade none))
    ↔ Agree texts (trade (field_of b'K')) (trade none)
compute_event_id_iff_example =
    compute_event_id_iff texts (λ n. n) (trade (field_of b'K')) (trade none) letters letters
      by_market by_transaction free free (λ e. e)
  where
    free : All (Free b'|') letters
    free = (
      (refl, tt),
      ((refl, tt), ((refl, tt), ((refl, tt), ((refl, tt), ((refl, tt), ((refl, tt), tt)))))),
    )
