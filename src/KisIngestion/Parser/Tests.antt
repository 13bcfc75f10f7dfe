-- ===== src/KisIngestion/Parser/Tests.antt =====
-- A message of two records.
use invest_view.Common.{
  ℕ, zero, suc, ◌≡◌, refl, false, Option, none, some, List, [], ◌∷◌, ℤ, pos, ◌==◌, if◌then◌else◌,
  All, length,
}
use invest_view.KisIngestion.Connection.{record_values}
use invest_view.KisIngestion.Parser.{
  Text, RawKisMessage, cut, split_max, of_parts, parse, split_records,
}
use invest_view.KisIngestion.Parser.RoundTrip.{Free, envelope, parse-envelope}

abbrev repeat : ℕ → Text → List Text
repeat zero t = []
repeat (suc n) t = t ∷ repeat n t

abbrev records : List (List Text)
records = repeat 46 (b'7' ∷ []) ∷ repeat 46 (b'8' ∷ b'|' ∷ []) ∷ []

repeat-Free : (sep : ℕ) (t : Text) (n : ℕ) → Free sep t → All (Free sep) (repeat n t)
repeat-Free sep t zero h = tt
repeat-Free sep t (suc n) h = (h, repeat-Free sep t n h)

-- Two is the only number that is written here.
abbrev int_of : Text → Option ℤ
int_of t = if length t == 3 then some (pos 2) else none

abbrev number : Text
number = b'0' ∷ b'0' ∷ b'2' ∷ []

abbrev trade : Text
trade = b'H' ∷ b'0' ∷ []

no_bars : parse int_of (b'0' ∷ b'|' ∷ b'H' ∷ []) ≡ none
unfolding parse split_max cut of_parts
no_bars = refl

parse-envelope_example :
    (m : RawKisMessage) × (parse int_of (envelope b'0' trade number records) ≡ some m)
    × (m.encrypted ≡ false)
    × (m.tr_id ≡ trade)
    × (m.count ≡ pos 2)
    × (record_values (split_records m.payload) 1 ≡ repeat 46 (b'8' ∷ b'|' ∷ []))
parse-envelope_example =
    parse-envelope int_of b'0' trade number (pos 2) records 1 (repeat 46 (b'8' ∷ b'|' ∷ [])) refl
      (refl, (refl, tt)) (refl, (refl, (refl, tt))) refl
      (
        repeat-Free b'^' (b'7' ∷ []) 46 (refl, tt),
        (repeat-Free b'^' (b'8' ∷ b'|' ∷ []) 46 (refl, (refl, tt)), tt),
      )
      (refl, (refl, tt)) refl
