-- ===== src/KisIngestion/Parser.antt =====
-- services/kis_ingestion/src/kis_ingestion/raw_parser.py: `KISRawMessageParser.parse` and
-- `split_records`. A text is the list of its code points; `int` on a text is an argument.
pub mod RoundTrip
mod Tests
use invest_view.Common.{
  ℕ, zero, suc, Bool, false, ◌||◌, Option, none, some, List, [], ◌∷◌, ℤ, if◌then◌else◌, ◌==◌,
}

abbrev pub Text : Type 0
Text = List ℕ

pub record RawKisMessage : Type 0 where
  pub encrypted : Bool
  pub tr_id : Text
  pub count : ℤ
  pub payload : Text

-- The text before the first separator, and the text after it if there is one.
unfoldable pub cut : ℕ → Text → Text × Option Text
cut sep [] = ([], none)
cut sep (c ∷ t) = if c == sep then ([], some t) else let (a, rest) = cut sep t in (c ∷ a, rest)

-- `text.split(sep, n)`
unfoldable pub split_max : ℕ → ℕ → Text → List Text
unfolding cut
split_max sep zero t = t ∷ []
split_max sep (suc n) t =
    let (a, rest) = cut sep t in elim rest [ none ↦ a ∷ [] | some r ↦ a ∷ split_max sep n r ]

unfoldable pub prepend : ℕ → List Text → List Text
prepend c [] = (c ∷ []) ∷ []
prepend c (t ∷ ts) = (c ∷ t) ∷ ts

-- `text.split(sep)`
unfoldable pub split : ℕ → Text → List Text
unfolding prepend
split sep [] = [] ∷ []
split sep (c ∷ t) = let parts = split sep t in if c == sep then [] ∷ parts else prepend c parts

-- `parts[0] == "1"`
unfoldable pub is_one : Text → Bool
is_one [] = false
is_one (c ∷ []) = c == b'1'
is_one (c ∷ d ∷ t) = false

-- The message of four parts, if the third is a number.
unfoldable pub of_parts : (Text → Option ℤ) → List Text → Option RawKisMessage
unfolding is_one
of_parts int_of [] = none
of_parts int_of (a ∷ []) = none
of_parts int_of (a ∷ b ∷ []) = none
of_parts int_of (a ∷ b ∷ c ∷ []) = none
of_parts int_of (a ∷ b ∷ c ∷ d ∷ rest) = elim (int_of c) [
  | none ↦ none
  | some n ↦ some (record { encrypted = is_one a; tr_id = b; count = n; payload = d })
]

unfoldable pub parse : (Text → Option ℤ) → Text → Option RawKisMessage
unfolding of_parts split_max
parse int_of [] = none
parse int_of (c ∷ raw) =
    if (c == b'0') || (c == b'1') then of_parts int_of (split_max b'|' 3 (c ∷ raw)) else none

unfoldable pub split_records : Text → List Text
unfolding split
split_records payload = split b'^' payload
