-- ===== src/KisIngestion/News/Tests.antt =====
-- A poll of two pages, the second of which reaches a title that was published.
use Prim.Native.String.{String}
use invest_view.Common.{
  ℕ, zero, suc, ◌≤◌, ◌≡◌, refl, Bool, true, false, Option, none, some, List, [], ◌∷◌, All, arith,
  str_beq, member, length, lookup, insert, if◌then◌else◌, string_eq,
}
use invest_view.KisIngestion.News.{
  NewsTitle, Row, NewsPoller, fetch, fetch_symbol, fetch_pages, read_rows, set_default,
  oldest_cursor, publish,
}
use invest_view.KisIngestion.News.Seen.{fetch-publish}

abbrev title : String → NewsTitle
title id = record { raw_id = id; symbol = "005930" }

abbrev row : String → Row
row id = record { parsed = some (title id); stamp = some ("20250102", "090000") }

abbrev repeat : ℕ → Row → List Row
repeat zero r = []
repeat (suc n) r = r ∷ repeat n r

-- A full page of one title, then a page of an old and a new one.
abbrev pages : String → String × String → Option (List Row)
pages symbol cursor =
    if str_beq symbol "000660"
    then none
    else if str_beq cursor.0 ""
    then some (repeat 40 (row "new"))
    else some (row "old" ∷ row "newer" ∷ [])

abbrev never_less : String × String → String × String → Bool
never_less a b = false

abbrev poller : NewsPoller
poller = record { max_pages = 3; seen_capacity = 2; seen = "older" ∷ "old" ∷ [] }

-- The pages of the first symbol raise.
abbrev symbols : List String
symbols = "000660" ∷ "005930" ∷ []

fetches : fetch never_less pages poller symbols ≡ title "new" ∷ title "newer" ∷ []
unfolding fetch fetch_symbol fetch_pages read_rows str_beq member oldest_cursor set_default lookup
    insert
fetches = refl

fetch-publish_example :
    All
      (λ (t : NewsTitle). member t.raw_id ("older" ∷ "old" ∷ []) ≡ false)
      (fetch never_less pages poller symbols)
    × (length
          (publish (λ id. true) (λ ids. ids) (fetch never_less pages poller symbols) poller).1.seen
        ≤ 2)
fetch-publish_example =
    fetch-publish never_less pages (λ id. true) (λ ids. ids) poller symbols (omega arith)
