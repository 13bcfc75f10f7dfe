-- ===== src/KisIngestion/News.antt =====
-- services/kis_ingestion/src/kis_ingestion/poller/news.py: `NewsPoller`. A row of a page is given with
-- what `parse_news_row` makes of it; the API, the clock, the broker and the hashes are arguments.
pub mod Seen
mod Tests
use Prim.Native.String.{String}
use invest_view.Common.{
  ℕ, zero, suc, Bool, true, false, not, ◌||◌, Option, none, some, List, [], ◌∷◌, ◌++◌,
  if◌then◌else◌, Dict, lookup, insert, string_eq, member, discard, length, ltb, str_beq, map,
}

-- A title, by the id that its symbol, its document and its text determine.
pub record NewsTitle : Type 0 where
  pub raw_id : String
  pub symbol : String

-- A row: the title that it parses to, and its `data_dt` and `data_tm` if both are there.
pub record Row : Type 0 where
  pub parsed : Option NewsTitle
  pub stamp : Option (String × String)

abbrev pub news_page_size : ℕ
news_page_size = 40

pub record NewsPoller : Type 0 where
  pub max_pages : ℕ
  pub seen_capacity : ℕ
  pub seen : List String

-- `records.setdefault(record.raw_id, record)`
unfoldable pub set_default : NewsTitle → Dict String NewsTitle → Dict String NewsTitle
set_default title records = elim (lookup title.raw_id records) [
  | none ↦ insert title.raw_id title records
  | some old ↦ records
]

-- The loop over the rows of a page: whether a seen title was reached, and the records.
unfoldable pub read_rows :
    List String → List Row → Bool → Dict String NewsTitle → Bool × Dict String NewsTitle
read_rows seen [] reached records = (reached, records)
read_rows seen (row ∷ rows) reached records = elim row.parsed [
  | none ↦ read_rows seen rows reached records
  | some title ↦
      if member title.raw_id seen
      then read_rows seen rows true records
      else read_rows seen rows reached (set_default title records)
]

-- `min(stamps)`, where `less` compares two stamps.
unfoldable pub oldest_cursor :
    (String × String → String × String → Bool) → List Row → Option (String × String)
oldest_cursor less [] = none
oldest_cursor less (row ∷ rows) =
    let rest = oldest_cursor less rows in
    elim row.stamp [
      | none ↦ rest
      | some stamp ↦ elim rest [
        | none ↦ some stamp
        | some oldest ↦ if less oldest stamp then some oldest else some stamp
      ]
    ]

unfoldable pub same_cursor : String × String → String × String → Bool
same_cursor a b = if str_beq a.0 b.0 then str_beq a.1 b.1 else false

module _ (less : String × String → String × String → Bool)
    (fetch_page : String → String × String → Option (List Row)) where
  -- The pages from a cursor on; none where a request raises.
  unfoldable pub fetch_pages :
      String
      → List String
      → ℕ
      → String × String
      → Dict String NewsTitle
      → Option (Dict String NewsTitle)
  unfolding same_cursor
  fetch_pages symbol seen zero cursor records = some records
  fetch_pages symbol seen (suc pages) cursor records = elim (fetch_page symbol cursor) [
    | none ↦ none
    | some rows ↦
        let (reached, records') = read_rows seen rows false records in
        if reached || ltb (length rows) news_page_size
        then some records'
        else elim (oldest_cursor less rows) [
          | none ↦ some records'
          | some next ↦
              if same_cursor next cursor
              then some records'
              else fetch_pages symbol seen pages next records'
        ]
  ]

  -- `list(records.values())`
  unfoldable pub fetch_symbol : NewsPoller → String → Option (List NewsTitle)
  fetch_symbol poller symbol = elim (fetch_pages symbol poller.seen poller.max_pages ("", "") []) [
    | none ↦ none
    | some records ↦ some (map (λ (entry : String × NewsTitle). entry.1) records)
  ]

  -- `fetch` over the symbols that are listed: one whose request raises is left out.
  unfoldable pub fetch : NewsPoller → List String → List NewsTitle
  unfolding fetch_symbol
  fetch poller [] = []
  fetch poller (symbol ∷ symbols) =
      let rest = fetch poller symbols in
      elim (fetch_symbol poller symbol) [ none ↦ rest | some titles ↦ titles ++ rest ]

-- The loop `while len(self._seen) > capacity`: the oldest go.
unfoldable pub drop_oldest : ℕ → List String → List String
drop_oldest capacity [] = []
drop_oldest capacity (id ∷ seen) =
    let rest = drop_oldest capacity seen in
    if ltb capacity (length (id ∷ seen)) then rest else id ∷ seen

-- `_remember`: the id moves to the end.
unfoldable pub remember_id : String → NewsPoller → NewsPoller
remember_id raw_id poller = record poller {
  seen = drop_oldest poller.seen_capacity (discard raw_id poller.seen ++ raw_id ∷ []);
}

unfoldable pub remember_ids : List String → NewsPoller → NewsPoller
remember_ids [] poller = poller
remember_ids (raw_id ∷ ids) poller = remember_ids ids (remember_id raw_id poller)

-- The ids that the local queue took before it was full: the first that it refuses ends the loop.
unfoldable pub produce_all : (String → Bool) → List NewsTitle → List String
produce_all takes [] = []
produce_all takes (title ∷ titles) =
    let rest = produce_all takes titles in if takes title.raw_id then title.raw_id ∷ rest else []

-- `publish`; `reports` gives the ids whose delivery is reported by the end of the flush.
unfoldable pub publish :
    (String → Bool) → (List String → List String) → List NewsTitle → NewsPoller → ℕ × NewsPoller
publish takes reports titles poller =
    let delivered = reports (produce_all takes titles) in
    (length delivered, remember_ids delivered poller)
