-- ===== src/KisIngestion/News/Seen.antt =====
-- What is fetched is new, and the memory of what was published is bounded.
use Prim.Native.String.{String}
use invest_view.Common.{
  some-inj, Option, none, some, ◌∙◌, ℕ, zero, suc, ◌≤◌, ◌≡◌, refl, inl, inr, Bool, true, false,
  ◌||◌, List, [], ◌∷◌, ◌++◌, Dict, insert, string_eq, member, discard, length, ltb, map, arith, All,
  Bool-cases, Option-cases, str_beq, subst, sym, ◌⊎◌,
}
use invest_view.KisIngestion.News.{
  NewsTitle, Row, NewsPoller, news_page_size, set_default, read_rows, oldest_cursor, same_cursor,
  fetch_pages, fetch, fetch_symbol, drop_oldest, remember_id, remember_ids, produce_all, publish,
}

drop_oldest_bounded :
    (capacity : ℕ) (seen : List String) → length (drop_oldest capacity seen) ≤ capacity
unfolding drop_oldest
drop_oldest_bounded capacity [] = omega arith
drop_oldest_bounded capacity (id ∷ seen) = ground (arith, drop_oldest_bounded capacity seen)

remember_ids_bounded :
    (ids : List String) (poller : NewsPoller)
    → length poller.seen ≤ poller.seen_capacity
    → (length (remember_ids ids poller).seen ≤ poller.seen_capacity)
      × ((remember_ids ids poller).seen_capacity ≡ poller.seen_capacity)
unfolding remember_ids remember_id
remember_ids_bounded [] poller b = (b, refl)
remember_ids_bounded (id ∷ ids) poller b =
    remember_ids_bounded ids (remember_id id poller)
      (drop_oldest_bounded poller.seen_capacity (discard id poller.seen ++ id ∷ []))

-- The titles of a mapping are none of the seen ones.
abbrev Unseen : List String → Dict String NewsTitle → Type 0
Unseen seen records =
    All (λ (entry : String × NewsTitle). member entry.1.raw_id seen ≡ false) records

insert-Unseen :
    (seen : List String) (id : String) (title : NewsTitle) (records : Dict String NewsTitle)
    → member title.raw_id seen ≡ false
    → Unseen seen records
    → Unseen seen (insert id title records)
unfolding insert
insert-Unseen seen id title [] new h = (new, tt)
insert-Unseen seen id title ((j, old) ∷ records) new (one, h) = elim (Bool-cases (str_beq j id)) [
  | inl same ↦ rw same (new, h)
  | inr other ↦ rw other (one, insert-Unseen seen id title records new h)
]

set_default_cases :
    (title : NewsTitle) (records : Dict String NewsTitle)
    → (set_default title records ≡ records)
      ⊎ (set_default title records ≡ insert title.raw_id title records)
unfolding set_default
set_default_cases title records = ground arith

set_default-Unseen :
    (seen : List String) (title : NewsTitle) (records : Dict String NewsTitle)
    → member title.raw_id seen ≡ false
    → Unseen seen records
    → Unseen seen (set_default title records)
set_default-Unseen seen title records new h = elim (set_default_cases title records) [
  | inl e ↦ subst (Unseen seen) (sym e) h
  | inr e ↦ subst (Unseen seen) (sym e) (insert-Unseen seen title.raw_id title records new h)
]

read_rows-Unseen :
    (seen : List String) (rows : List Row) (reached : Bool) (records : Dict String NewsTitle)
    → Unseen seen records
    → Unseen seen (read_rows seen rows reached records).1
unfolding read_rows
read_rows-Unseen seen [] reached records h = h
read_rows-Unseen seen (row ∷ rows) reached records h = elim (Option-cases row.parsed) [
  | inl e ↦ rw e (read_rows-Unseen seen rows reached records h)
  | inr (title, e) ↦ elim (Bool-cases (member title.raw_id seen)) [
    | inl old ↦ rw (e, old) (read_rows-Unseen seen rows true records h)
    | inr new ↦
        rw (e, new)
          (read_rows-Unseen seen rows reached (set_default title records)
            (set_default-Unseen seen title records new h))
  ]
]

module _ (less : String × String → String × String → Bool)
    (fetch_page : String → String × String → Option (List Row)) where
  -- The request of a page raises, the fetch ends with it, or it goes on from an older cursor.
  fetch_pages_cases :
      (symbol : String) (seen : List String) (pages : ℕ) (cursor : String × String)
      (records : Dict String NewsTitle)
      → let fetched = fetch_pages less fetch_page symbol seen (suc pages) cursor records in
        (fetched ≡ none)
        ⊎ ((rows : List Row) × ((fetched ≡ some (read_rows seen rows false records).1)
              ⊎ ((next : String × String) × (fetched
                    ≡ fetch_pages less fetch_page symbol seen pages next
                        (read_rows seen rows false records).1))))
  unfolding fetch_pages
  fetch_pages_cases symbol seen pages cursor records =
      elim (Option-cases (fetch_page symbol cursor)) [
        | inl refused ↦ inl (ground (arith, refused))
        | inr (rows, given) ↦ inr (
          rows,
          elim (Bool-cases
              ((read_rows seen rows false records).0 || ltb (length rows) news_page_size)) [
                | inl ends ↦ inl (ground (arith, given, ends))
                | inr goes ↦ elim (Option-cases (oldest_cursor less rows)) [
                  | inl e ↦ inl (ground (arith, given, goes, e))
                  | inr (next, e) ↦ elim (Bool-cases (same_cursor next cursor)) [
                    | inl same ↦ inl (ground (arith, given, goes, e, same))
                    | inr older ↦ inr (next, ground (arith, given, goes, e, older))
                  ]
                ]
              ],
        )
      ]

  no_pages :
      (symbol : String) (seen : List String) (cursor : String × String)
      (records : Dict String NewsTitle)
      → fetch_pages less fetch_page symbol seen 0 cursor records ≡ some records
  unfolding fetch_pages
  no_pages symbol seen cursor records = refl

  fetch_pages-Unseen :
      (symbol : String) (seen : List String) (pages : ℕ) (cursor : String × String)
      (records fetched : Dict String NewsTitle)
      → Unseen seen records
      → fetch_pages less fetch_page symbol seen pages cursor records ≡ some fetched
      → Unseen seen fetched
  fetch_pages-Unseen symbol seen zero cursor records fetched h e =
      subst (Unseen seen) (some-inj (sym (no_pages symbol seen cursor records) ∙ e)) h
  fetch_pages-Unseen symbol seen (suc pages) cursor records fetched h e =
      elim (fetch_pages_cases symbol seen pages cursor records) [
        | inl refused ↦ absurd (ground (arith, refused, e))
        | inr (rows, inl ended) ↦
            subst (Unseen seen) (some-inj (sym ended ∙ e))
              (read_rows-Unseen seen rows false records h)
        | inr (rows, inr (next, goes_on)) ↦
            fetch_pages-Unseen symbol seen pages next (read_rows seen rows false records).1 fetched
              (read_rows-Unseen seen rows false records h) (sym goes_on ∙ e)
      ]

  -- None of the titles is remembered.
  abbrev AllNew : List String → List NewsTitle → Type 0
  AllNew seen titles = All (λ (t : NewsTitle). member t.raw_id seen ≡ false) titles

  values-AllNew :
      (seen : List String) (records : Dict String NewsTitle)
      → Unseen seen records
      → AllNew seen (map (λ (entry : String × NewsTitle). entry.1) records)
  values-AllNew seen [] h = tt
  values-AllNew seen (entry ∷ records) h = (h.0, values-AllNew seen records h.1)

  append-AllNew :
      (seen : List String) (xs ys : List NewsTitle)
      → AllNew seen xs
      → AllNew seen ys
      → AllNew seen (xs ++ ys)
  append-AllNew seen [] ys h g = g
  append-AllNew seen (x ∷ xs) ys h g = (h.0, append-AllNew seen xs ys h.1 g)

  fetch_symbol_cases :
      (poller : NewsPoller) (symbol : String)
      → let fetched = fetch_pages less fetch_page symbol poller.seen poller.max_pages ("", "") [] in
        (fetch_symbol less fetch_page poller symbol ≡ none)
        ⊎ ((records : Dict String NewsTitle) × (fetched ≡ some records)
            × (fetch_symbol less fetch_page poller symbol
                ≡ some (map (λ (entry : String × NewsTitle). entry.1) records)))
  unfolding fetch_symbol
  fetch_symbol_cases poller symbol =
      elim (Option-cases
        (fetch_pages less fetch_page symbol poller.seen poller.max_pages ("", "") [])) [
          | inl e ↦ inl (ground (arith, e))
          | inr (records, e) ↦ inr (records, e, ground (arith, e))
        ]

  fetch_refused :
      (poller : NewsPoller) (symbol : String) (symbols : List String)
      → fetch_symbol less fetch_page poller symbol ≡ none
      → fetch less fetch_page poller (symbol ∷ symbols) ≡ fetch less fetch_page poller symbols
  unfolding fetch
  fetch_refused poller symbol symbols e = ground (arith, e)

  fetch_got :
      (poller : NewsPoller) (symbol : String) (symbols : List String) (titles : List NewsTitle)
      → fetch_symbol less fetch_page poller symbol ≡ some titles
      → fetch less fetch_page poller (symbol ∷ symbols)
        ≡ titles ++ fetch less fetch_page poller symbols
  unfolding fetch
  fetch_got poller symbol symbols titles e = ground (arith, e)

  fetch-AllNew :
      (poller : NewsPoller) (symbols : List String)
      → AllNew poller.seen (fetch less fetch_page poller symbols)
  fetch-AllNew poller [] = unfold fetch in tt
  fetch-AllNew poller (symbol ∷ symbols) = elim (fetch_symbol_cases poller symbol) [
    | inl refused ↦
        subst (AllNew poller.seen) (sym (fetch_refused poller symbol symbols refused))
          (fetch-AllNew poller symbols)
    | inr (records, got, e) ↦
        let titles = map (λ (entry : String × NewsTitle). entry.1) records in
        subst (AllNew poller.seen) (sym (fetch_got poller symbol symbols titles e)) (
          append-AllNew poller.seen titles (fetch less fetch_page poller symbols)
            (values-AllNew poller.seen records
              (fetch_pages-Unseen symbol poller.seen poller.max_pages ("", "") [] records tt got))
            (fetch-AllNew poller symbols))
  ]

  -- One cycle of the poller: every title that is fetched, over however many symbols and pages and
  -- whichever of their requests raise, is one that the poller does not remember, and after the
  -- publish, whichever of them are taken and reported, the memory is within its capacity if it was
  -- before.
  pub fetch-publish :
      (takes : String → Bool) (reports : List String → List String) (poller : NewsPoller)
      (symbols : List String)
      → length poller.seen ≤ poller.seen_capacity
      → All
          (λ (t : NewsTitle). member t.raw_id poller.seen ≡ false)
          (fetch less fetch_page poller symbols)
        × (length (publish takes reports (fetch less fetch_page poller symbols) poller).1.seen
            ≤ poller.seen_capacity)
  unfolding publish
  fetch-publish takes reports poller symbols b = (
    fetch-AllNew poller symbols,
    (remember_ids_bounded (reports (produce_all takes (fetch less fetch_page poller symbols)))
        poller b).0,
  )
