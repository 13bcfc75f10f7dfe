-- ===== src/TickPersistence/Handler/Latest.antt =====
-- The snapshot of a symbol is taken from the latest of its inserted ticks.
use Prim.Native.String.{String}
use invest_view.Common.{
  ◌≡◌, ◌⊎◌, inl, inr, false, some, List, [], ◌∷◌, arith, Dict, lookup, insert, lookup-insert,
  str_beq, str_beq_iff, string_eq, Bool-cases, Option-cases, All, Any,
}
use invest_view.TickPersistence.Bar.{TickKey, key_lt}
use invest_view.TickPersistence.Bar.Keys.{key_lt_irrefl, key_lt_trans, key_lt_asymm, key_lt_total}
use invest_view.TickPersistence.Handler.{
  InsertedTick, keep_later, latest_into, latest_ticks_by_symbol,
}

module _ {V : Type 0} (symbol_of : V → String) where
  -- The table holds a tick of this symbol that is no earlier than `t`.
  abbrev pub AtLeast : Dict String (InsertedTick V) → String → InsertedTick V → Type 0
  AtLeast latest s t =
      (u : InsertedTick V) × (lookup s latest ≡ some u) × (key_lt u.lineage t.lineage ≡ false)

  not_lt_trans : (a b c : TickKey) → key_lt b a ≡ false → key_lt c b ≡ false → key_lt c a ≡ false
  not_lt_trans a b c h k = ground (
    arith,
    key_lt_trans c a b,
    key_lt_total a b,
    Bool-cases (key_lt c a),
    Bool-cases (key_lt a b),
  )

  keep_later_grows :
      (t : InsertedTick V) (latest : Dict String (InsertedTick V)) (s : String) (u : InsertedTick V)
      → AtLeast latest s u
      → AtLeast (keep_later symbol_of t latest) s u
  unfolding keep_later
  keep_later_grows t latest s u (w, h, le) = elim (Bool-cases (str_beq (symbol_of t.value) s)) [
    | inl same ↦ elim (Bool-cases (key_lt w.lineage t.lineage)) [
      | inl later ↦ (
        t,
        ground (
          arith,
          lookup-insert (symbol_of t.value) s t latest,
          str_beq_iff (symbol_of t.value) s,
        ),
        not_lt_trans u.lineage w.lineage t.lineage le (key_lt_asymm w.lineage t.lineage later),
      )
      | inr earlier ↦ (w, ground (arith, str_beq_iff (symbol_of t.value) s), le)
    ]
    | inr other ↦ (w, ground (arith, lookup-insert (symbol_of t.value) s t latest), le)
  ]

  keep_later_self :
      (t : InsertedTick V) (latest : Dict String (InsertedTick V))
      → AtLeast (keep_later symbol_of t latest) (symbol_of t.value) t
  unfolding keep_later
  keep_later_self t latest = elim (Option-cases (lookup (symbol_of t.value) latest)) [
    | inl new ↦ (t, ground (arith, inserted), key_lt_irrefl t.lineage)
    | inr (w, h) ↦ elim (Bool-cases (key_lt w.lineage t.lineage)) [
      | inl later ↦ (t, ground (arith, inserted), key_lt_irrefl t.lineage)
      | inr earlier ↦ (w, ground arith, earlier)
    ]
  ]
    where
      inserted : lookup (symbol_of t.value) (insert (symbol_of t.value) t latest) ≡ some t
      inserted = ground (
        arith,
        lookup-insert (symbol_of t.value) (symbol_of t.value) t latest,
        str_beq_iff (symbol_of t.value) (symbol_of t.value),
      )

  into_grows :
      (ticks : List (InsertedTick V)) (latest : Dict String (InsertedTick V)) (s : String)
      (u : InsertedTick V)
      → AtLeast latest s u
      → AtLeast (latest_into symbol_of ticks latest) s u
  unfolding latest_into
  into_grows [] latest s u h = h
  into_grows (t ∷ ticks) latest s u h =
      into_grows ticks (keep_later symbol_of t latest) s u (keep_later_grows t latest s u h)

  into-All :
      (ticks : List (InsertedTick V)) (latest : Dict String (InsertedTick V))
      → All (λ u. AtLeast (latest_into symbol_of ticks latest) (symbol_of u.value) u) ticks
  unfolding latest_into
  into-All [] latest = tt
  into-All (t ∷ ticks) latest = (
    into_grows ticks (keep_later symbol_of t latest) (symbol_of t.value) t
        (keep_later_self t latest),
    into-All ticks (keep_later symbol_of t latest),
  )

  -- The entry is a tick of this symbol among the ticks.
  abbrev Among : String → InsertedTick V → List (InsertedTick V) → Type 0
  Among s u ticks = Any (λ t. (t ≡ u) × (symbol_of t.value ≡ s)) ticks

  into-Among :
      (ticks : List (InsertedTick V)) (latest : Dict String (InsertedTick V)) (s : String)
      (u : InsertedTick V)
      → lookup s (latest_into symbol_of ticks latest) ≡ some u
      → (lookup s latest ≡ some u) ⊎ Among s u ticks
  unfolding latest_into keep_later
  into-Among [] latest s u h = inl h
  into-Among (t ∷ ticks) latest s u h = ground (
    arith,
    into-Among ticks (keep_later symbol_of t latest) s u h,
    lookup-insert (symbol_of t.value) s t latest,
    str_beq_iff (symbol_of t.value) s,
  )

  -- Every tick's symbol has an entry, and it is no earlier in the order of keys than the tick.
  pub latest_ticks_by_symbol_lem :
      (ticks : List (InsertedTick V))
      → All (λ u. AtLeast (latest_ticks_by_symbol symbol_of ticks) (symbol_of u.value) u) ticks
  unfolding latest_ticks_by_symbol
  latest_ticks_by_symbol_lem ticks = into-All ticks []

  -- An entry is one of the ticks, under its own symbol.
  latest_ticks_by_symbol-Among :
      (ticks : List (InsertedTick V)) (s : String) (u : InsertedTick V)
      → lookup s (latest_ticks_by_symbol symbol_of ticks) ≡ some u
      → Among s u ticks
  unfolding latest_ticks_by_symbol lookup
  latest_ticks_by_symbol-Among ticks s u h = ground (arith, into-Among ticks [] s u h)
