-- ===== src/TickPersistence/Handler/Batch/Keeping.antt =====
-- A batch keeps the aggregator's invariant, whatever the database does.
use invest_view.Common.{
  string_eq, ℕ, ◌≡◌, refl, inl, inr, true, ◌&&◌, Option, none, some, List, [], ◌∷◌, arith,
  Option-cases, Bool, if◌then◌else◌, lookup, insert, lookup-insert, Bool-cases, subst, sym, ◌∙◌,
  Dict, member, ◌⊎◌,
}
use invest_view.TickPersistence.Bar.{BarState, ok}
use invest_view.TickPersistence.Bar.Order.{bar_of}
use invest_view.TickPersistence.Aggregator.{
  Aggregator, BarKey, key_eq, key_beq, key_beq_iff, Tick, tick_key_of, allocate, hydrate, has_bar,
  add_tick,
}
use invest_view.TickPersistence.Aggregator.Shape.{Sound}
use invest_view.TickPersistence.Aggregator.Recording.{target}
use invest_view.TickPersistence.Aggregator.Add.{add_tick-Sound}
use invest_view.TickPersistence.Aggregator.Add.Target.{rehydrate-Sound}
use invest_view.TickPersistence.Aggregator.Hydrate.{restore-Sound}
use invest_view.TickPersistence.Consumer.{TickMessage}
use invest_view.TickPersistence.Handler.{InsertedTick}
use invest_view.TickPersistence.Handler.Load.{
  BronzeRow, inputs_of, load_bar_state, load_bar_state_lem,
}
use invest_view.TickPersistence.Handler.Batch.{
  TickHandler, hydrate_once, hydrate_batch, next_in_bucket, add_ordered_ticks, add_key,
}

-- The state after a bar was loaded.
abbrev restored : BarKey → BarState → TickHandler → TickHandler
restored k bar h = record (add_key k h) {
  aggregator = hydrate k h.aggregator.next (allocate h.aggregator bar);
}

add_key_aggregator : (k : BarKey) (h : TickHandler) → (add_key k h).aggregator ≡ h.aggregator
unfolding add_key
add_key_aggregator k h = refl

-- Every select of bronze rows gives its rows.
abbrev pub SelectsAnswer : (BarKey → Option (List BronzeRow)) → Type 0
SelectsAnswer rows_of = (k : BarKey) → (rows : List BronzeRow) × (rows_of k ≡ some rows)

hydrate_once_cases :
    (rows_of : BarKey → Option (List BronzeRow)) (k : BarKey) (h : TickHandler)
    (rows : List BronzeRow) (o : Option BarState)
    → rows_of k ≡ some rows
    → load_bar_state rows ≡ ok o
    → (hydrate_once rows_of k h ≡ (true, add_key k h))
      ⊎ ((bar : BarState) × (o ≡ some bar) × (hydrate_once rows_of k h ≡ (true, restored k bar h)))
unfolding hydrate_once
hydrate_once_cases rows_of k h rows none given e = inl (ground (arith, given, e))
hydrate_once_cases rows_of k h rows (some bar) given e =
    elim (Bool-cases (has_bar k h.aggregator)) [
      | inl there ↦ inl (ground (arith, there))
      | inr missing ↦ inr (bar, refl, ground (arith, missing, given, e))
    ]

hydrate_once_refused :
    (rows_of : BarKey → Option (List BronzeRow)) (k : BarKey) (h : TickHandler)
    → rows_of k ≡ none
    → (hydrate_once rows_of k h).1 ≡ add_key k h
unfolding hydrate_once
hydrate_once_refused rows_of k h refused = ground (arith, refused)

-- Hydration does not raise where the select gives its rows, and it leaves a sound aggregator.
hydrate_once_done :
    (rows_of : BarKey → Option (List BronzeRow)) (k : BarKey) (h : TickHandler)
    (rows : List BronzeRow)
    → rows_of k ≡ some rows
    → Sound h.aggregator
    → (h' : TickHandler) × (hydrate_once rows_of k h ≡ (true, h')) × Sound h'.aggregator
hydrate_once_done rows_of k h rows given v =
    let (e, proper) = load_bar_state_lem rows in
    elim (hydrate_once_cases rows_of k h rows (bar_of (inputs_of rows)) given e) [
      | inl same ↦ (add_key k h, same, subst Sound (sym (add_key_aggregator k h)) v)
      | inr (bar, is_bar, done) ↦
          (restored k bar h, done, restore-Sound k h.aggregator bar v (proper bar is_bar))
    ]

hydrate_once-Sound :
    (rows_of : BarKey → Option (List BronzeRow)) (k : BarKey) (h : TickHandler)
    → Sound h.aggregator
    → Sound (hydrate_once rows_of k h).1.aggregator
hydrate_once-Sound rows_of k h v = elim (Option-cases (rows_of k)) [
  | inl refused ↦
      subst (λ (s : TickHandler). Sound s.aggregator)
        (sym (hydrate_once_refused rows_of k h refused))
        (subst Sound (sym (add_key_aggregator k h)) v)
  | inr (rows, given) ↦
      let (h', e, v') = hydrate_once_done rows_of k h rows given v in
      subst (λ (r : Bool × TickHandler). Sound r.1.aggregator) (sym e) v'
]

-- A bucket that is in a mapping.
abbrev pub Known : BarKey → Dict BarKey ℕ → Type 0
Known k d = (i : ℕ) × (lookup k d ≡ some i)

insert-Known : (k : BarKey) (i : ℕ) (d : Dict BarKey ℕ) → Known k (insert k i d)
insert-Known k i d = (i, ground (arith, lookup-insert k k i d, key_beq_iff k k))

pub Known-insert : (k j : BarKey) (i : ℕ) (d : Dict BarKey ℕ) → Known k d → Known k (insert j i d)
Known-insert k j i d (n, e) = elim (Bool-cases (key_beq j k)) [
  | inl same ↦ (i, ground (arith, lookup-insert j k i d, same))
  | inr other ↦ (n, ground (arith, lookup-insert j k i d, other, e))
]

module _ {V : Type 0} (tick_of : V → Tick) where
  pub hydrate_batch_done :
      (rows_of : BarKey → Option (List BronzeRow)) (seen : List BarKey)
      (messages : List (TickMessage V)) (h : TickHandler)
      → SelectsAnswer rows_of
      → Sound h.aggregator
      → (h' : TickHandler) × (hydrate_batch tick_of rows_of seen messages h ≡ (true, h'))
        × Sound h'.aggregator
  unfolding hydrate_batch
  hydrate_batch_done rows_of seen [] h answers v = (h, refl, v)
  hydrate_batch_done rows_of seen (m ∷ messages) h answers v =
      let k = tick_key_of (tick_of m.tick) in
      elim (Bool-cases (member k seen)) [
        | inl again ↦
            let (h', e, v') = hydrate_batch_done rows_of seen messages h answers v in
            (h', ground (arith, again, e), v')
        | inr first ↦
            let (rows, given) = answers k in
            let (h₁, e₁, v₁) = hydrate_once_done rows_of k h rows given v in
            let (h₂, e₂, v₂) = hydrate_batch_done rows_of (k ∷ seen) messages h₁ answers v₁ in
            (h₂, ground (arith, first, e₁, e₂), v₂)
      ]

  -- Where the loop of the hydration goes from a message.
  hydrate_batch_cases :
      (rows_of : BarKey → Option (List BronzeRow)) (seen : List BarKey) (m : TickMessage V)
      (messages : List (TickMessage V)) (h : TickHandler)
      → let k = tick_key_of (tick_of m.tick) in
        let r = (hydrate_batch tick_of rows_of seen (m ∷ messages) h).1 in
        let h₁ = (hydrate_once rows_of k h).1 in
        (r ≡ (hydrate_batch tick_of rows_of seen messages h).1)
        ⊎ (r ≡ (hydrate_batch tick_of rows_of (k ∷ seen) messages h₁).1)
        ⊎ (r ≡ h₁)
  unfolding hydrate_batch
  hydrate_batch_cases rows_of seen m messages h =
      let k = tick_key_of (tick_of m.tick) in
      elim (Bool-cases (member k seen)) [
        | inl again ↦ inl (ground (arith, again))
        | inr first ↦ elim (Bool-cases (hydrate_once rows_of k h).0) [
          | inl done ↦ inr (inl (ground (arith, first, done)))
          | inr raised ↦ inr (inr (ground (arith, first, raised)))
        ]
      ]

  pub hydrate_batch-Sound :
      (rows_of : BarKey → Option (List BronzeRow)) (seen : List BarKey)
      (messages : List (TickMessage V)) (h : TickHandler)
      → Sound h.aggregator
      → Sound (hydrate_batch tick_of rows_of seen messages h).1.aggregator
  hydrate_batch-Sound rows_of seen [] h v = unfold hydrate_batch in v
  hydrate_batch-Sound rows_of seen (m ∷ messages) h v =
      let k = tick_key_of (tick_of m.tick) in
      let h₁ = (hydrate_once rows_of k h).1 in
      let v₁ = hydrate_once-Sound rows_of k h v in
      let IsSound : TickHandler → Type 0 = λ s. Sound s.aggregator in
      elim (hydrate_batch_cases rows_of seen m messages h) [
        | inl e ↦ subst IsSound (sym e) (hydrate_batch-Sound rows_of seen messages h v)
        | inr (inl e) ↦
            subst IsSound (sym e) (hydrate_batch-Sound rows_of (k ∷ seen) messages h₁ v₁)
        | inr (inr e) ↦ subst IsSound (sym e) v₁
      ]

  -- The aggregator with which the loop goes on after a tick.
  abbrev after_tick : InsertedTick V → List (InsertedTick V) → Aggregator → Aggregator
  after_tick t ticks a =
      let k = tick_key_of (tick_of t.value) in
      let b = (add_tick (tick_of t.value) t.lineage a).1 in
      if (b.heap (target a k)).is_final && next_in_bucket tick_of k ticks
      then hydrate k (target a k) b
      else b

  after_tick-Sound :
      (t : InsertedTick V) (ticks : List (InsertedTick V)) (a : Aggregator)
      → Sound a
      → Sound (after_tick t ticks a)
  after_tick-Sound t ticks a v =
      let k = tick_key_of (tick_of t.value) in
      let b = (add_tick (tick_of t.value) t.lineage a).1 in
      elim (Bool-cases ((b.heap (target a k)).is_final && next_in_bucket tick_of k ticks)) [
        | inl again ↦ rw again (rehydrate-Sound (tick_of t.value) t.lineage a v)
        | inr last ↦ rw last ((add_tick-Sound (tick_of t.value) t.lineage a v).1)
      ]

  add_ordered_ticks_step :
      (t : InsertedTick V) (ticks : List (InsertedTick V)) (changed : Dict BarKey ℕ)
      (a : Aggregator)
      → Sound a
      → add_ordered_ticks tick_of (t ∷ ticks) changed a
        ≡ add_ordered_ticks tick_of ticks
            (insert
              (tick_key_of (tick_of t.value))
              (target a (tick_key_of (tick_of t.value)))
              changed)
            (after_tick t ticks a)
  unfolding add_ordered_ticks
  add_ordered_ticks_step t ticks changed a v =
      ground (arith, (add_tick-Sound (tick_of t.value) t.lineage a v).0)

  -- A bucket of one of the ticks.
  abbrev pub Touched : BarKey → List (InsertedTick V) → Type 0
  Touched k [] = ⊥
  Touched k (t ∷ ticks) = (tick_key_of (tick_of t.value) ≡ k) ⊎ Touched k ticks

  -- Adding ordered ticks does not raise, it leaves a sound aggregator, and every bucket that
  -- changed before or that a tick is of is among the changed ones.
  pub add_ordered_ticks_lem :
      (ticks : List (InsertedTick V)) (changed : Dict BarKey ℕ) (a : Aggregator)
      → Sound a
      → (d : Dict BarKey ℕ) × (b : Aggregator) × (add_ordered_ticks tick_of ticks changed a
          ≡ (some d, b))
        × Sound b
        × ((k : BarKey) → Known k changed ⊎ Touched k ticks → Known k d)
  add_ordered_ticks_lem [] changed a v = (
    changed,
    a,
    unfold add_ordered_ticks in refl,
    v,
    λ k h. elim h [ inl x ↦ x | inr f ↦ absurd f ],
  )
  add_ordered_ticks_lem (t ∷ ticks) changed a v =
      let k = tick_key_of (tick_of t.value) in
      let changed' = insert k (target a k) changed in
      let (d, b, e, w, all) =
        add_ordered_ticks_lem ticks changed' (after_tick t ticks a)
          (after_tick-Sound t ticks a v) in
      (
        d,
        b,
        add_ordered_ticks_step t ticks changed a v ∙ e,
        w,
        λ j h. all j (elim h [
          | inl x ↦ inl (Known-insert j k (target a k) changed x)
          | inr (inl same) ↦
              inl (subst (λ q. Known q changed') same (insert-Known k (target a k) changed))
          | inr (inr later) ↦ inr later
        ]),
      )
