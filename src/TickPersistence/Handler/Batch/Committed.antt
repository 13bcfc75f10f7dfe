-- ===== src/TickPersistence/Handler/Batch/Committed.antt =====
-- What a batch writes and what it leaves in memory.
use Prim.Native.String.{String}
use invest_view.Common.{
  string_eq, ℕ, ◌≡◌, refl, inl, inr, ◌⊎◌, true, false, ap, Option, none, some, List, [], ◌∷◌, ℤ,
  arith, lookup, insert, Bool-cases, Option-cases, subst, sym, Dict,
}
use invest_view.TickPersistence.Bar.{BarState}
use invest_view.TickPersistence.Aggregator.{
  Aggregator, BarKey, key_eq, key_beq, key_beq_iff, Tick, pop_finalized_bars,
}
use invest_view.TickPersistence.Aggregator.Shape.{Sound}
use invest_view.TickPersistence.Aggregator.Hydrate.{pop_finalized_bars-Sound, clear-Sound}
use invest_view.TickPersistence.Consumer.{TickMessage}
use invest_view.TickPersistence.Handler.{InsertedTick, QuarantinedTick, partition_messages}
use invest_view.TickPersistence.Handler.Batch.{
  TickHandler, Database, Written, committed, update, bar_rows, latest_values, hydrate_batch,
  add_ordered_ticks, add_inserted_ticks, write_inserted, persist_valid, handle_batch, is_empty,
  clear_state,
}
use invest_view.TickPersistence.Handler.Batch.Keeping.{
  Known, Known-insert, Touched, add_ordered_ticks_lem, SelectsAnswer, hydrate_batch_done,
  hydrate_batch-Sound,
}

-- A row that is written for the bucket.
abbrev pub WrittenFor : BarKey → List (String × ℕ × ℕ × BarState) → Type 0
WrittenFor k [] = ⊥
WrittenFor k (row ∷ rows) = ((row.0 ≡ k.0) × (row.1 ≡ k.1)) ⊎ WrittenFor k rows

update-Known :
    (k : BarKey) (finalized : List (BarKey × ℕ)) (d : Dict BarKey ℕ)
    → Known k d
    → Known k (update d finalized)
unfolding update
update-Known k [] d h = h
update-Known k ((j, i) ∷ finalized) d h =
    update-Known k finalized (insert j i d) (Known-insert k j i d h)

bar_rows-WrittenFor :
    (a : Aggregator) (k : BarKey) (d : Dict BarKey ℕ) → Known k d → WrittenFor k (bar_rows a d)
unfolding bar_rows lookup
bar_rows-WrittenFor a k [] (i, e) = absurd cc
bar_rows-WrittenFor a k ((j, n) ∷ d) (i, e) = elim (Bool-cases (key_beq j k)) [
  | inl same ↦ inl (ground (arith, same, key_beq_iff j k), ground (arith, same, key_beq_iff j k))
  | inr other ↦ inr (bar_rows-WrittenFor a k d (i, ground (arith, e, other)))
]

pub clear_state-Sound : (h : TickHandler) → Sound (clear_state h).aggregator
unfolding clear_state
clear_state-Sound h = clear-Sound h.aggregator

module _ {V : Type 0} (tick_of : V → Tick) (price_of : V → Option ℤ)
    (validate : TickMessage V → Option String)
    (sorted : List (InsertedTick V) → List (InsertedTick V)) where
  -- The state after the ticks were added, by what the database took.
  write_inserted_cases :
      (db : Database V) (t : InsertedTick V) (ticks : List (InsertedTick V)) (h : TickHandler)
      (d : Dict BarKey ℕ) (b : Aggregator)
      → add_ordered_ticks tick_of (sorted (t ∷ ticks)) [] h.aggregator ≡ (some d, b)
      → let r = write_inserted tick_of price_of validate sorted db (t ∷ ticks) h in
        ((r.1.aggregator ≡ h.aggregator) ⊎ (r.1.aggregator ≡ (pop_finalized_bars b).1))
        × (db.takes_snapshots ≡ true
            → db.takes_bars ≡ true
            → (snapshots : List V) × (r.0
                ≡ some (
                  snapshots,
                  bar_rows (pop_finalized_bars b).1 (update d (pop_finalized_bars b).0),
                )))
  unfolding write_inserted add_inserted_ticks
  write_inserted_cases db t ticks h d b e =
      (ground (arith, e), λ s w. (latest_values tick_of (t ∷ ticks), ground (arith, e, s, w)))

  write_inserted-Sound :
      (db : Database V) (inserted : List (InsertedTick V)) (h : TickHandler)
      → Sound h.aggregator
      → Sound (write_inserted tick_of price_of validate sorted db inserted h).1.aggregator
  write_inserted-Sound db [] h v = unfold write_inserted in v
  write_inserted-Sound db (t ∷ ticks) h v =
      let (d, b, e, w, all) =
        add_ordered_ticks_lem tick_of (sorted (t ∷ ticks)) [] h.aggregator v in
      elim ((write_inserted_cases db t ticks h d b e).0) [
        | inl same ↦ subst Sound (sym same) v
        | inr popped ↦ subst Sound (sym popped) (pop_finalized_bars-Sound b w)
      ]

  -- What is written covers the buckets of all inserted ticks, if `sorted` loses none.
  write_inserted_lem :
      (db : Database V) (inserted : List (InsertedTick V)) (h : TickHandler)
      → Sound h.aggregator
      → db.takes_snapshots ≡ true
      → db.takes_bars ≡ true
      → ((k : BarKey) → Touched tick_of k inserted → Touched tick_of k (sorted inserted))
      → (snapshots : List V) × (bars : List (String × ℕ × ℕ × BarState)) × ((write_inserted tick_of
            price_of validate sorted db inserted h).0
          ≡ some (snapshots, bars))
        × ((k : BarKey) → Touched tick_of k inserted → WrittenFor k bars)
  write_inserted_lem db [] h v s w keeps = ([], [], unfold write_inserted in refl, λ k f. absurd f)
  write_inserted_lem db (t ∷ ticks) h v s w keeps =
      let (d, b, e, u, all) =
        add_ordered_ticks_lem tick_of (sorted (t ∷ ticks)) [] h.aggregator v in
      let (snapshots, done) = (write_inserted_cases db t ticks h d b e).1 s w in
      (
        snapshots,
        bar_rows (pop_finalized_bars b).1 (update d (pop_finalized_bars b).0),
        done,
        λ k touched.
            bar_rows-WrittenFor (pop_finalized_bars b).1 k (update d (pop_finalized_bars b).0)
              (update-Known k (pop_finalized_bars b).0 d (all k (inr (keeps k touched)))),
      )

  persist_valid_cases :
      (db : Database V) (m : TickMessage V) (messages : List (TickMessage V)) (h h₁ : TickHandler)
      (inserted : List (InsertedTick V))
      → hydrate_batch tick_of db.rows_of [] (m ∷ messages) h ≡ (true, h₁)
      → db.insert_many (m ∷ messages) ≡ some inserted
      → ((persist_valid tick_of price_of validate sorted db (m ∷ messages) h).1
          ≡ (write_inserted tick_of price_of validate sorted db inserted h₁).1)
        × ((snapshots : List V) (bars : List (String × ℕ × ℕ × BarState))
            → (write_inserted tick_of price_of validate sorted db inserted h₁).0
              ≡ some (snapshots, bars)
            → (persist_valid tick_of price_of validate sorted db (m ∷ messages) h).0
              ≡ some (inserted, snapshots, bars))
  unfolding persist_valid
  persist_valid_cases db m messages h h₁ inserted e i =
      (ground (arith, e, i), λ snapshots bars w. ground (arith, e, i, w))

  persist_valid_refused :
      (db : Database V) (m : TickMessage V) (messages : List (TickMessage V)) (h : TickHandler)
      → let hydrated = hydrate_batch tick_of db.rows_of [] (m ∷ messages) h in
        (hydrated.0 ≡ false) ⊎ (db.insert_many (m ∷ messages) ≡ none)
        → (persist_valid tick_of price_of validate sorted db (m ∷ messages) h).1 ≡ hydrated.1
  unfolding persist_valid
  persist_valid_refused db m messages h (inl e) = ground (arith, e)
  persist_valid_refused db m messages h (inr e) = ground (arith, e)

  persist_valid-Sound :
      (db : Database V) (messages : List (TickMessage V)) (h : TickHandler)
      → Sound h.aggregator
      → Sound (persist_valid tick_of price_of validate sorted db messages h).1.aggregator
  persist_valid-Sound db [] h v = unfold persist_valid in v
  persist_valid-Sound db (m ∷ messages) h v =
      let hydrated = hydrate_batch tick_of db.rows_of [] (m ∷ messages) h in
      let v₁ = hydrate_batch-Sound tick_of db.rows_of [] (m ∷ messages) h v in
      let IsSound : TickHandler → Type 0 = λ s. Sound s.aggregator in
      elim (Bool-cases hydrated.0) [
        | inr raised ↦ subst IsSound (sym (persist_valid_refused db m messages h (inl raised))) v₁
        | inl done ↦ elim (Option-cases (db.insert_many (m ∷ messages))) [
          | inl refused ↦
              subst IsSound (sym (persist_valid_refused db m messages h (inr refused))) v₁
          | inr (inserted, i) ↦
              subst IsSound
                (sym (
                  (persist_valid_cases db m messages h hydrated.1 inserted
                    (ap (λ b. (b, hydrated.1)) done) i).0))
                (write_inserted-Sound db inserted hydrated.1 v₁)
        ]
      ]

  handle_batch_aggregator :
      (db : Database V) (messages : List (TickMessage V)) (h : TickHandler)
      → let a = (handle_batch tick_of price_of validate sorted db messages h).1.aggregator in
        (a ≡ h.aggregator)
        ⊎ (a
            ≡ (persist_valid tick_of price_of validate sorted db
                (partition_messages validate messages).0
                h).1.aggregator)
  unfolding handle_batch
  handle_batch_aggregator db messages h = ground arith

  -- Whatever the messages are, and whichever select, statement or commit the database answers or
  -- refuses, a batch that finds a sound aggregator leaves a sound one.
  pub handle_batch-Sound :
      (db : Database V) (messages : List (TickMessage V)) (h : TickHandler)
      → Sound h.aggregator
      → Sound (handle_batch tick_of price_of validate sorted db messages h).1.aggregator
  handle_batch-Sound db messages h v = elim (handle_batch_aggregator db messages h) [
    | inl same ↦ subst Sound (sym same) v
    | inr e ↦
        subst Sound (sym e) (persist_valid-Sound db (partition_messages validate messages).0 h v)
  ]

  handle_batch_run :
      (db : Database V) (messages : List (TickMessage V)) (h : TickHandler) (m : TickMessage V)
      (valid : List (TickMessage V)) (quarantined : List (QuarantinedTick V))
      (inserted : List (InsertedTick V)) (snapshots : List V)
      (bars : List (String × ℕ × ℕ × BarState))
      → partition_messages validate messages ≡ (m ∷ valid, quarantined)
      → db.takes_quarantine ≡ true
      → db.commits ≡ true
      → (persist_valid tick_of price_of validate sorted db (m ∷ valid) h).0
        ≡ some (inserted, snapshots, bars)
      → (handle_batch tick_of price_of validate sorted db messages h).0
        ≡ committed (record { quarantine_rows = quarantined; snapshots = snapshots; bars = bars })
  unfolding handle_batch is_empty
  handle_batch_run db messages h m valid quarantined inserted snapshots bars p q c e =
      ground (arith, p, q, c, e)

  -- On a sound aggregator nothing in the handler itself raises: a batch with a valid message, of
  -- which the database answers every select and takes every statement, is committed with the quarantined messages, and with
  -- a bar for the bucket of every tick that Postgres inserted, where `sorted` loses no tick.
  pub handle_batch_commits :
      (db : Database V) (messages : List (TickMessage V)) (h : TickHandler) (m : TickMessage V)
      (valid : List (TickMessage V)) (quarantined : List (QuarantinedTick V))
      (inserted : List (InsertedTick V))
      → Sound h.aggregator
      → SelectsAnswer db.rows_of
      → partition_messages validate messages ≡ (m ∷ valid, quarantined)
      → db.insert_many (m ∷ valid) ≡ some inserted
      → db.takes_quarantine ≡ true
      → db.takes_snapshots ≡ true
      → db.takes_bars ≡ true
      → db.commits ≡ true
      → ((k : BarKey) → Touched tick_of k inserted → Touched tick_of k (sorted inserted))
      → (w : Written V) × ((handle_batch tick_of price_of validate sorted db messages h).0
          ≡ committed w)
        × (w.quarantine_rows ≡ quarantined)
        × ((k : BarKey) → Touched tick_of k inserted → WrittenFor k w.bars)
  handle_batch_commits db messages h m valid quarantined inserted v answers p i tq ts tb tc keeps =
      let (h₁, e, v₁) = hydrate_batch_done tick_of db.rows_of [] (m ∷ valid) h answers v in
      let (snapshots, bars, written, covers) = write_inserted_lem db inserted h₁ v₁ ts tb keeps in
      (
        record { quarantine_rows = quarantined; snapshots = snapshots; bars = bars },
        handle_batch_run db messages h m valid quarantined inserted snapshots bars p tq tc
            ((persist_valid_cases db m valid h h₁ inserted e i).1 snapshots bars written),
        refl,
        covers,
      )
