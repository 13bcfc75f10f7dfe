-- ===== src/TickPersistence/Aggregator/Add.antt =====
-- `FiveMinuteAggregator.add_tick` as a whole.
pub mod Target
use Prim.Native.String.{String}
use invest_view.Common.{
  string_eq, ℕ, ◌<◌, ◌≡◌, ◌≢◌, refl, ◌⊎◌, inl, inr, Bool, true, false, ◌||◌, some, arith, ◌==◌,
  if◌then◌else◌, lookup, Entry, Entry-lookup, Bool-cases, Option-cases, ◌∙◌, ap, subst, sym,
}
use invest_view.TickPersistence.Bar.{BarState, TickKey, ok}
use invest_view.TickPersistence.Aggregator.{
  Aggregator, BarKey, Tick, key_eq, bucket_start, tick_key_of, input_of, is_older_than_latest,
  finalize, is_prior, mark_prior_buckets_final, record_tick, settle, add_tick, raise_latest,
}
use invest_view.TickPersistence.Aggregator.Finalize.{finalize-Closing}
use invest_view.TickPersistence.Aggregator.Shape.{Sound, finalize-Sound}
use invest_view.TickPersistence.Aggregator.Marking.{
  own_not_prior, finalize_frame, mark-Closing, mark-Sound, mark_frame, mark_heap, mark_done,
}
use invest_view.TickPersistence.Aggregator.Recording.{
  target, absorbed, record_tick_lem, record_tick-Sound, record_tick_kept, record_tick_frame,
  record_tick_listed, record_tick_heap,
}

raise_latest-Sound : (a : Aggregator) (s : String) (n : ℕ) → Sound a → Sound (raise_latest a s n)
unfolding raise_latest
raise_latest-Sound a s n v = record {
  allocated = v.allocated;
  unshared = v.unshared;
  proper = v.proper;
  listed = v.listed;
  closed = v.closed;
}

settle-Sound :
    (t : Tick) (older : Bool) (i : ℕ) (a : Aggregator)
    → Sound a
    → i < a.next
    → Sound (settle t older i a)
unfolding settle
settle-Sound t older i a v lt =
    let b = raise_latest a t.symbol (bucket_start t.trade_at) in
    let w = raise_latest-Sound a t.symbol (bucket_start t.trade_at) v in
    elim (Bool-cases (older || (b.heap i).is_final)) [
      | inl e ↦ rw e (finalize-Sound (tick_key_of t) i b lt w)
      | inr e ↦ rw e w
    ]

pub settle_heap :
    (t : Tick) (older : Bool) (i : ℕ) (a : Aggregator) (j : ℕ)
    → (settle t older i a).heap j
      ≡ (if j == i then record (a.heap i) { is_final = older || (a.heap i).is_final } else a.heap j)
unfolding settle finalize
settle_heap t older i a j = ground arith

settle_frame :
    (t : Tick) (older : Bool) (i : ℕ) (a : Aggregator) (k : BarKey)
    → tick_key_of t ≢ k
    → lookup k (settle t older i a).bars ≡ lookup k a.bars
unfolding settle
settle_frame t older i a k ne =
    ground (
      arith,
      finalize_frame (tick_key_of t) i (raise_latest a t.symbol (bucket_start t.trade_at)) k,
    )

-- `_finalize` through the rest of `add_tick` loses no bar.
settle_kept :
    (t : Tick) (older : Bool) (i : ℕ) (a : Aggregator) (k : BarKey) (n : ℕ)
    → lookup k a.bars ≡ some n
    → (lookup k (settle t older i a).bars ≡ some n) ⊎ Entry k n (settle t older i a).newly_finalized
unfolding settle
settle_kept t older i a k n h =
    let b = raise_latest a t.symbol (bucket_start t.trade_at) in
    ground (arith, (finalize-Closing (tick_key_of t) i b).kept k n h)

settle_listed :
    (t : Tick) (older : Bool) (i : ℕ) (a : Aggregator) (k : BarKey) (n : ℕ)
    → Entry k n a.newly_finalized
    → Entry k n (settle t older i a).newly_finalized
unfolding settle
settle_listed t older i a k n h =
    let b = raise_latest a t.symbol (bucket_start t.trade_at) in
    ground (arith, (finalize-Closing (tick_key_of t) i b).listed k n h)

module _ (t : Tick) (key : TickKey) (a : Aggregator) (v : Sound a) where
  pub k : BarKey
  k = tick_key_of t

  pub older : Bool
  older = is_older_than_latest a t.symbol (bucket_start t.trade_at)

  marked : Aggregator
  marked = mark_prior_buckets_final t.symbol (bucket_start t.trade_at) a

  pub recorded : Aggregator
  recorded = (record_tick t key older marked).1

  marked_lookup : lookup k marked.bars ≡ lookup k a.bars
  unfolding k marked
  marked_lookup =
      mark_frame t.symbol (bucket_start t.trade_at) a k
        (own_not_prior t.symbol (bucket_start t.trade_at))

  marked-Sound : Sound marked
  unfolding marked
  marked-Sound = mark-Sound t.symbol (bucket_start t.trade_at) a v

  marked-target : target marked k ≡ target a k
  unfolding marked
  marked-target =
      ground (arith, marked_lookup, (mark-Closing t.symbol (bucket_start t.trade_at) a).same_next)

  -- The run of `add_tick`: it never raises.
  pub add_tick_run : add_tick t key a ≡ (ok (target a k), settle t older (target a k) recorded)
  unfolding add_tick recorded marked older k
  add_tick_run = ground (arith, record_tick_lem t key older marked marked-Sound, marked-target)

  pub recorded-Sound : Sound recorded
  unfolding recorded
  recorded-Sound = record_tick-Sound t key older marked marked-Sound

  pub recorded_lookup : lookup k recorded.bars ≡ some (target a k)
  unfolding recorded k
  recorded_lookup = ground (arith, record_tick_lem t key older marked marked-Sound, marked-target)

  pub target_lt : target a k < recorded.next
  target_lt =
      recorded-Sound.allocated k (target a k)
        (Entry-lookup k (target a k) recorded.bars recorded_lookup)

  -- `add_tick` does not raise on a sound aggregator, returns the bar under the tick's key, a new
  -- one if there was none, and leaves a sound aggregator.
  pub add_tick-Sound :
      ((add_tick t key a).0 ≡ ok (target a (tick_key_of t))) × Sound (add_tick t key a).1
  unfolding k
  add_tick-Sound =
      rw add_tick_run (refl, settle-Sound t older (target a k) recorded recorded-Sound target_lt)

  recorded_bar : recorded.heap (target a k) ≡ absorbed (input_of t key) older a k
  unfolding recorded marked k
  recorded_bar = elim (Option-cases (lookup k a.bars)) [
    | inl e ↦
        ground
          (arith, record_tick_lem t key older marked marked-Sound, marked_lookup, marked-target)
    | inr (i, e) ↦ ground (
      arith,
      record_tick_lem t key older marked marked-Sound,
      marked_lookup,
      marked-target,
      mark_heap t.symbol (bucket_start t.trade_at) a k i v
          (own_not_prior t.symbol (bucket_start t.trade_at)) e,
    )
  ]

  -- In a sound aggregator the bar of the tick's bucket takes the tick in once: it is made from the tick or gets the
  -- tick's assignments, and it is final afterwards exactly when it was final before or the
  -- symbol has a later bucket.
  pub add_tick_bar :
      (add_tick t key a).1.heap (target a (tick_key_of t))
      ≡ record (absorbed
          (input_of t key)
          (is_older_than_latest a t.symbol (bucket_start t.trade_at))
          a
          (tick_key_of t)) {
            is_final =
                is_older_than_latest a t.symbol (bucket_start t.trade_at)
                || (absorbed
                    (input_of t key)
                    (is_older_than_latest a t.symbol (bucket_start t.trade_at))
                    a
                    (tick_key_of t)).is_final;
          }
  unfolding k older
  add_tick_bar =
      rw add_tick_run
        (ground (arith, settle_heap t older (target a k) recorded (target a k), recorded_bar))

  settled : Aggregator
  settled = settle t older (target a k) recorded

  settled_kept :
      (j : BarKey) (n : ℕ)
      → lookup j a.bars ≡ some n
      → (lookup j settled.bars ≡ some n) ⊎ Entry j n settled.newly_finalized
  unfolding settled recorded marked
  settled_kept j n h = elim ((mark-Closing t.symbol (bucket_start t.trade_at) a).kept j n h) [
    | inl e ↦
        settle_kept t older (target a k) recorded j n
          (record_tick_kept t key older marked j n marked-Sound e)
    | inr e ↦ inr (
        settle_listed t older (target a k) recorded j n
          (subst (Entry j n) (sym (record_tick_listed t key older marked marked-Sound)) e))
  ]

  -- In a sound aggregator `add_tick` loses no bar: each is still under its key, or it is in the list of finalized bars.
  pub add_tick_kept :
      (j : BarKey) (n : ℕ)
      → lookup j a.bars ≡ some n
      → (lookup j (add_tick t key a).1.bars ≡ some n)
        ⊎ Entry j n (add_tick t key a).1.newly_finalized
  unfolding settled
  add_tick_kept j n h = rw add_tick_run (settled_kept j n h)

  -- A bar that was under another key when the tick was recorded is not the tick's bar, and the
  -- rest of `add_tick` leaves it alone.
  recorded_frame : (j : BarKey) → tick_key_of t ≢ j → lookup j recorded.bars ≡ lookup j marked.bars
  unfolding recorded
  recorded_frame j ne = record_tick_frame t key older marked j marked-Sound ne

  apart : (j : BarKey) (n : ℕ) → tick_key_of t ≢ j → lookup j marked.bars ≡ some n → target a k ≢ n
  unfolding k
  apart j n ne h e = ne (
      recorded-Sound.unshared (tick_key_of t) j n
        (subst (λ m. Entry (tick_key_of t) m recorded.bars) e
          (Entry-lookup (tick_key_of t) (target a k) recorded.bars recorded_lookup))
        (Entry-lookup j n recorded.bars (recorded_frame j ne ∙ h)))

  settled_heap :
      (j : BarKey) (n : ℕ)
      → tick_key_of t ≢ j
      → lookup j marked.bars ≡ some n
      → settled.heap n ≡ marked.heap n
  unfolding settled recorded
  settled_heap j n ne h = ground (
    arith,
    settle_heap t older (target a k) recorded n,
    apart j n ne h,
    record_tick_heap t key older marked j n marked-Sound ne h,
  )

  settled_lookup : (j : BarKey) → tick_key_of t ≢ j → lookup j settled.bars ≡ lookup j marked.bars
  unfolding settled
  settled_lookup j ne = settle_frame t older (target a k) recorded j ne ∙ recorded_frame j ne

  -- In a sound aggregator `add_tick` leaves the bars of other symbols, and those of the symbol's
  -- later buckets, as they are, under their keys.
  pub add_tick_frame :
      (j : BarKey) (n : ℕ)
      → is_prior t.symbol (bucket_start t.trade_at) j ≡ false
      → tick_key_of t ≢ j
      → lookup j a.bars ≡ some n
      → (lookup j (add_tick t key a).1.bars ≡ some n) × ((add_tick t key a).1.heap n ≡ a.heap n)
  unfolding settled marked
  add_tick_frame j n p ne h =
      let at_mark : lookup j marked.bars ≡ some n = mark_lookup j n p h in
      rw add_tick_run (
        settled_lookup j ne ∙ at_mark,
        settled_heap j n ne at_mark ∙ mark_heap t.symbol (bucket_start t.trade_at) a j n v p h,
      )
    where
      mark_lookup :
          (j : BarKey) (n : ℕ)
          → is_prior t.symbol (bucket_start t.trade_at) j ≡ false
          → lookup j a.bars ≡ some n
          → lookup j marked.bars ≡ some n
      mark_lookup j n p h = mark_frame t.symbol (bucket_start t.trade_at) a j p ∙ h

  -- After `add_tick` on a sound aggregator the bars left under earlier buckets of the symbol are
  -- final.
  pub add_tick_closes :
      (j : BarKey) (n : ℕ)
      → is_prior t.symbol (bucket_start t.trade_at) j ≡ true
      → lookup j (add_tick t key a).1.bars ≡ some n
      → ((add_tick t key a).1.heap n).is_final ≡ true
  unfolding settled marked
  add_tick_closes j n p h = rw add_tick_run (
      ap (λ (b : BarState). b.is_final) (settled_heap j n other at_mark)
      ∙ mark_done t.symbol (bucket_start t.trade_at) a j n p at_mark)
    where
      other : tick_key_of t ≢ j
      other e = ground (
        arith,
        own_not_prior t.symbol (bucket_start t.trade_at),
        ap (is_prior t.symbol (bucket_start t.trade_at)) e,
      )

      at_mark : lookup j marked.bars ≡ some n
      at_mark = sym (settled_lookup j other) ∙ (rw add_tick_run at h)
