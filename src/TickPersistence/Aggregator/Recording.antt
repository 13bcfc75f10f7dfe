-- ===== src/TickPersistence/Aggregator/Recording.antt =====
-- The part of `add_tick` that makes or mutates the bar under the tick's key.
use invest_view.Common.{
  string_eq, ℕ, suc, ◌≡◌, ◌≢◌, inl, inr, Bool, none, some, arith, ◌==◌, if◌then◌else◌, lookup,
  insert, lookup-insert, Entry, Entry-lookup, Entry-insert, Bool-cases, Option-cases, subst,
}
use invest_view.TickPersistence.Bar.{BarState, TickKey, TickInput, ok, from_tick, assign_tick}
use invest_view.TickPersistence.Bar.Invariant.{
  IsOhlc, from_tick-IsOhlc, assign_tick-IsOhlc, add_tick_lem, assign_tick-final,
}
use invest_view.TickPersistence.Aggregator.{
  Aggregator, BarKey, Tick, key_eq, key_beq_iff, tick_key_of, input_of, record_tick,
}
use invest_view.TickPersistence.Aggregator.Shape.{Sound}

-- The reference under a key, or the one that is allocated next.
abbrev pub target : Aggregator → BarKey → ℕ
target a k = elim (lookup k a.bars) [ none ↦ a.next | some i ↦ i ]

-- The bar under the key with the tick in it.
abbrev pub absorbed : TickInput → Bool → Aggregator → BarKey → BarState
absorbed t older a k = elim (lookup k a.bars) [
  | none ↦ from_tick t older
  | some i ↦ assign_tick t (a.heap i)
]

pub record_tick_new :
    (t : Tick) (key : TickKey) (older : Bool) (a : Aggregator)
    → lookup (tick_key_of t) a.bars ≡ none
    → record_tick t key older a ≡ (
      ok a.next,
      record a {
        bars = insert (tick_key_of t) a.next a.bars;
        heap = λ j. if j == a.next then from_tick (input_of t key) older else a.heap j;
        next = suc a.next;
      },
    )
unfolding record_tick
record_tick_new t key older a e = ground arith

pub record_tick_old :
    (t : Tick) (key : TickKey) (older : Bool) (a : Aggregator) (i : ℕ)
    → lookup (tick_key_of t) a.bars ≡ some i
    → IsOhlc (a.heap i)
    → record_tick t key older a ≡ (
      ok i,
      record a { heap = λ j. if j == i then assign_tick (input_of t key) (a.heap i) else a.heap j },
    )
unfolding record_tick
record_tick_old t key older a i e p = ground (arith, add_tick_lem (input_of t key) (a.heap i) p)

pub record_tick_lem :
    (t : Tick) (key : TickKey) (older : Bool) (a : Aggregator)
    → Sound a
    → let k = tick_key_of t in
      ((record_tick t key older a).0 ≡ ok (target a k))
      × (lookup k (record_tick t key older a).1.bars ≡ some (target a k))
      × ((record_tick t key older a).1.heap (target a k) ≡ absorbed (input_of t key) older a k)
record_tick_lem t key older a v = elim (Option-cases (lookup (tick_key_of t) a.bars)) [
  | inl e ↦ ground (
    arith,
    record_tick_new t key older a e,
    lookup-insert (tick_key_of t) (tick_key_of t) a.next a.bars,
    key_beq_iff (tick_key_of t) (tick_key_of t),
  )
  | inr (i, e) ↦ ground (arith, record_tick_old t key older a i e (v.proper (tick_key_of t) i e))
]

pub record_tick-Sound :
    (t : Tick) (key : TickKey) (older : Bool) (a : Aggregator)
    → Sound a
    → Sound (record_tick t key older a).1
record_tick-Sound t key older a v = elim (Option-cases (lookup k a.bars)) [
  | inl e ↦ rw (record_tick_new t key older a e) (record {
    allocated = λ j n h. ground (arith, Entry-insert k a.next j n a.bars h, v.allocated j n);
    unshared = λ j q n h g. ground (
      arith,
      Entry-insert k a.next j n a.bars h,
      Entry-insert k a.next q n a.bars g,
      v.allocated j n,
      v.allocated q n,
      v.unshared j q n,
    );
    proper = λ j n h. new_proper e j n h;
    listed = λ j n h. ground (arith, v.listed j n h);
    closed = λ j n h. ground (arith, v.listed j n h, v.closed j n h);
  })
  | inr (i, e) ↦ rw (record_tick_old t key older a i e (v.proper k i e)) (record {
    allocated = v.allocated;
    unshared = v.unshared;
    proper = λ j n h. old_proper i e j n h;
    listed = v.listed;
    closed = λ j n h. ground (arith, v.closed j n h, assign_tick-final (input_of t key) (a.heap i));
  })
]
  where
    k : BarKey
    k = tick_key_of t

    new_proper :
        lookup k a.bars ≡ none
        → (j : BarKey) (n : ℕ) → lookup j (insert k a.next a.bars) ≡ some n
        → IsOhlc (if n == a.next then from_tick (input_of t key) older else a.heap n)
    new_proper e j n h = elim (Bool-cases (n == a.next)) [
      | inl p ↦ rw p (from_tick-IsOhlc (input_of t key) older)
      | inr p ↦ rw p (v.proper j n (ground (arith, lookup-insert k j a.next a.bars)))
    ]

    old_proper :
        (i : ℕ)
        → lookup k a.bars ≡ some i
        → (j : BarKey) (n : ℕ) → lookup j a.bars ≡ some n
        → IsOhlc (if n == i then assign_tick (input_of t key) (a.heap i) else a.heap n)
    old_proper i e j n h = elim (Bool-cases (n == i)) [
      | inl p ↦ rw p (assign_tick-IsOhlc (input_of t key) (a.heap i) (v.proper k i e))
      | inr p ↦ rw p (v.proper j n h)
    ]

-- The bars of other keys stay, and no bar is lost.
pub record_tick_frame :
    (t : Tick) (key : TickKey) (older : Bool) (a : Aggregator) (j : BarKey)
    → Sound a
    → tick_key_of t ≢ j
    → lookup j (record_tick t key older a).1.bars ≡ lookup j a.bars
record_tick_frame t key older a j v ne = elim (Option-cases (lookup (tick_key_of t) a.bars)) [
  | inl e ↦ ground (
    arith,
    record_tick_new t key older a e,
    lookup-insert (tick_key_of t) j a.next a.bars,
    key_beq_iff (tick_key_of t) j,
  )
  | inr (i, e) ↦ ground (arith, record_tick_old t key older a i e (v.proper (tick_key_of t) i e))
]

pub record_tick_kept :
    (t : Tick) (key : TickKey) (older : Bool) (a : Aggregator) (j : BarKey) (n : ℕ)
    → Sound a
    → lookup j a.bars ≡ some n
    → lookup j (record_tick t key older a).1.bars ≡ some n
record_tick_kept t key older a j n v h = elim (Option-cases (lookup (tick_key_of t) a.bars)) [
  | inl e ↦ ground (
    arith,
    record_tick_new t key older a e,
    lookup-insert (tick_key_of t) j a.next a.bars,
    key_beq_iff (tick_key_of t) j,
  )
  | inr (i, e) ↦ ground (arith, record_tick_old t key older a i e (v.proper (tick_key_of t) i e))
]

pub record_tick_listed :
    (t : Tick) (key : TickKey) (older : Bool) (a : Aggregator)
    → Sound a
    → (record_tick t key older a).1.newly_finalized ≡ a.newly_finalized
record_tick_listed t key older a v = elim (Option-cases (lookup (tick_key_of t) a.bars)) [
  | inl e ↦ ground (arith, record_tick_new t key older a e)
  | inr (i, e) ↦ ground (arith, record_tick_old t key older a i e (v.proper (tick_key_of t) i e))
]

-- A bar of another key keeps its contents.
pub record_tick_heap :
    (t : Tick) (key : TickKey) (older : Bool) (a : Aggregator) (j : BarKey) (n : ℕ)
    → Sound a
    → tick_key_of t ≢ j
    → lookup j a.bars ≡ some n
    → (record_tick t key older a).1.heap n ≡ a.heap n
record_tick_heap t key older a j n v ne h = elim (Option-cases (lookup (tick_key_of t) a.bars)) [
  | inl e ↦
      ground (arith, record_tick_new t key older a e, v.allocated j n (Entry-lookup j n a.bars h))
  | inr (i, e) ↦ ground (
    arith,
    record_tick_old t key older a i e (v.proper (tick_key_of t) i e),
    v.unshared (tick_key_of t) j n,
    Entry-lookup (tick_key_of t) i a.bars e,
    Entry-lookup j n a.bars h,
    other i,
  )
]
  where
    other : (i : ℕ) → i ≡ n → Entry (tick_key_of t) i a.bars → ⊥
    other i e en = ne (
        v.unshared (tick_key_of t) j n (subst (λ m. Entry (tick_key_of t) m a.bars) e en)
          (Entry-lookup j n a.bars h))
