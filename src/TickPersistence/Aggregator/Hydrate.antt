-- ===== src/TickPersistence/Aggregator/Hydrate.antt =====
-- `hydrate`, `finalized_bars` and `pop_finalized_bars`.
use invest_view.Common.{
  string_eq, ℕ, ◌+◌, ◌≤◌, ◌<◌, ◌≡◌, ◌⊎◌, inl, inr, true, ◌||◌, some, arith, ◌==◌, if◌then◌else◌,
  lookup, insert, lookup-insert, Entry, Entry-lookup, Entry-insert, Bool-cases, subst, sym,
}
use invest_view.TickPersistence.Bar.{BarState}
use invest_view.TickPersistence.Bar.Invariant.{IsOhlc}
use invest_view.TickPersistence.Aggregator.{
  Aggregator, BarKey, key_eq, key_beq_iff, is_older_than_latest, raise_latest, hydrate, allocate,
  pop_finalized_bars, clear, finalized_bars, bucket_size,
}
use invest_view.TickPersistence.Aggregator.Finalize.{close_due-Closing, close_due_done}
use invest_view.TickPersistence.Aggregator.Shape.{Sound, close_due-Sound}

hydrate_heap :
    (k : BarKey) (i : ℕ) (a : Aggregator) (n : ℕ)
    → (hydrate k i a).heap n ≡ (
        if n == i
        then record (a.heap i) { is_final = is_older_than_latest a k.0 k.1 || (a.heap i).is_final }
        else a.heap n)
unfolding hydrate
hydrate_heap k i a n = ground arith

hydrate_rest :
    (k : BarKey) (i : ℕ) (a : Aggregator)
    → ((hydrate k i a).bars ≡ insert k i a.bars)
      × ((hydrate k i a).next ≡ a.next)
      × ((hydrate k i a).newly_finalized ≡ a.newly_finalized)
unfolding hydrate raise_latest
hydrate_rest k i a = ground arith

-- Putting a proper bar under a key keeps the invariant, where no other key holds that bar.
pub hydrate-Sound :
    (k : BarKey) (i : ℕ) (a : Aggregator)
    → Sound a
    → i < a.next
    → IsOhlc (a.heap i)
    → ((j : BarKey) → Entry j i a.bars → j ≡ k)
    → Sound (hydrate k i a)
hydrate-Sound k i a v lt p own = record {
  allocated = λ j n h. ground (arith, hydrate_rest k i a, entry j n h, v.allocated j n);
  unshared =
      λ j q n h g. ground (arith, entry j n h, entry q n g, v.unshared j q n, owner j n, owner q n);
  proper = λ j n h. rw (hydrate_heap k i a n) (proper_at j n (rw ((hydrate_rest k i a).0) at h));
  listed =
      λ j n h. ground (arith, hydrate_rest k i a, v.listed j n (rw ((hydrate_rest k i a).2) at h));
  closed = λ j n h.
      ground (arith, hydrate_heap k i a n, v.closed j n (rw ((hydrate_rest k i a).2) at h));
}
  where
    entry :
        (j : BarKey) (n : ℕ)
        → Entry j n (hydrate k i a).bars
        → ((k ≡ j) × (i ≡ n)) ⊎ Entry j n a.bars
    entry j n h = Entry-insert k i j n a.bars (rw ((hydrate_rest k i a).0) at h)

    owner : (j : BarKey) (n : ℕ) → i ≡ n → Entry j n a.bars → j ≡ k
    owner j n e en = own j (subst (λ m. Entry j m a.bars) (sym e) en)

    proper_at :
        (j : BarKey) (n : ℕ)
        → lookup j (insert k i a.bars) ≡ some n
        → IsOhlc (
            if n == i
            then record (a.heap i) {
              is_final = is_older_than_latest a k.0 k.1 || (a.heap i).is_final;
            }
            else a.heap n)
    proper_at j n h = elim (Bool-cases (n == i)) [
      | inl e ↦ rw e (ground arith)
      | inr e ↦ rw e (v.proper j n (ground (arith, lookup-insert k j i a.bars)))
    ]

-- A hydrated bar is found under its key with its contents; it is final if it was, or if the
-- symbol has a later bucket.
pub hydrate_lem :
    (k : BarKey) (i : ℕ) (a : Aggregator)
    → (lookup k (hydrate k i a).bars ≡ some i)
      × ((hydrate k i a).heap i
          ≡ record (a.heap i) { is_final = is_older_than_latest a k.0 k.1 || (a.heap i).is_final })
hydrate_lem k i a = (
  ground (arith, hydrate_rest k i a, lookup-insert k k i a.bars, key_beq_iff k k),
  ground (arith, hydrate_heap k i a i),
)

-- After `finalized_bars(now)` on a sound aggregator every bar of the mapping whose five minutes are
-- over is final, and still in the mapping or listed as finalized; the aggregator is sound.
pub finalized_bars_lem :
    (now : ℕ) (a : Aggregator) (k : BarKey) (i : ℕ)
    → Sound a
    → lookup k a.bars ≡ some i
    → k.1 + bucket_size ≤ now
    → (((finalized_bars now a).1.heap i).is_final ≡ true)
      × ((lookup k (finalized_bars now a).1.bars ≡ some i)
          ⊎ Entry k i (finalized_bars now a).1.newly_finalized)
      × Sound (finalized_bars now a).1
unfolding finalized_bars
finalized_bars_lem now a k i v h le = (
  close_due_done now a.bars a k i (Entry-lookup k i a.bars h) le,
  (close_due-Closing now a.bars a).kept k i h,
  close_due-Sound now a.bars a v.allocated v,
)

allocate-Sound : (a : Aggregator) (b : BarState) → Sound a → Sound (allocate a b)
unfolding allocate
allocate-Sound a b v = record {
  allocated = λ k i h. ground (arith, v.allocated k i h);
  unshared = v.unshared;
  proper = λ k i h. ground (arith, v.proper k i h, v.allocated k i (Entry-lookup k i a.bars h));
  listed = λ k i h. ground (arith, v.listed k i h);
  closed = λ k i h. ground (arith, v.closed k i h, v.listed k i h);
}

-- A bar that was loaded is put in under its key.
pub restore-Sound :
    (k : BarKey) (a : Aggregator) (b : BarState)
    → Sound a
    → IsOhlc b
    → Sound (hydrate k a.next (allocate a b))
restore-Sound k a b v p =
    hydrate-Sound k a.next (allocate a b) (allocate-Sound a b v) next_lt (new_bar)
      (λ j h. absurd (not_there j h))
  where
    next_lt : a.next < (allocate a b).next
    next_lt = unfold allocate in omega arith

    new_bar : IsOhlc ((allocate a b).heap a.next)
    new_bar = unfold allocate in ground (arith, p)

    not_there : (j : BarKey) → Entry j a.next (allocate a b).bars → ⊥
    not_there j h = unfold allocate in ground (arith, v.allocated j a.next h)

pub pop_finalized_bars-Sound : (a : Aggregator) → Sound a → Sound (pop_finalized_bars a).1
unfolding pop_finalized_bars
pop_finalized_bars-Sound a v = record {
  allocated = v.allocated;
  unshared = v.unshared;
  proper = v.proper;
  listed = λ k i h. elim h [ ];
  closed = λ k i h. elim h [ ];
}

pub clear-Sound : (a : Aggregator) → Sound (clear a)
unfolding clear lookup
clear-Sound a = record {
  allocated = λ k i h. elim h [ ];
  unshared = λ k j i h g. elim h [ ];
  proper = λ k i h. cc;
  listed = λ k i h. elim h [ ];
  closed = λ k i h. elim h [ ];
}
