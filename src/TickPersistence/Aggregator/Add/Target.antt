-- ===== src/TickPersistence/Aggregator/Add/Target.antt =====
-- The bar that `add_tick` returns may be put back under its key.
use invest_view.Common.{
  string_eq, ℕ, ◌<◌, ◌≡◌, Bool, arith, Entry, Entry-lookup, Entry-erase, refl, subst, sym,
}
use invest_view.TickPersistence.Bar.{BarState, TickKey}
use invest_view.TickPersistence.Bar.Invariant.{IsOhlc}
use invest_view.TickPersistence.Aggregator.{
  Aggregator, BarKey, Tick, key_eq, tick_key_of, bucket_start, finalize, raise_latest, settle,
  add_tick, hydrate,
}
use invest_view.TickPersistence.Aggregator.Shape.{Sound}
use invest_view.TickPersistence.Aggregator.Recording.{target}
use invest_view.TickPersistence.Aggregator.Hydrate.{hydrate-Sound}
use invest_view.TickPersistence.Aggregator.Add.{
  k, older, recorded, recorded-Sound, recorded_lookup, target_lt, add_tick_run, add_tick-Sound,
  settle_heap,
}

finalize-Entry :
    (q j : BarKey) (i n : ℕ) (a : Aggregator) → Entry j n (finalize q i a).bars → Entry j n a.bars
unfolding finalize
finalize-Entry q j i n a h = ground (arith, Entry-erase q j n a.bars)

settle-Entry :
    (t : Tick) (older : Bool) (i : ℕ) (a : Aggregator) (j : BarKey) (n : ℕ)
    → Entry j n (settle t older i a).bars
    → Entry j n a.bars
unfolding settle raise_latest
settle-Entry t older i a j n h = ground (
  arith,
  finalize-Entry (tick_key_of t) j i n (raise_latest a t.symbol (bucket_start t.trade_at)),
)

settle_next :
    (t : Tick) (older : Bool) (i : ℕ) (a : Aggregator) → (settle t older i a).next ≡ a.next
unfolding settle raise_latest finalize
settle_next t older i a = ground arith

flagged-IsOhlc : (b : BarState) (f : Bool) → IsOhlc b → IsOhlc (record b { is_final = f })
flagged-IsOhlc b f h = ground arith

module _ (t : Tick) (key : TickKey) (a : Aggregator) (v : Sound a) where
  after : Aggregator
  after = settle t (older t key a v) (target a (tick_key_of t)) (recorded t key a v)

  after-path : (add_tick t key a).1 ≡ after
  unfolding after k
  after-path = rw (add_tick_run t key a v) refl

  target-owner : (j : BarKey) → Entry j (target a (tick_key_of t)) after.bars → j ≡ tick_key_of t
  unfolding after k
  target-owner j h =
      (recorded-Sound t key a v).unshared j (tick_key_of t) (target a (tick_key_of t))
        (settle-Entry t (older t key a v) (target a (tick_key_of t)) (recorded t key a v) j
          (target a (tick_key_of t)) h)
        (Entry-lookup (tick_key_of t) (target a (tick_key_of t)) (recorded t key a v).bars
          (recorded_lookup t key a v))

  target-IsOhlc : IsOhlc (after.heap (target a (tick_key_of t)))
  unfolding after k
  target-IsOhlc = ground (
    arith,
    settle_heap t (older t key a v) (target a (tick_key_of t)) (recorded t key a v)
        (target a (tick_key_of t)),
    (recorded-Sound t key a v).proper (tick_key_of t) (target a (tick_key_of t))
        (recorded_lookup t key a v),
  )

  target_allocated : target a (tick_key_of t) < after.next
  unfolding after k
  target_allocated = ground (
    arith,
    settle_next t (older t key a v) (target a (tick_key_of t)) (recorded t key a v),
    target_lt t key a v,
  )

  after-Sound : Sound after
  after-Sound = subst Sound after-path (add_tick-Sound t key a v).1

  -- Putting the tick's bar back under its key, as the handler does for a closed bucket that gets
  -- more ticks, keeps the invariant.
  pub rehydrate-Sound :
      Sound (hydrate (tick_key_of t) (target a (tick_key_of t)) (add_tick t key a).1)
  rehydrate-Sound =
      subst (λ b. Sound (hydrate (tick_key_of t) (target a (tick_key_of t)) b)) (sym after-path)
        (hydrate-Sound (tick_key_of t) (target a (tick_key_of t)) after after-Sound target_allocated
          target-IsOhlc target-owner)
