-- ===== src/TickPersistence/Aggregator/Tests.antt =====
-- Runs of the aggregator, and its theorems at concrete ticks.
use Prim.Native.String.{String}
use invest_view.Common.{
  str_beq, ℕ, ◌+◌, ◌≤◌, ◌<◌, ◌%◌, ◌≡◌, ◌⊎◌, refl, true, false, ◌||◌, arith, none, some, [], ◌∷◌,
  pos, lookup, insert, erase, Entry, min_ℤ, max_ℤ,
}
use invest_view.TickPersistence.Bar.{
  TickKey, BarState, ok, from_tick, add_tick as add_to_bar, key_lt, assign_tick, ensure_invariants,
}
use invest_view.TickPersistence.Aggregator.{
  Aggregator, Tick, key_eq, init, add_tick, bucket_start, bucket_size, tick_key_of, input_of,
  is_older_than_latest, is_prior, finalize, key_beq, key_beq_iff, hydrate, close_prior,
  finalized_bars,
}
use invest_view.TickPersistence.Aggregator.Bucket.{bucket_start_bounds}
use invest_view.TickPersistence.Aggregator.Shape.{Sound, init-Sound}
use invest_view.TickPersistence.Aggregator.Recording.{target, absorbed}
use invest_view.TickPersistence.Aggregator.Add.{
  add_tick-Sound, add_tick_bar, add_tick_kept, add_tick_frame, add_tick_closes,
}
use invest_view.TickPersistence.Aggregator.Hydrate.{hydrate-Sound, finalized_bars_lem}

abbrev tick_of : String → ℕ → Tick
tick_of symbol time = record {
  symbol = symbol;
  trade_at = time;
  price = pos 700;
  amount = pos 10;
  vwap = none;
}

abbrev key_of : ℕ → TickKey
key_of time = record { event_ts = time; partition = pos 0; offset = pos time }

abbrev blank : BarState
blank = record {
  open_price = pos 0;
  high = pos 0;
  low = pos 0;
  close = pos 0;
  volume = pos 0;
  vwap_last = none;
  tick_count = 0;
  open_key = key_of 0;
  close_key = key_of 0;
  is_final = false;
}

-- One tick of the bucket 32400 (09:00).
abbrev opened : Aggregator
opened = (add_tick (tick_of "005930" 32461) (key_of 1) (init blank)).1

opened-Sound : Sound opened
opened-Sound =
    (add_tick-Sound (tick_of "005930" 32461) (key_of 1) (init blank) (init-Sound blank)).1

opened_bucket : bucket_start 32461 ≡ 32400
unfolding bucket_start
opened_bucket = refl

bucket_start_bounds_example :
    (bucket_start 32461 ≤ 32461)
    × (32461 < bucket_start 32461 + bucket_size)
    × (bucket_start 32461 % bucket_size ≡ 0)
bucket_start_bounds_example = bucket_start_bounds 32461

opened_lookup : lookup ("005930", bucket_start 32461) opened.bars ≡ some 0
unfolding add_tick lookup init key_beq bucket_start close_prior from_tick insert str_beq
opened_lookup = refl

-- The next tick is of the next bucket, so the bar of the first is finalized.
abbrev moved : Aggregator
moved = (add_tick (tick_of "005930" 32701) (key_of 2) opened).1

moved_finalized : moved.newly_finalized ≡ (("005930", bucket_start 32461), 0) ∷ []
unfolding add_tick lookup init key_beq str_beq bucket_start close_prior from_tick insert finalize
    erase
moved_finalized = refl

add_tick-Sound_example :
    ((add_tick (tick_of "005930" 32701) (key_of 2) opened).0
      ≡ ok (target opened (tick_key_of (tick_of "005930" 32701))))
    × Sound (add_tick (tick_of "005930" 32701) (key_of 2) opened).1
add_tick-Sound_example = add_tick-Sound (tick_of "005930" 32701) (key_of 2) opened opened-Sound

add_tick_bar_example :
    (add_tick (tick_of "005930" 32461) (key_of 3) opened).1.heap
      (target opened (tick_key_of (tick_of "005930" 32461)))
    ≡ record (absorbed
        (input_of (tick_of "005930" 32461) (key_of 3))
        (is_older_than_latest opened "005930" (bucket_start 32461))
        opened
        (tick_key_of (tick_of "005930" 32461))) {
          is_final =
              is_older_than_latest opened "005930" (bucket_start 32461)
              || (absorbed
                  (input_of (tick_of "005930" 32461) (key_of 3))
                  (is_older_than_latest opened "005930" (bucket_start 32461))
                  opened
                  (tick_key_of (tick_of "005930" 32461))).is_final;
        }
add_tick_bar_example = add_tick_bar (tick_of "005930" 32461) (key_of 3) opened opened-Sound

add_tick_kept_example :
    (lookup ("005930", bucket_start 32461) moved.bars ≡ some 0)
    ⊎ Entry ("005930", bucket_start 32461) 0 moved.newly_finalized
add_tick_kept_example =
    add_tick_kept (tick_of "005930" 32701) (key_of 2) opened opened-Sound
      ("005930", bucket_start 32461) 0 opened_lookup

-- A tick of another symbol leaves the bar alone.
add_tick_frame_example :
    (lookup
        ("005930", bucket_start 32461)
        (add_tick (tick_of "000660" 32701) (key_of 2) opened).1.bars
      ≡ some 0)
    × ((add_tick (tick_of "000660" 32701) (key_of 2) opened).1.heap 0 ≡ opened.heap 0)
unfolding is_prior str_beq key_beq bucket_start
add_tick_frame_example =
    add_tick_frame (tick_of "000660" 32701) (key_of 2) opened opened-Sound
      ("005930", bucket_start 32461) 0 refl (λ e. cc ((key_beq_iff _ _).1 e)) opened_lookup

-- The stored bar of an earlier bucket that was final already stays under its key.
abbrev rehydrated : Aggregator
rehydrated = hydrate ("005930", bucket_start 32461) 0 moved

moved-Sound : Sound moved
moved-Sound = (add_tick-Sound (tick_of "005930" 32701) (key_of 2) opened opened-Sound).1

rehydrated_bars :
    rehydrated.bars ≡ (("005930", bucket_start 32701), 1) ∷ (("005930", bucket_start 32461), 0) ∷ []
unfolding add_tick lookup init key_beq str_beq bucket_start close_prior from_tick insert finalize
    erase hydrate
rehydrated_bars = refl

rehydrated-Sound : Sound rehydrated
unfolding add_tick lookup init key_beq str_beq bucket_start close_prior from_tick insert finalize
    erase
rehydrated-Sound =
    hydrate-Sound ("005930", bucket_start 32461) 0 moved moved-Sound (omega arith) (omega arith)
      (λ j h. ground arith)

add_tick_closes_example :
    ((add_tick (tick_of "005930" 32702) (key_of 3) rehydrated).1.heap 0).is_final ≡ true
unfolding is_prior str_beq key_beq bucket_start add_tick lookup init close_prior from_tick insert
    finalize erase hydrate add_to_bar assign_tick key_lt ensure_invariants min_ℤ max_ℤ
add_tick_closes_example =
    add_tick_closes (tick_of "005930" 32702) (key_of 3) rehydrated rehydrated-Sound
      ("005930", bucket_start 32461) 0 refl refl

finalized_bars_lem_example :
    (((finalized_bars 32700 opened).1.heap 0).is_final ≡ true)
    × ((lookup ("005930", bucket_start 32461) (finalized_bars 32700 opened).1.bars ≡ some 0)
        ⊎ Entry ("005930", bucket_start 32461) 0 (finalized_bars 32700 opened).1.newly_finalized)
    × Sound (finalized_bars 32700 opened).1
unfolding bucket_start
finalized_bars_lem_example =
    finalized_bars_lem 32700 opened ("005930", bucket_start 32461) 0 opened-Sound opened_lookup
      (omega arith)
