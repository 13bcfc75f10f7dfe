-- ===== src/KisIngestion/RateLimiter/Waiting.antt =====
-- `acquire` does not sleep forever: one sleep makes room.
use invest_view.Common.{
  ℕ, suc, ◌+◌, ◌-◌, ◌≤◌, ◌≡◌, ◌⊎◌, inl, inr, refl, some, List, [], ◌∷◌, ◌++◌, arith, ltb, length,
  All, Bool-cases,
}
use invest_view.KisIngestion.RateLimiter.{
  SharedRateLimiter, evict, acquire_round, acquire, sleep_time,
}

length-evict_le : (period now : ℕ) (calls : List ℕ) → length (evict period now calls) ≤ length calls
unfolding evict
length-evict_le period now [] = omega arith
length-evict_le period now (c ∷ calls) = ground (arith, length-evict_le period now calls)

-- After the sleep that the oldest call asks for, that call is evicted.
evict_oldest :
    (period now now' c : ℕ) (calls : List ℕ)
    → c ≤ now
    → now + (period - (now - c)) ≤ now'
    → length (evict period now' (c ∷ calls)) ≤ length calls
unfolding evict
evict_oldest period now now' c calls h slept = ground (arith, length-evict_le period now' calls)

-- The calls that are kept at `now` were made by `now`.
evict-All :
    (period now : ℕ) (calls : List ℕ)
    → All (λ c. c ≤ now) calls
    → All (λ c. c ≤ now) (evict period now calls)
unfolding evict
evict-All period now [] h = tt
evict-All period now (c ∷ calls) h = ground (arith, evict-All period now calls h.1)

-- Among calls that were made by `now`, there is room once the oldest has been slept out.
room_after :
    (now now' max_calls period : ℕ) (calls : List ℕ)
    → 1 ≤ max_calls
    → length calls ≤ max_calls
    → All (λ c. c ≤ now) calls
    → now + sleep_time now (record { max_calls = max_calls; period = period; calls = calls }) ≤ now'
    → suc (length (evict period now' calls)) ≤ max_calls
unfolding sleep_time
room_after now now' n period [] pos sized past slept = unfold evict in pos
room_after now now' n period (c ∷ calls) pos sized past slept =
    omega (arith, evict_oldest period now now' c calls past.0 slept)

-- The limiter that a round leaves when it finds no room.
abbrev waiting : ℕ → SharedRateLimiter → SharedRateLimiter
waiting now l = record l { calls = evict l.period now l.calls }

-- A call whose round finds no room is let through by the next round, where the clock has moved on
-- by at least the time that it slept: `acquire` returns after one sleep at most.
pub acquire_returns :
    (now now' : ℕ) (readings : List ℕ) (l : SharedRateLimiter)
    → 1 ≤ l.max_calls
    → length l.calls ≤ l.max_calls
    → All (λ c. c ≤ now) l.calls
    → now + sleep_time now (acquire_round now l).1 ≤ now'
    → (r : ℕ × SharedRateLimiter) × (acquire (now ∷ now' ∷ readings) l ≡ some r)
      × ((r.0 ≡ now) ⊎ (r.0 ≡ now'))
unfolding acquire acquire_round
acquire_returns now now' readings l pos sized past slept =
    elim (Bool-cases (ltb (length (evict l.period now l.calls)) l.max_calls)) [
      | inl room ↦ (
        (now, record l { calls = evict l.period now l.calls ++ now ∷ [] }),
        ground (arith, room),
        inl refl,
      )
      | inr full ↦
          let kept = evict l.period now l.calls in
          let room' =
            room_after now now' l.max_calls l.period kept pos
              (omega (arith, length-evict_le l.period now l.calls))
              (evict-All l.period now l.calls past) (ground (arith, full)) in
          (
            (now', record l { calls = evict l.period now' kept ++ now' ∷ [] }),
            ground (arith, full, room'),
            inr refl,
          )
    ]
