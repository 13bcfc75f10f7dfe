-- ===== src/KisIngestion/RateLimiter.antt =====
-- services/kis_ingestion/src/kis_ingestion/poller/rate_limiter.py: `SharedRateLimiter`.
-- Times are natural numbers of one small unit, the float rounding is left out. The clock and the
-- sleep are arguments: the readings of the clock that the rounds of the loop see. The lock makes
-- `acquire` one step.
pub mod Window
pub mod Waiting
mod Tests
use invest_view.Common.{
  ℕ, zero, suc, ◌+◌, ◌-◌, Bool, true, false, ◌||◌, Option, none, some, List, [], ◌∷◌, ◌++◌,
  if◌then◌else◌, leb, ltb, ◌==◌, length,
}

pub record SharedRateLimiter : Type 0 where
  pub max_calls : ℕ
  pub period : ℕ
  pub calls : List ℕ

-- The constructor; `none` is the `ValueError`.
unfoldable pub new_limiter : ℕ → ℕ → Option SharedRateLimiter
new_limiter max_calls period =
    if max_calls == 0 || period == 0
    then none
    else some (record { max_calls = max_calls; period = period; calls = [] })

-- `while self._calls and now - self._calls[0] >= self._period: popleft()`
unfoldable pub evict : ℕ → ℕ → List ℕ → List ℕ
evict period now [] = []
evict period now (c ∷ calls) = if leb period (now - c) then evict period now calls else c ∷ calls

-- One round of the loop at a reading of the clock: the limiter with the call, or the limiter to
-- sleep with.
unfoldable pub acquire_round : ℕ → SharedRateLimiter → Bool × SharedRateLimiter
unfolding evict
acquire_round now l =
    let kept = evict l.period now l.calls in
    if ltb (length kept) l.max_calls
    then (true, record l { calls = kept ++ now ∷ [] })
    else (false, record l { calls = kept })

-- How long a round that found no room sleeps.
unfoldable pub sleep_time : ℕ → SharedRateLimiter → ℕ
sleep_time now l = elim l.calls [ [] ↦ 0 | c ∷ calls ↦ l.period - (now - c) ]

-- `acquire` over the readings of the clock: the time of the call, the limiter and the readings
-- left, or none while it still sleeps.
unfoldable pub acquire : List ℕ → SharedRateLimiter → Option (ℕ × SharedRateLimiter)
unfolding acquire_round
acquire [] l = none
acquire (now ∷ readings) l =
    let (granted, l') = acquire_round now l in
    if granted then some (now, l') else acquire readings l'
