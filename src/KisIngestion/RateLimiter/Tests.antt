-- ===== src/KisIngestion/RateLimiter/Tests.antt =====
-- A limiter of two calls in ten units of time.
use invest_view.Common.{ℕ, ◌+◌, ◌≤◌, ◌≡◌, ◌⊎◌, refl, some, [], ◌∷◌, arith}
use invest_view.KisIngestion.RateLimiter.{
  SharedRateLimiter, new_limiter, evict, acquire_round, acquire, sleep_time,
}
use invest_view.KisIngestion.RateLimiter.Window.{Windowed, new_limiter-Windowed, acquire-Windowed}
use invest_view.KisIngestion.RateLimiter.Waiting.{acquire_returns}

abbrev fresh : SharedRateLimiter
fresh = record { max_calls = 2; period = 10; calls = [] }

abbrev once : SharedRateLimiter
once = record fresh { calls = 5 ∷ [] }

abbrev full : SharedRateLimiter
full = record fresh { calls = 5 ∷ 7 ∷ [] }

fresh_made : new_limiter 2 10 ≡ some fresh
unfolding new_limiter
fresh_made = refl

called_once : acquire (5 ∷ []) fresh ≡ some (5, once)
unfolding acquire acquire_round evict
called_once = refl

-- The third call sleeps from 8 to 15, when the first is a period old.
called_late : acquire (8 ∷ 15 ∷ []) full ≡ some (15, record full { calls = 7 ∷ 15 ∷ [] })
unfolding acquire acquire_round evict
called_late = refl

acquire-Windowed_example : Windowed (5 ∷ []) 5 once
acquire-Windowed_example =
    acquire-Windowed (5 ∷ []) [] 0 5 fresh once (new_limiter-Windowed 2 10 fresh fresh_made)
      (omega arith, tt) called_once

slept : 8 + sleep_time 8 (acquire_round 8 full).1 ≤ 15
unfolding acquire_round evict sleep_time
slept = omega arith

acquire_returns_example :
    (r : ℕ × SharedRateLimiter) × (acquire (8 ∷ 15 ∷ []) full ≡ some r) × ((r.0 ≡ 8) ⊎ (r.0 ≡ 15))
acquire_returns_example =
    acquire_returns 8 15 [] full (omega arith) (omega arith) (omega arith, (omega arith, tt)) slept
