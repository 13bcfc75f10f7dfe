-- ===== src/TickPersistence/Aggregator/Bucket.antt =====
-- The five-minute bucket of a time.
use invest_view.Common.{ℕ, ◌+◌, ◌-◌, ◌%◌, ◌≤◌, ◌<◌, ◌≡◌, arith}
use invest_view.TickPersistence.Aggregator.{bucket_start, bucket_size}

pub bucket_start-eq-mod : (t : ℕ) → bucket_start t ≡ t - t % bucket_size
unfolding bucket_start
bucket_start-eq-mod t = omega arith

-- A time lies in its bucket of five minutes, and a bucket starts at a multiple of five minutes.
pub bucket_start_bounds :
    (t : ℕ)
    → (bucket_start t ≤ t) × (t < bucket_start t + bucket_size) × (bucket_start t % bucket_size ≡ 0)
bucket_start_bounds t = omega (arith, bucket_start-eq-mod t)
