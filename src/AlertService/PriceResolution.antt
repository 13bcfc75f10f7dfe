-- ===== src/AlertService/PriceResolution.antt =====
-- services/alert_service/src/alert_service/api/price_resolution.py. A time is the number of
-- microseconds of UTC, a timedelta of the same unit; a day of trading is given with the time at
-- which it closes. The fields that are only passed on are one value.
use Prim.Native.String.{String}
use invest_view.Common.{
  ℕ, ◌+◌, ◌*◌, ◌≤◌, ◌≡◌, Bool, true, false, ◌&&◌, Option, none, some, if◌then◌else◌, leb, ℤ, arith,
  Option-cases, inl, inr,
}

abbrev pub second : ℕ
second = 1000000

abbrev pub clock_skew_tolerance_seconds : ℕ
clock_skew_tolerance_seconds = 30

-- A row of the snapshots; `rest` stands for the change, the volume and the other fields.
pub record Snapshot (R : Type 0) : Type 0 where
  pub symbol : String
  pub last_price : Option ℤ
  pub updated_at : Option ℕ
  pub rest : R

pub record Daily : Type 0 where
  pub daily_symbol : String
  pub close : Option ℤ
  pub trade_date : ℕ

pub data Source : Type 0 where
  realtime_snapshot daily_close no_source : Source

pub record Resolved (R : Type 0) : Type 0 where
  pub symbol : Option String
  pub price : Option ℤ
  pub source : Source
  pub as_of : Option ℕ
  pub is_realtime : Bool
  pub is_stale : Bool
  pub details : Option R

unfoldable pub is_snapshot_fresh : Option ℕ → Option ℤ → ℕ → ℕ → Bool
is_snapshot_fresh updated_at none now ttl_seconds = false
is_snapshot_fresh none (some price) now ttl_seconds = false
is_snapshot_fresh (some updated_at) (some price) now ttl_seconds =
    leb updated_at (now + clock_skew_tolerance_seconds * second)
    && leb now (updated_at + ttl_seconds * second)

module _ {R : Type 0} (daily_close_as_of : ℕ → ℕ) where
  -- `snapshot is not None`
  unfoldable pub snapshot_exists : Option (Snapshot R) → Bool
  snapshot_exists none = false
  snapshot_exists (some s) = true

  unfoldable pub symbol_of : Option (Snapshot R) → Option String
  symbol_of none = none
  symbol_of (some s) = some s.symbol

  -- The answer where there is no price.
  unfoldable pub no_price : Option (Snapshot R) → Resolved R
  unfolding snapshot_exists symbol_of
  no_price snapshot = record {
    symbol = symbol_of snapshot;
    price = none;
    source = no_source;
    as_of = none;
    is_realtime = false;
    is_stale = snapshot_exists snapshot;
    details = none;
  }

  unfoldable pub close_price : Option (Snapshot R) → Daily → ℤ → Resolved R
  unfolding snapshot_exists
  close_price snapshot d close = record {
    symbol = some d.daily_symbol;
    price = some close;
    source = daily_close;
    as_of = some (daily_close_as_of d.trade_date);
    is_realtime = false;
    is_stale = snapshot_exists snapshot;
    details = none;
  }

  -- The answer without a fresh snapshot.
  unfoldable pub resolve_stale : Option (Snapshot R) → Option Daily → Resolved R
  unfolding no_price close_price
  resolve_stale snapshot daily = elim daily [
    | none ↦ no_price snapshot
    | some d ↦ elim d.close [ none ↦ no_price snapshot | some close ↦ close_price snapshot d close ]
  ]

  unfoldable pub resolve_price : Option (Snapshot R) → Option Daily → ℕ → ℕ → Resolved R
  unfolding is_snapshot_fresh
  resolve_price none daily now ttl_seconds = resolve_stale none daily
  resolve_price (some s) daily now ttl_seconds =
      if is_snapshot_fresh s.updated_at s.last_price now ttl_seconds
      then record {
        symbol = some s.symbol;
        price = s.last_price;
        source = realtime_snapshot;
        as_of = s.updated_at;
        is_realtime = true;
        is_stale = false;
        details = some s.rest;
      }
      else resolve_stale (some s) daily

  resolve_stale-realtime :
      (snapshot : Option (Snapshot R)) (daily : Option Daily)
      → (resolve_stale snapshot daily).is_realtime ≡ false
  unfolding resolve_stale
  resolve_stale-realtime snapshot daily = ground arith

  fresh_of :
      (s : Snapshot R) (daily : Option Daily) (now ttl_seconds t : ℕ) (p : ℤ)
      → s.updated_at ≡ some t
      → s.last_price ≡ some p
      → (resolve_price (some s) daily now ttl_seconds).is_realtime ≡ true
      → (leb t (now + clock_skew_tolerance_seconds * second) && leb now (t + ttl_seconds * second))
        ≡ true
  unfolding resolve_price
  fresh_of s daily now ttl_seconds t p e e' h =
      ground (arith, e, e', h, resolve_stale-realtime (some s) daily)

  -- A price that is called real-time has an age of at most the time to live, and is no further in
  -- the future than the tolerance.
  resolve_price_lem :
      (snapshot : Option (Snapshot R)) (daily : Option Daily) (now ttl_seconds : ℕ)
      → (resolve_price snapshot daily now ttl_seconds).is_realtime ≡ true
      → (t : ℕ) × (p : ℤ) × ((resolve_price snapshot daily now ttl_seconds).as_of ≡ some t)
        × ((resolve_price snapshot daily now ttl_seconds).price ≡ some p)
        × (t ≤ now + clock_skew_tolerance_seconds * second)
        × (now ≤ t + ttl_seconds * second)
  unfolding resolve_price
  resolve_price_lem none daily now ttl_seconds h =
      absurd (ground (arith, h, resolve_stale-realtime none daily))
  resolve_price_lem (some s) daily now ttl_seconds h = elim (Option-cases s.updated_at) [
    | inl unknown ↦ absurd (ground (arith, unknown, h, resolve_stale-realtime (some s) daily))
    | inr (t, e) ↦ elim (Option-cases s.last_price) [
      | inl unpriced ↦ absurd (ground (arith, unpriced, h, resolve_stale-realtime (some s) daily))
      | inr (p, e') ↦
          let fresh = fresh_of s daily now ttl_seconds t p e e' h in
          (
            t,
            p,
            ground (arith, e, e', fresh),
            ground (arith, e, e', fresh),
            ground (arith, e, e', fresh),
            ground (arith, e, e', fresh),
          )
    ]
  ]
