-- ===== src/AiSignal/RouteHealth/Breaker.antt =====
-- The breaker opens after `breaker_threshold` failures in a row, and closes when its time is over.
use invest_view.Common.{
  ℕ, suc, ◌+◌, ◌≤◌, ◌<◌, ◌≡◌, refl, true, false, none, some, List, [], ◌∷◌, arith, if◌then◌else◌,
  lookup, lookup-insert, leb, length, All,
}
use invest_view.AiSignal.RouteHealth.{
  Route, route_eq, route_beq_iff, LlmError, unavailable, RouteHealth, blocked, server_side,
  is_quota, get_or_zero, count_failure, record_failure,
}

-- Failures of one route, with the reading of the clock at each.
unfoldable pub record_failures : (ℕ → ℕ) → Route → List (ℕ × LlmError) → RouteHealth → RouteHealth
record_failures quota_reset route [] h = h
record_failures quota_reset route ((now, error) ∷ errors) h =
    record_failures quota_reset route errors (record_failure quota_reset now route error h)

-- A failure on the server's side that is no exhausted quota.
abbrev pub Breaking : ℕ × LlmError → Type 0
Breaking (now, error) = server_side error ≡ true

Breaking-not_quota : (e : LlmError) → server_side e ≡ true → is_quota e.kind ≡ false
unfolding server_side is_quota
Breaking-not_quota e h = ground arith

-- How many failures of the route are counted.
abbrev pub count_at : Route → RouteHealth → ℕ
count_at route h = get_or_zero (lookup route h.failures)

breaking_failure :
    (quota_reset : ℕ → ℕ) (now : ℕ) (route : Route) (error : LlmError) (h : RouteHealth)
    → server_side error ≡ true
    → record_failure quota_reset now route error h ≡ count_failure now route h
unfolding record_failure
breaking_failure quota_reset now route error h b = ground (arith, Breaking-not_quota error b)

count_failure_lem :
    (now : ℕ) (route : Route) (h : RouteHealth)
    → (count_at route (count_failure now route h) ≡ suc (count_at route h))
      × ((count_failure now route h).breaker_open ≡ h.breaker_open)
      × ((count_failure now route h).breaker_threshold ≡ h.breaker_threshold)
      × (lookup route (count_failure now route h).blocked_until ≡ (
          if leb h.breaker_threshold (suc (count_at route h))
          then some (now + h.breaker_open, unavailable)
          else lookup route h.blocked_until))
unfolding count_failure get_or_zero
count_failure_lem now route h = ground (
  arith,
  lookup-insert route route (suc (count_at route h)) h.failures,
  lookup-insert route route (now + h.breaker_open, unavailable) h.blocked_until,
  route_beq_iff route route,
)

module _ (quota_reset : ℕ → ℕ) (route : Route) where
  -- Each failure of the run is counted, and while they are too few nothing is blocked.
  record_failures_lem :
      (errors : List (ℕ × LlmError)) (h : RouteHealth)
      → All Breaking errors
      → let h' = record_failures quota_reset route errors h in
        (count_at route h' ≡ count_at route h + length errors)
        × (h'.breaker_open ≡ h.breaker_open)
        × (h'.breaker_threshold ≡ h.breaker_threshold)
  unfolding record_failures
  record_failures_lem [] h b = (omega arith, refl, refl)
  record_failures_lem ((now, error) ∷ errors) h b =
      let (c, o, t) =
        record_failures_lem errors (record_failure quota_reset now route error h) b.1 in
      ground (
        arith,
        c,
        o,
        t,
        breaking_failure quota_reset now route error h b.0,
        count_failure_lem now route h,
      )

  -- A run of failures on the server's side, as long as the threshold, opens the breaker: until
  -- its time is over the route is blocked as unavailable.
  pub breaker_opens :
      (errors : List (ℕ × LlmError)) (now : ℕ) (error : LlmError) (h : RouteHealth) (later : ℕ)
      → All Breaking errors
      → server_side error ≡ true
      → h.breaker_threshold ≤ suc (length errors)
      → later < now + h.breaker_open
      → (blocked later route (
          record_failure quota_reset now route error
            (record_failures quota_reset route errors h))).0
        ≡ some unavailable
  unfolding blocked
  breaker_opens errors now error h later b e long early =
      let h' = record_failures quota_reset route errors h in
      let (c, o, t) = record_failures_lem errors h b in
      ground (
        arith,
        c,
        o,
        t,
        breaking_failure quota_reset now route error h' e,
        count_failure_lem now route h',
      )

  free_after :
      (errors : List (ℕ × LlmError)) (h : RouteHealth)
      → All Breaking errors
      → lookup route h.blocked_until ≡ none
      → count_at route h + length errors < h.breaker_threshold
      → lookup route (record_failures quota_reset route errors h).blocked_until ≡ none
  unfolding record_failures
  free_after [] h b free short = free
  free_after ((now, error) ∷ errors) h b free short =
      let h' = record_failure quota_reset now route error h in
      free_after errors h' b.1
        (ground (
          arith,
          breaking_failure quota_reset now route error h b.0,
          count_failure_lem now route h,
        ))
        (ground (
          arith,
          breaking_failure quota_reset now route error h b.0,
          count_failure_lem now route h,
        ))

  -- A run of failures that stays below the threshold, the counted ones included, blocks nothing.
  pub breaker_stays_closed :
      (errors : List (ℕ × LlmError)) (h : RouteHealth) (later : ℕ)
      → All Breaking errors
      → lookup route h.blocked_until ≡ none
      → count_at route h + length errors < h.breaker_threshold
      → (blocked later route (record_failures quota_reset route errors h)).0 ≡ none
  unfolding blocked
  breaker_stays_closed errors h later b free short =
      ground (arith, free_after errors h b free short)
