-- ===== src/AiSignal/RouteHealth/Tests.antt =====
-- Three failures of a route under a breaker of three.
use invest_view.Common.{◌≡◌, refl, none, some, [], ◌∷◌, arith, lookup}
use invest_view.AiSignal.RouteHealth.{
  Route, route_eq, LlmError, unavailable, http, RouteHealth, blocked, record_failure, server_side,
  get_or_zero,
}
use invest_view.AiSignal.RouteHealth.Breaker.{record_failures, breaker_opens, breaker_stays_closed}

abbrev route : Route
route = record { adapter_name = "openrouter"; model = "nvidia/x:free" }

abbrev health : RouteHealth
health = record { breaker_threshold = 3; breaker_open = 300; blocked_until = []; failures = [] }

abbrev down : LlmError
down = record { kind = unavailable; status_code = none }

abbrev broken : LlmError
broken = record { kind = http; status_code = some 503 }

breaker_opens_example :
    (blocked 250 route (
      record_failure
        (λ n. n)
        12
        route
        down
        (record_failures (λ n. n) route ((10, down) ∷ (11, broken) ∷ []) health))).0
    ≡ some unavailable
unfolding server_side
breaker_opens_example =
    breaker_opens (λ n. n) route ((10, down) ∷ (11, broken) ∷ []) 12 down health 250
      (refl, (refl, tt)) refl (omega arith) (omega arith)

breaker_stays_closed_example :
    (blocked 12 route (record_failures (λ n. n) route ((10, down) ∷ (11, broken) ∷ []) health)).0
    ≡ none
unfolding server_side lookup get_or_zero
breaker_stays_closed_example =
    breaker_stays_closed (λ n. n) route ((10, down) ∷ (11, broken) ∷ []) health 12
      (refl, (refl, tt)) refl (omega arith)
