-- ===== src/AiSignal/RouteHealth.antt =====
-- services/ai_signal/src/ai_signal/llm/routing.py: `RouteHealth`. Times are natural numbers; the
-- reading of the clock and the next reset of a quota are arguments.
pub mod Breaker
mod Tests
use Prim.Native.String.{String}
use invest_view.Common.{
  ℕ, suc, ◌+◌, ◌≡◌, ◌↔◌, Bool, true, false, ◌&&◌, Option, none, some, arith, if◌then◌else◌, Eq,
  Dict, lookup, insert, erase, str_beq, str_beq_iff, leb,
}

pub record Route : Type 0 where
  pub adapter_name : String
  pub model : String

unfoldable pub route_beq : Route → Route → Bool
route_beq r s = str_beq r.adapter_name s.adapter_name && str_beq r.model s.model

pub route_beq_iff : (r s : Route) → (route_beq r s ≡ true) ↔ (r ≡ s)
unfolding route_beq
route_beq_iff r s =
    ground (arith, str_beq_iff r.adapter_name s.adapter_name, str_beq_iff r.model s.model)

instance abbrev pub route_eq : Eq Route
route_eq = record { beq = route_beq; beq_iff = route_beq_iff }

pub data LlmErrorKind : Type 0 where
  timeout rate_limit quota_exhausted unavailable schema empty_answer http : LlmErrorKind

pub record LlmError : Type 0 where
  pub kind : LlmErrorKind
  pub status_code : Option ℕ

pub record RouteHealth : Type 0 where
  pub breaker_threshold : ℕ
  pub breaker_open : ℕ
  pub blocked_until : Dict Route (ℕ × LlmErrorKind)
  pub failures : Dict Route ℕ

-- `blocked` at a reading of the clock: a block that is over is forgotten with its failures.
unfoldable pub blocked : ℕ → Route → RouteHealth → Option LlmErrorKind × RouteHealth
blocked now route h = elim (lookup route h.blocked_until) [
  | none ↦ (none, h)
  | some (until, kind) ↦
      if leb until now
      then (
        none,
        record h { blocked_until = erase route h.blocked_until; failures = erase route h.failures },
      )
      else (some kind, h)
]

unfoldable pub record_success : Route → RouteHealth → RouteHealth
record_success route h = record h { failures = erase route h.failures }

unfoldable pub server_side : LlmError → Bool
server_side error = elim error.kind [
  | timeout ↦ false
  | rate_limit ↦ false
  | quota_exhausted ↦ false
  | unavailable ↦ true
  | schema ↦ false
  | empty_answer ↦ false
  | http ↦ elim error.status_code [ none ↦ false | some code ↦ leb 500 code ]
]

unfoldable pub is_quota : LlmErrorKind → Bool
is_quota timeout = false
is_quota rate_limit = false
is_quota quota_exhausted = true
is_quota unavailable = false
is_quota schema = false
is_quota empty_answer = false
is_quota http = false

unfoldable pub get_or_zero : Option ℕ → ℕ
get_or_zero none = 0
get_or_zero (some n) = n

-- The branch of a failure on the server's side.
unfoldable pub count_failure : ℕ → Route → RouteHealth → RouteHealth
unfolding get_or_zero
count_failure now route h =
    let count = suc (get_or_zero (lookup route h.failures)) in
    let counted = record h { failures = insert route count h.failures } in
    if leb h.breaker_threshold count
    then record counted {
      blocked_until = insert route (now + h.breaker_open, unavailable) h.blocked_until;
    }
    else counted

unfoldable pub record_failure : (ℕ → ℕ) → ℕ → Route → LlmError → RouteHealth → RouteHealth
unfolding is_quota server_side count_failure
record_failure quota_reset now route error h =
    if is_quota error.kind
    then record h { blocked_until = insert route (quota_reset now, error.kind) h.blocked_until }
    else if server_side error
    then count_failure now route h
    else h
