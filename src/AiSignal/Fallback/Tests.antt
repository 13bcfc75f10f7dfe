-- ===== src/AiSignal/Fallback/Tests.antt =====
-- A primary route that is down and a secondary that answers.
use Prim.Native.String.{String}
use invest_view.Common.{ℕ, ◌≡◌, refl, false, none, some, List, [], ◌∷◌, lookup, erase}
use invest_view.AiSignal.RouteHealth.{
  route_eq, timeout, RouteHealth, blocked, record_failure, record_success, server_side, is_quota,
}
use invest_view.AiSignal.Fallback.{
  StepFailures, StepResult, Answer, completed, llm_error, ModelStep, fail, succeed, call_model,
  attempt, run_steps, run_fallback,
}
use invest_view.AiSignal.Fallback.Order.{
  Decided, error_names, run_fallback-Decided, run_fallback_passes,
}

abbrev step : String → Answer ℕ → ModelStep ℕ
step name answer = record {
  name = name;
  route = record { adapter_name = "openrouter"; model = name };
  decides = "llm";
  asked_at = 10;
  answered_at = 11;
  answer = answer;
}

abbrev healthy : RouteHealth
healthy = record { breaker_threshold = 3; breaker_open = 300; blocked_until = []; failures = [] }

abbrev late : Answer ℕ
late = llm_error (record { kind = timeout; status_code = none }) none

abbrev steps : List (ModelStep ℕ)
steps = step "primary" late ∷ step "secondary" (completed 7 "v1" "seven" false) ∷ []

abbrev result : StepResult ℕ
result = record { value = 7; decided_by = "llm"; model_version = some "v1" }

abbrev audit : StepFailures
audit = (run_fallback (λ n. n) steps healthy).2

decided : run_fallback (λ n. n) steps healthy ≡ (some result, healthy, audit)
unfolding run_fallback run_steps attempt call_model fail succeed blocked record_failure
    record_success lookup erase server_side is_quota
decided = refl

run_fallback-Decided_example : Decided steps result (record { errors = []; attempts = [] }) audit
run_fallback-Decided_example =
    run_fallback-Decided (λ n. n) steps result healthy healthy audit decided

abbrev given_up : StepFailures
given_up = (run_fallback (λ n. n) (step "primary" late ∷ []) healthy).2

passed : run_fallback (λ n. n) (step "primary" late ∷ []) healthy ≡ (none, healthy, given_up)
unfolding run_fallback run_steps attempt call_model fail blocked record_failure lookup server_side
    is_quota
passed = refl

run_fallback_passes_example : error_names given_up ≡ "primary" ∷ []
run_fallback_passes_example =
    run_fallback_passes (λ n. n) (step "primary" late ∷ []) healthy healthy given_up passed
