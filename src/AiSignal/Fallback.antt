-- ===== src/AiSignal/Fallback.antt =====
-- services/ai_signal/src/ai_signal/llm/fallback.py: `StepFailures`, `ModelStep` and
-- `run_fallback`. What the model of a step answers, and the readings of the clock at the step, are
-- arguments; the messages that are sent are left out.
pub mod Order
mod Tests
use Prim.Native.String.{String}
use invest_view.Common.{ℕ, Bool, true, false, Option, none, some, List, [], ◌∷◌, ◌++◌}
use invest_view.AiSignal.RouteHealth.{
  Route, LlmErrorKind, LlmError, RouteHealth, blocked, record_success, record_failure,
}

pub record LlmAttempt : Type 0 where
  pub step : String
  pub attempt_model : String
  pub error : Option LlmErrorKind
  pub raw_content : Option String
  pub adapter : String
  pub cached : Bool

pub record StepFailures : Type 0 where
  pub errors : List (String × LlmErrorKind)
  pub attempts : List LlmAttempt

pub record StepResult (T : Type 0) : Type 0 where
  pub value : T
  pub decided_by : String
  pub model_version : Option String

-- What the port of a route gives.
pub data Answer (T : Type 0) : Type 0 where
  completed : T → String → String → Bool → Answer T
  llm_error : LlmError → Option String → Answer T

-- A step with what it will meet: the clock before the call and after it, and the answer.
pub record ModelStep (T : Type 0) : Type 0 where
  pub name : String
  pub route : Route
  pub decides : String
  pub asked_at : ℕ
  pub answered_at : ℕ
  pub answer : Answer T

-- `_fail`
unfoldable pub fail :
    {T : Type 0} → ModelStep T → LlmErrorKind → Option String → StepFailures → StepFailures
fail s kind raw f = record {
  errors = f.errors ++ (s.name, kind) ∷ [];
  attempts =
      f.attempts
      ++ (record {
        step = s.name;
        attempt_model = s.route.model;
        error = some kind;
        raw_content = raw;
        adapter = s.route.adapter_name;
        cached = false;
      })
        ∷ [];
}

-- The attempt that is kept when the answer is used.
unfoldable pub succeed : {T : Type 0} → ModelStep T → String → Bool → StepFailures → StepFailures
succeed s raw from_cache f = record f {
  attempts =
      f.attempts
      ++ (record {
        step = s.name;
        attempt_model = s.route.model;
        error = none;
        raw_content = some raw;
        adapter = s.route.adapter_name;
        cached = from_cache;
      })
        ∷ [];
}

module _ {T : Type 0} (quota_reset : ℕ → ℕ) where
  -- The call of the port, once the route is found healthy.
  unfoldable pub call_model :
      ModelStep T → RouteHealth × StepFailures → Option (StepResult T) × RouteHealth × StepFailures
  unfolding fail succeed
  call_model s (h, f) = elim s.answer [
    | llm_error e raw ↦
        (none, record_failure quota_reset s.answered_at s.route e h, fail s e.kind raw f)
    | completed output version raw from_cache ↦ (
      some (record { value = output; decided_by = s.decides; model_version = some version }),
      record_success s.route h,
      succeed s raw from_cache f,
    )
  ]

  -- `ModelStep.attempt`
  unfoldable pub attempt :
      ModelStep T → RouteHealth × StepFailures → Option (StepResult T) × RouteHealth × StepFailures
  unfolding call_model
  attempt s (h, f) =
      let (block, h') = blocked s.asked_at s.route h in
      elim block [ some kind ↦ (none, h', fail s kind none f) | none ↦ call_model s (h', f) ]

  unfoldable pub run_steps :
      List (ModelStep T)
      → RouteHealth × StepFailures
      → Option (StepResult T) × RouteHealth × StepFailures
  unfolding attempt
  run_steps [] (h, f) = (none, h, f)
  run_steps (s ∷ steps) (h, f) =
      let (result, h', f') = attempt s (h, f) in
      elim result [ some r ↦ (some r, h', f') | none ↦ run_steps steps (h', f') ]

  -- `run_fallback` starts without failures.
  unfoldable pub run_fallback :
      List (ModelStep T) → RouteHealth → Option (StepResult T) × RouteHealth × StepFailures
  unfolding run_steps
  run_fallback steps h = run_steps steps (h, record { errors = []; attempts = [] })
