-- ===== src/AiSignal/Fallback/Order.antt =====
-- The steps are tried in order, up to the first that gives a result, and each is kept for audit.
use Prim.Native.String.{String}
use invest_view.Common.{
  ℕ, ◌≡◌, ◌⊎◌, inl, inr, refl, Bool, Option, none, some, List, [], ◌∷◌, ◌++◌, arith, map,
  Option-cases, ◌∙◌, ap, sym,
}
use invest_view.AiSignal.RouteHealth.{LlmErrorKind, LlmError, RouteHealth, blocked}
use invest_view.AiSignal.Fallback.{
  StepFailures, StepResult, Answer, completed, llm_error, ModelStep, fail, succeed, call_model,
  attempt, run_steps, run_fallback,
}

-- The steps up to the one that gave the result: `before` passed, `last` answered with `value`.
pub record Decided {T : Type 0} (steps : List (ModelStep T)) (r : StepResult T)
    (f f' : StepFailures) : Type 0 where
  pub before : List (ModelStep T)
  pub last : ModelStep T
  pub after : List (ModelStep T)
  pub split : steps ≡ before ++ last ∷ after
  pub answered :
      (version raw : String) × (from_cache : Bool) × (last.answer
        ≡ completed r.value version raw from_cache)
  pub named : r.decided_by ≡ last.decides
  pub errors_in_order :
      map (λ e. e.0) f'.errors ≡ map (λ e. e.0) f.errors ++ map (λ s. s.name) before

-- The names of the errors that were recorded, in order.
abbrev pub error_names : StepFailures → List String
error_names f = map (λ e. e.0) f.errors

snoc_append : {A : Type 0} (xs ys : List A) (y : A) → (xs ++ y ∷ []) ++ ys ≡ xs ++ y ∷ ys
snoc_append [] ys y = refl
snoc_append (x ∷ xs) ys y = ap (λ l. x ∷ l) (snoc_append xs ys y)

map-snoc :
    (es : List (String × LlmErrorKind)) (n : String) (k : LlmErrorKind)
    → map (λ e. e.0) (es ++ (n, k) ∷ []) ≡ map (λ e. e.0) es ++ n ∷ []
map-snoc [] n k = refl
map-snoc (e ∷ es) n k = ap (λ l. e.0 ∷ l) (map-snoc es n k)

append_nil : {A : Type 0} (xs : List A) → xs ≡ xs ++ []
append_nil [] = refl
append_nil (x ∷ xs) = ap (λ l. x ∷ l) (append_nil xs)

answer_cases :
    {T : Type 0} (a : Answer T)
    → ((error : LlmError) × (raw : Option String) × (a ≡ llm_error error raw))
      ⊎ ((v : T) × (version raw : String) × (c : Bool) × (a ≡ completed v version raw c))
answer_cases (llm_error error raw) = inl (error, raw, refl)
answer_cases (completed v version raw c) = inr (v, version, raw, c, refl)

module _ {T : Type 0} (quota_reset : ℕ → ℕ) where
  attempt_passes :
      (s : ModelStep T) (h h' : RouteHealth) (f f' : StepFailures)
      → attempt quota_reset s (h, f) ≡ (none, h', f')
      → error_names f' ≡ error_names f ++ s.name ∷ []
  unfolding attempt call_model fail
  attempt_passes s h h' f f' e = elim (Option-cases (blocked s.asked_at s.route h).0) [
    | inr (kind, b) ↦ ground (arith, b, map-snoc f.errors s.name kind)
    | inl free ↦ elim (answer_cases s.answer) [
      | inl (error, raw, a) ↦ ground (arith, free, a, map-snoc f.errors s.name error.kind)
      | inr (v, version, raw, c, a) ↦ absurd (ground (arith, free, a))
    ]
  ]

  attempt_decides :
      (s : ModelStep T) (r : StepResult T) (h h' : RouteHealth) (f f' : StepFailures)
      → attempt quota_reset s (h, f) ≡ (some r, h', f')
      → (error_names f' ≡ error_names f)
        × (r.decided_by ≡ s.decides)
        × ((version raw : String) × (c : Bool) × (s.answer ≡ completed r.value version raw c))
  unfolding attempt call_model succeed
  attempt_decides s r h h' f f' e = elim (Option-cases (blocked s.asked_at s.route h).0) [
    | inr (kind, b) ↦ absurd (ground (arith, b))
    | inl free ↦ elim (answer_cases s.answer) [
      | inl (error, raw, a) ↦ absurd (ground (arith, free, a))
      | inr (v, version, raw, c, a) ↦ (
        ground (arith, free, a),
        ground (arith, free, a),
        (version, raw, c, ground (arith, free, a)),
      )
    ]
  ]

  -- The steps of a run: the first passes and the rest runs on, or the first decides.
  run_steps_cases :
      (s : ModelStep T) (steps : List (ModelStep T)) (h : RouteHealth) (f : StepFailures)
      → ((h' : RouteHealth) × (f' : StepFailures) × (attempt quota_reset s (h, f) ≡ (none, h', f'))
          × (run_steps quota_reset (s ∷ steps) (h, f) ≡ run_steps quota_reset steps (h', f')))
        ⊎ ((r : StepResult T) × (h' : RouteHealth) × (f' : StepFailures) × (attempt quota_reset s
                (h, f)
              ≡ (some r, h', f'))
            × (run_steps quota_reset (s ∷ steps) (h, f) ≡ (some r, h', f')))
  unfolding run_steps
  run_steps_cases s steps h f =
      let (r, h', f') = attempt quota_reset s (h, f) in
      elim (Option-cases (attempt quota_reset s (h, f)).0) [
        | inl none_yet ↦ inl (h', f', ground (arith, none_yet), ground (arith, none_yet))
        | inr (r', e) ↦ inr (r', h', f', ground (arith, e), ground (arith, e))
      ]

  run_steps_passes :
      (steps : List (ModelStep T)) (h h' : RouteHealth) (f f' : StepFailures)
      → run_steps quota_reset steps (h, f) ≡ (none, h', f')
      → error_names f' ≡ error_names f ++ map (λ s. s.name) steps
  run_steps_passes [] h h' f f' e = unfold run_steps in (ground (arith, append_nil (error_names f)))
  run_steps_passes (s ∷ steps) h h' f f' e = elim (run_steps_cases s steps h f) [
    | inr (r, h₁, f₁, a, run) ↦ absurd (ground (arith, run))
    | inl (h₁, f₁, a, run) ↦
        run_steps_passes steps h₁ h' f₁ f' (sym run ∙ e)
        ∙ ap (λ l. l ++ map (λ s. s.name) steps) (attempt_passes s h h₁ f f₁ a)
        ∙ snoc_append (error_names f) (map (λ s. s.name) steps) s.name
  ]

  run_steps-Decided :
      (steps : List (ModelStep T)) (r : StepResult T) (h h' : RouteHealth) (f f' : StepFailures)
      → run_steps quota_reset steps (h, f) ≡ (some r, h', f')
      → Decided steps r f f'
  run_steps-Decided [] r h h' f f' e = unfold run_steps in absurd cc
  run_steps-Decided (s ∷ steps) r h h' f f' e = elim (run_steps_cases s steps h f) [
    | inr (r₁, h₁, f₁, a, run) ↦
        let (names, named, v) = attempt_decides s r h h' f f' (a ∙ sym run ∙ e) in
        record {
          before = [];
          last = s;
          after = steps;
          split = refl;
          answered = v;
          named = named;
          errors_in_order = names ∙ append_nil (error_names f);
        }
    | inl (h₁, f₁, a, run) ↦
        let d = run_steps-Decided steps r h₁ h' f₁ f' (sym run ∙ e) in
        record {
          before = s ∷ d.before;
          last = d.last;
          after = d.after;
          split = ap (λ l. s ∷ l) d.split;
          answered = d.answered;
          named = d.named;
          errors_in_order =
              d.errors_in_order
              ∙ ap (λ l. l ++ map (λ s. s.name) d.before) (attempt_passes s h h₁ f f₁ a)
              ∙ snoc_append (error_names f) (map (λ s. s.name) d.before) s.name;
        }
  ]

  -- A run without a result has an error of every step, in order.
  pub run_fallback_passes :
      (steps : List (ModelStep T)) (h h' : RouteHealth) (f' : StepFailures)
      → run_fallback quota_reset steps h ≡ (none, h', f')
      → error_names f' ≡ map (λ s. s.name) steps
  unfolding run_fallback
  run_fallback_passes steps h h' f' e =
      run_steps_passes steps h h' (record { errors = []; attempts = [] }) f' e

  -- A run with a result has it from the answer of one step, and an error of every step before
  -- that one, in order.
  pub run_fallback-Decided :
      (steps : List (ModelStep T)) (r : StepResult T) (h h' : RouteHealth) (f' : StepFailures)
      → run_fallback quota_reset steps h ≡ (some r, h', f')
      → Decided steps r (record { errors = []; attempts = [] }) f'
  unfolding run_fallback
  run_fallback-Decided steps r h h' f' e =
      run_steps-Decided steps r h h' (record { errors = []; attempts = [] }) f' e
