-- ===== src/KisIngestion/Tokens/SingleFlight.antt =====
-- Concurrent callers share one request.
use Prim.Native.String.{String}
use invest_view.Common.{
  ℕ, suc, ◌+◌, ◌≤◌, ◌≡◌, refl, Bool, true, false, not, ◌&&◌, ◌||◌, Option, none, some, List, [],
  ◌∷◌, if◌then◌else◌, arith, sym, subst, Bool-cases, Option-cases, inl, inr, ◌==◌, ◌∙◌, All,
}
use invest_view.KisIngestion.Tokens.{
  Cache, is_valid, Refreshed, stored, failed, Phase, start, waiting, refreshing, returned, raised,
  System, Action, get_token, force_refresh, admit, respond, set_phase, idle, call_get_token, enter,
  leave, and_refresh, step, run,
}

-- A token that is valid at the horizon has been valid before.
earlier :
    (now horizon : ℕ) (cache : Cache)
    → now ≤ horizon
    → is_valid horizon cache ≡ true
    → is_valid now cache ≡ true
unfolding is_valid
earlier now horizon cache le h = ground (arith)

unfoldable slack : ℕ → System → ℕ
slack horizon s = if is_valid horizon s.cache || s.locked then 1 else 0

unfoldable Bounded : ℕ → System → Type 0
unfolding slack
Bounded horizon s = s.posts ≤ s.forced + s.failures + slack horizon s

set_phase-Bounded :
    (caller : ℕ) (phase : Phase) (horizon : ℕ) (s : System)
    → Bounded horizon s
    → Bounded horizon (set_phase caller phase s)
unfolding Bounded set_phase
set_phase-Bounded caller phase horizon s b = b

call_get_token-Bounded :
    (now caller horizon : ℕ) (s : System)
    → Bounded horizon s
    → Bounded horizon (call_get_token now caller s)
unfolding Bounded call_get_token set_phase
call_get_token-Bounded now caller horizon s b = ground (arith)

enter-Bounded :
    (now caller horizon : ℕ) (is_forced : Bool) (s : System)
    → now ≤ horizon
    → s.locked ≡ false
    → Bounded horizon s
    → Bounded horizon (enter now caller is_forced s)
unfolding Bounded enter set_phase
enter-Bounded now caller horizon is_forced s le free b =
    elim (Bool-cases (is_valid horizon s.cache)) [
      | inl fresh ↦ ground (arith, earlier now horizon s.cache le fresh)
      | inr stale ↦ ground (arith)
    ]

leave-Bounded :
    (caller horizon : ℕ) (result : Refreshed) (s : System)
    → s.locked ≡ true
    → ((token : String) (expires_at : ℕ)
        → result ≡ stored token expires_at
        → is_valid horizon (record { token = some token; expires_at = some expires_at }) ≡ true)
    → Bounded horizon s
    → Bounded horizon (leave caller result s)
unfolding Bounded leave set_phase
leave-Bounded caller horizon (failed none) s held lasts b = ground (arith)
leave-Bounded caller horizon (failed (some token)) s held lasts b = ground (arith)
leave-Bounded caller horizon (stored token expires_at) s held lasts b =
    ground (arith, lasts token expires_at refl)

-- One caller at most refreshes, and it holds the lock.
unfoldable Exclusive : System → Type 0
Exclusive s =
    (c : ℕ)
    → s.phases c ≡ refreshing
    → (s.locked ≡ true) × ((d : ℕ) → s.phases d ≡ refreshing → d ≡ c)

unfoldable is_refreshing : Phase → Bool
is_refreshing start = false
is_refreshing (waiting f) = false
is_refreshing refreshing = true
is_refreshing (returned t) = false
is_refreshing raised = false

set_phase-stays :
    (caller c : ℕ) (phase : Phase) (s : System)
    → is_refreshing phase ≡ false
    → (set_phase caller phase s).phases c ≡ refreshing
    → s.phases c ≡ refreshing
unfolding set_phase is_refreshing
set_phase-stays caller c phase s quiet h = ground (arith, quiet, h)

set_phase-Exclusive :
    (caller : ℕ) (phase : Phase) (s : System)
    → is_refreshing phase ≡ false
    → Exclusive s
    → Exclusive (set_phase caller phase s)
unfolding Exclusive set_phase
set_phase-Exclusive caller phase s quiet x c h =
    let (held, only) = x c (set_phase-stays caller c phase s quiet h) in
    (held, λ d h'. only d (set_phase-stays caller d phase s quiet h'))

Exclusive-path : {s s' : System} → s' ≡ s → Exclusive s → Exclusive s'
Exclusive-path e x = subst Exclusive (sym e) x

call_get_token-Exclusive :
    (now caller : ℕ) (s : System) → Exclusive s → Exclusive (call_get_token now caller s)
unfolding call_get_token is_refreshing
call_get_token-Exclusive now caller s x = elim (Bool-cases (is_valid now s.cache)) [
  | inl fresh ↦
      Exclusive-path (ground (arith, fresh))
        (set_phase-Exclusive caller (returned s.cache.token) s refl x)
  | inr stale ↦
      Exclusive-path (ground (arith, stale)) (set_phase-Exclusive caller (waiting false) s refl x)
]

-- The first caller to refresh is the only one.
claimed :
    (caller : ℕ) (s : System)
    → s.locked ≡ true
    → ((d : ℕ) → ¬ (s.phases d ≡ refreshing))
    → Exclusive (set_phase caller refreshing s)
unfolding Exclusive set_phase
claimed caller s held none_else c h = (held, λ d h'. both d h')
  where
    here : (d : ℕ) → (if d == caller then refreshing else s.phases d) ≡ refreshing → d ≡ caller
    here d g = ground (arith, none_else d, g)

    both : (d : ℕ) → (if d == caller then refreshing else s.phases d) ≡ refreshing → d ≡ c
    both d g = here d g ∙ sym (here c h)

none_refreshes :
    (s : System) → s.locked ≡ false → Exclusive s → (d : ℕ) → ¬ (s.phases d ≡ refreshing)
unfolding Exclusive
none_refreshes s free x d h = ground (arith, (x d h).0, free)

enter-Exclusive :
    (now caller : ℕ) (is_forced : Bool) (s : System)
    → s.locked ≡ false
    → Exclusive s
    → Exclusive (enter now caller is_forced s)
unfolding enter is_refreshing
enter-Exclusive now caller is_forced s free x =
    let asking = record s {
      locked = true;
      posts = suc s.posts;
      forced = if is_forced then suc s.forced else s.forced;
    } in
    elim (Bool-cases (not is_forced && is_valid now s.cache)) [
      | inl fresh ↦
          Exclusive-path (ground (arith, fresh))
            (set_phase-Exclusive caller (returned s.cache.token) s refl x)
      | inr stale ↦
          Exclusive-path (ground (arith, stale))
            (claimed caller asking refl (none_refreshes s free x))
    ]

-- Once the only caller that refreshes has gone on, none refreshes.
gone :
    (caller c : ℕ) (phase : Phase) (s : System)
    → is_refreshing phase ≡ false
    → ((d : ℕ) → s.phases d ≡ refreshing → d ≡ caller)
    → (set_phase caller phase s).phases c ≡ refreshing
    → ⊥
unfolding set_phase is_refreshing
gone caller c phase s quiet only h = ground (arith, quiet, only c, h)

leave-Exclusive :
    (caller : ℕ) (result : Refreshed) (s : System)
    → s.phases caller ≡ refreshing
    → Exclusive s
    → Exclusive (leave caller result s)
unfolding Exclusive leave is_refreshing set_phase
leave-Exclusive caller (failed none) s held x c h =
    absurd (gone caller c raised s refl (x caller held).1 h)
leave-Exclusive caller (failed (some token)) s held x c h =
    absurd (gone caller c raised s refl (x caller held).1 h)
leave-Exclusive caller (stored token expires_at) s held x c h =
    absurd (gone caller c (returned (some token)) s refl (x caller held).1 h)

-- A token lasts till the horizon.
abbrev pub Fresh : ℕ → String → ℕ → Type 0
Fresh horizon token expires_at =
    is_valid horizon (record { token = some token; expires_at = some expires_at }) ≡ true

idle-Exclusive : (cache : Cache) → Exclusive (idle cache)
unfolding Exclusive
idle-Exclusive cache c h = ground (arith, h)

module _ {A : Type 0} (refresh : ℕ → A → Refreshed) (horizon : ℕ) where
  -- The step is done by the horizon, and a token that it gets lasts till then.
  unfoldable pub Timely : ℕ × ℕ × Action A → Type 0
  Timely (now, caller, action) =
      (now ≤ horizon)
      × ((answer : Option A) (token : String) (expires_at : ℕ)
          → action ≡ respond answer
          → and_refresh refresh now answer ≡ stored token expires_at
          → Fresh horizon token expires_at)

  abbrev Invariant : System → Type 0
  Invariant s = Exclusive s × Bounded horizon s

  Invariant-path : (s s' : System) → s' ≡ s → Invariant s → Invariant s'
  Invariant-path s s' e inv = subst Invariant (sym e) inv

  get_token_lem :
      (now caller : ℕ) (s s' : System)
      → step refresh now caller get_token s ≡ some s'
      → s' ≡ call_get_token now caller s
  unfolding step
  get_token_lem now caller s s' h = ground (arith, h)

  force_refresh_lem :
      (now caller : ℕ) (s s' : System)
      → step refresh now caller force_refresh s ≡ some s'
      → s' ≡ set_phase caller (waiting true) s
  unfolding step
  force_refresh_lem now caller s s' h = ground (arith, h)

  admit_lem :
      (now caller : ℕ) (s s' : System) (phase : Phase)
      → s.phases caller ≡ phase
      → step refresh now caller admit s ≡ some s'
      → (f : Bool) × (s.locked ≡ false) × (s' ≡ enter now caller f s)
  unfolding step
  admit_lem now caller s s' start e h = absurd (ground (arith, e, h))
  admit_lem now caller s s' (waiting f) e h = (f, ground (arith, e, h), ground (arith, e, h))
  admit_lem now caller s s' refreshing e h = absurd (ground (arith, e, h))
  admit_lem now caller s s' (returned t) e h = absurd (ground (arith, e, h))
  admit_lem now caller s s' raised e h = absurd (ground (arith, e, h))

  respond_lem :
      (now caller : ℕ) (answer : Option A) (s s' : System)
      → step refresh now caller (respond answer) s ≡ some s'
      → (s.phases caller ≡ refreshing) × (s' ≡ leave caller (and_refresh refresh now answer) s)
  unfolding step
  respond_lem now caller answer s s' h = (ground (arith, h), ground (arith, h))

  step-Invariant :
      (now caller : ℕ) (action : Action A) (s s' : System)
      → Timely (now, caller, action)
      → Invariant s
      → step refresh now caller action s ≡ some s'
      → Invariant s'
  unfolding Timely Exclusive is_refreshing
  step-Invariant now caller get_token s s' (le, lasts) (x, b) h =
      Invariant-path (call_get_token now caller s) s' (get_token_lem now caller s s' h)
        (call_get_token-Exclusive now caller s x, call_get_token-Bounded now caller horizon s b)
  step-Invariant now caller force_refresh s s' (le, lasts) (x, b) h =
      Invariant-path (set_phase caller (waiting true) s) s' (force_refresh_lem now caller s s' h) (
        set_phase-Exclusive caller (waiting true) s refl x,
        set_phase-Bounded caller (waiting true) horizon s b,
      )
  step-Invariant now caller admit s s' (le, lasts) (x, b) h =
      let (f, free, e) = admit_lem now caller s s' (s.phases caller) refl h in
      Invariant-path (enter now caller f s) s' e
        (enter-Exclusive now caller f s free x, enter-Bounded now caller horizon f s le free b)
  step-Invariant now caller (respond answer) s s' (le, lasts) (x, b) h =
      let (held, e) = respond_lem now caller answer s s' h in
      Invariant-path (leave caller (and_refresh refresh now answer) s) s' e (
        leave-Exclusive caller (and_refresh refresh now answer) s held x,
        leave-Bounded caller horizon (and_refresh refresh now answer) s (x caller held).0
            (λ token expires_at. lasts answer token expires_at refl) b,
      )

  run-Invariant :
      (steps : List (ℕ × ℕ × Action A)) (s s' : System)
      → All Timely steps
      → Invariant s
      → run refresh steps s ≡ some s'
      → Invariant s'
  unfolding run
  run-Invariant [] s s' timely inv h = Invariant-path s s' (ground (arith, h)) inv
  run-Invariant ((now, caller, action) ∷ steps) s s' (t, timely) inv h =
      elim (Option-cases (step refresh now caller action s)) [
        | inl refused ↦ absurd (ground (arith, refused, h))
        | inr (s'', e) ↦
            run-Invariant steps s'' s' timely (step-Invariant now caller action s s'' t inv e)
              (ground (arith, e, h))
      ]

  -- From a manager nobody has called, whose cache may hold any token: if every step happens by the
  -- horizon and every token that an answer gives is valid till then, any interleaving of callers
  -- sends at most one request, besides those of `force_refresh` and one for every failure, and no
  -- two callers refresh at once.
  pub single_flight :
      (steps : List (ℕ × ℕ × Action A)) (cache : Cache) (s' : System)
      → All Timely steps
      → run refresh steps (idle cache) ≡ some s'
      → (s'.posts ≤ 1 + s'.forced + s'.failures)
        × ((c d : ℕ) → s'.phases c ≡ refreshing → s'.phases d ≡ refreshing → d ≡ c)
  unfolding Exclusive Bounded slack
  single_flight steps cache s' timely h =
      let (x, b) =
        run-Invariant steps (idle cache) s' timely (idle-Exclusive cache, ground arith) h in
      (ground (arith, b), λ c d hc hd. (x c hc).1 d hd)
