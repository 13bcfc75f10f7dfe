-- ===== src/KisIngestion/Tokens.antt =====
-- services/kis_ingestion/src/kis_ingestion: token_manager.py and approval_key_manager.py, which
-- differ in what they make of an answer and are one machine otherwise. Many callers share a manager;
-- a step of a caller is what it does between two awaits. Times count seconds.
pub mod SingleFlight
mod Tests
use Prim.Native.String.{String}
use invest_view.Common.{
  ℕ, suc, ◌+◌, ◌-◌, ◌*◌, Bool, true, false, not, ◌&&◌, Option, none, some, List, [], ◌∷◌,
  if◌then◌else◌, str_beq, ltb, ◌==◌,
}

pub record Cache : Type 0 where
  pub token : Option String
  pub expires_at : Option ℕ

-- `_is_valid`: an empty token is none.
unfoldable pub is_valid : ℕ → Cache → Bool
is_valid now cache = elim cache.token [
  | none ↦ false
  | some token ↦
      if str_beq token ""
      then false
      else elim cache.expires_at [ none ↦ false | some expires_at ↦ ltb now expires_at ]
]

-- What `_refresh` does: it stores a token and when it expires, or it raises, perhaps once a token
-- is stored.
pub data Refreshed : Type 0 where
  stored : String → ℕ → Refreshed
  failed : Option String → Refreshed

-- What the broker answers to a token request; none where a field is missing or is no number.
pub record TokenAnswer : Type 0 where
  pub access_token : Option String
  pub expires_in : Option ℕ

-- `_refresh` of `KISTokenManager`, at the time of the answer.
unfoldable pub refresh_token : ℕ → TokenAnswer → Refreshed
refresh_token now answer = elim answer.access_token [
  | none ↦ failed none
  | some token ↦ elim answer.expires_in [
    | none ↦ failed (some token)
    | some expires_in ↦ stored token (now + expires_in - 60)
  ]
]

-- `_refresh` of `KISApprovalKeyManager`: what is under `approval_key`, as text, if it is there.
unfoldable pub refresh_approval_key : ℕ → Option String → Refreshed
refresh_approval_key now none = failed none
refresh_approval_key now (some key) =
    if str_beq key "" then failed none else stored key (now + 24 * 3600 - 300)

-- Where a caller stands: `waiting` for the lock, which `force_refresh` does with `true`.
pub data Phase : Type 0 where
  start : Phase
  waiting : Bool → Phase
  refreshing : Phase
  returned : Option String → Phase
  raised : Phase

-- `posts` counts the requests that went out, `forced` those of `force_refresh`.
pub record System : Type 0 where
  pub cache : Cache
  pub locked : Bool
  pub phases : ℕ → Phase
  pub posts : ℕ
  pub forced : ℕ
  pub failures : ℕ

-- Nobody has called; the cache may hold an old token.
abbrev pub idle : Cache → System
idle cache = record {
  cache = cache;
  locked = false;
  phases = λ c. start;
  posts = 0;
  forced = 0;
  failures = 0;
}

-- An answer that is none is a request that raised.
pub data Action (A : Type 0) : Type 0 where
  get_token : Action A
  force_refresh : Action A
  admit : Action A
  respond : Option A → Action A

unfoldable pub set_phase : ℕ → Phase → System → System
set_phase caller phase s = record s { phases = λ c. if c == caller then phase else s.phases c }

unfoldable pub call_get_token : ℕ → ℕ → System → System
unfolding set_phase is_valid
call_get_token now caller s =
    if is_valid now s.cache
    then set_phase caller (returned s.cache.token) s
    else set_phase caller (waiting false) s

-- The lock is free: the second look at the cache, then the request.
unfoldable pub enter : ℕ → ℕ → Bool → System → System
unfolding set_phase is_valid
enter now caller is_forced s =
    if not is_forced && is_valid now s.cache
    then set_phase caller (returned s.cache.token) s
    else set_phase caller refreshing (record s {
      locked = true;
      posts = suc s.posts;
      forced = if is_forced then suc s.forced else s.forced;
    })

-- The request has been answered, and the lock is released. After an exception a token that was
-- stored before stands beside the old expiry.
unfoldable pub leave : ℕ → Refreshed → System → System
unfolding set_phase
leave caller (failed none) s =
    set_phase caller raised (record s { locked = false; failures = suc s.failures })
leave caller (failed (some token)) s = set_phase caller raised (record s {
  locked = false;
  failures = suc s.failures;
  cache = record { token = some token; expires_at = s.cache.expires_at };
})
leave caller (stored token expires_at) s = set_phase caller (returned (some token)) (record s {
  locked = false;
  cache = record { token = some token; expires_at = some expires_at };
})

unfoldable pub and_refresh : {A : Type 0} → (ℕ → A → Refreshed) → ℕ → Option A → Refreshed
and_refresh refresh now none = failed none
and_refresh refresh now (some answer) = refresh now answer

module _ {A : Type 0} (refresh : ℕ → A → Refreshed) where
  -- What a caller does at a time; none where it cannot do it.
  unfoldable pub step : ℕ → ℕ → Action A → System → Option System
  unfolding call_get_token enter leave and_refresh
  step now caller get_token s = elim (s.phases caller) [
    | start ↦ some (call_get_token now caller s)
    | waiting f ↦ none
    | refreshing ↦ none
    | returned t ↦ none
    | raised ↦ none
  ]
  step now caller force_refresh s = elim (s.phases caller) [
    | start ↦ some (set_phase caller (waiting true) s)
    | waiting f ↦ none
    | refreshing ↦ none
    | returned t ↦ none
    | raised ↦ none
  ]
  step now caller admit s = elim (s.phases caller) [
    | start ↦ none
    | waiting f ↦ if s.locked then none else some (enter now caller f s)
    | refreshing ↦ none
    | returned t ↦ none
    | raised ↦ none
  ]
  step now caller (respond answer) s = elim (s.phases caller) [
    | start ↦ none
    | waiting f ↦ none
    | refreshing ↦ some (leave caller (and_refresh refresh now answer) s)
    | returned t ↦ none
    | raised ↦ none
  ]

  unfoldable pub run : List (ℕ × ℕ × Action A) → System → Option System
  unfolding step
  run [] s = some s
  run ((now, caller, action) ∷ steps) s = elim (step now caller action s) [
    | none ↦ none
    | some s' ↦ run steps s'
  ]
