-- ===== src/KisIngestion/Tokens/Tests.antt =====
-- Two callers of an approval key manager whose key has expired.
use Prim.Native.String.{String}
use invest_view.Common.{ℕ, ◌≡◌, refl, Option, some, none, List, [], ◌∷◌, ◌+◌, ◌≤◌, arith}
use invest_view.Common.{str_beq}
use invest_view.KisIngestion.Tokens.{
  Cache, is_valid, stored, refreshing, returned, System, Action, get_token, admit, respond,
  refresh_approval_key, and_refresh, idle, run, step, call_get_token, enter, leave, set_phase,
}
use invest_view.KisIngestion.Tokens.SingleFlight.{Timely, Fresh, single_flight}

abbrev expired : Cache
expired = record { token = some "old"; expires_at = some 50 }

abbrev calls : List (ℕ × ℕ × Action (Option String))
calls =
    (100, 1, get_token)
    ∷ (100, 2, get_token)
    ∷ (101, 2, admit)
    ∷ (102, 2, respond (some (some "new")))
    ∷ (102, 1, admit)
    ∷ []

abbrev or_idle : Option System → System
or_idle none = idle expired
or_idle (some s) = s

abbrev served : System
served = or_idle (run refresh_approval_key calls (idle expired))

-- The second caller finds the key that the first one got.
shared : served.phases 1 ≡ returned (some "new")
unfolding run step call_get_token enter leave set_phase is_valid and_refresh refresh_approval_key
    str_beq
shared = refl

one_request : served.posts ≡ 1
unfolding run step call_get_token enter leave set_phase is_valid and_refresh refresh_approval_key
    str_beq
one_request = refl

runs : run refresh_approval_key calls (idle expired) ≡ some served
unfolding run step call_get_token enter leave set_phase is_valid and_refresh refresh_approval_key
    str_beq
runs = refl

-- Whatever key is given at this time or later is valid at 200.
approval_key-Fresh :
    (now : ℕ) (answer : Option (Option String)) (token : String) (expires_at : ℕ)
    → and_refresh refresh_approval_key now answer ≡ stored token expires_at
    → Fresh 200 token expires_at
unfolding and_refresh refresh_approval_key is_valid
approval_key-Fresh now none token expires_at h = ground (arith, h)
approval_key-Fresh now (some none) token expires_at h = ground (arith, h)
approval_key-Fresh now (some (some key)) token expires_at h = ground (arith, h)

approval_key-Timely :
    (now caller : ℕ) (action : Action (Option String))
    → now ≤ 200
    → Timely refresh_approval_key 200 (now, caller, action)
unfolding Timely
approval_key-Timely now caller action le =
    (le, λ answer token expires_at e h. approval_key-Fresh now answer token expires_at h)

single_flight_example :
    (served.posts ≤ 1 + served.forced + served.failures)
    × ((c d : ℕ) → served.phases c ≡ refreshing → served.phases d ≡ refreshing → d ≡ c)
single_flight_example =
    single_flight refresh_approval_key 200 calls expired served
      (
        approval_key-Timely 100 1 get_token (omega arith),
        (
          approval_key-Timely 100 2 get_token (omega arith),
          (
            approval_key-Timely 101 2 admit (omega arith),
            (
              approval_key-Timely 102 2 (respond (some (some "new"))) (omega arith),
              (approval_key-Timely 102 1 admit (omega arith), tt),
            ),
          ),
        ),
      )
      runs
