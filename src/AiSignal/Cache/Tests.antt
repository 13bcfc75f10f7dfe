-- ===== src/AiSignal/Cache/Tests.antt =====
-- One prompt, sent twice.
use Prim.Native.String.{String}
use invest_view.Common.{ℕ, ◌≡◌, refl, true, false, some, none, [], ◌∷◌, lookup, string_eq}
use invest_view.AiSignal.Cache.{Completion, CachingPort, complete}
use invest_view.AiSignal.Cache.Again.{complete_twice}

abbrev empty : CachingPort String
empty = record {
  adapter_name = "openrouter";
  store = record { entries = []; hits = [] };
  calls = [];
}

abbrev answer : Completion ℕ
answer = record { output = 5; completion_version = "m1"; content = "five"; cached = false }

not_stored : lookup "why" empty.store.entries ≡ none
unfolding lookup
not_stored = refl

complete_twice_example :
    let first = complete (λ q. q) (λ q. "m") (λ s. some 5) (λ q. some answer) "why" empty in
    let second = complete (λ q. q) (λ q. "m") (λ s. some 5) (λ q. some answer) "why" first.1 in
    (first.0 ≡ some answer)
    × (second.0 ≡ some (record answer { cached = true }))
    × (second.1.calls ≡ "why" ∷ [])
complete_twice_example =
    complete_twice (λ q. q) (λ q. "m") (λ s. some 5) (λ q. some answer) "why" empty answer 5
      not_stored refl refl
