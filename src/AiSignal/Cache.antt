-- ===== src/AiSignal/Cache.antt =====
-- services/ai_signal/src/ai_signal/llm/cache.py: `CachingPort` over `InMemoryCacheStore`. The key of a
-- request, a hash of its canonical JSON, the provider and the validation of an answer are arguments.
pub mod Again
mod Tests
use Prim.Native.String.{String}
use invest_view.Common.{
  ℕ, suc, Bool, true, false, Option, none, some, List, [], ◌∷◌, ◌++◌, Dict, lookup, insert,
  string_eq,
}

pub record CacheEntry : Type 0 where
  pub adapter : String
  pub model : String
  pub raw_content : String
  pub model_version : String

pub record InMemoryCacheStore : Type 0 where
  pub entries : Dict String CacheEntry
  pub hits : Dict String ℕ

unfoldable pub hit_count : String → Dict String ℕ → ℕ
hit_count key hits = elim (lookup key hits) [ none ↦ 0 | some n ↦ n ]

-- `get`
unfoldable pub get_entry : String → InMemoryCacheStore → Option CacheEntry × InMemoryCacheStore
unfolding hit_count
get_entry key store = elim (lookup key store.entries) [
  | none ↦ (none, store)
  | some entry ↦
      (some entry, record store { hits = insert key (suc (hit_count key store.hits)) store.hits })
]

-- `put`
unfoldable pub put_entry : String → CacheEntry → InMemoryCacheStore → InMemoryCacheStore
put_entry key entry store = record store { entries = insert key entry store.entries }

pub record Completion (O : Type 0) : Type 0 where
  pub output : O
  pub completion_version : String
  pub content : String
  pub cached : Bool

-- `calls` lists the requests that went to the provider.
pub record CachingPort (Q : Type 0) : Type 0 where
  pub adapter_name : String
  pub store : InMemoryCacheStore
  pub calls : List Q

module _ {Q O : Type 0} (cache_key : Q → String) (model_of : Q → String)
    (validate : String → Option O) (provider : Q → Option (Completion O)) where
  -- The call of the provider; none is an error, which reaches the caller.
  unfoldable pub ask : Q → CachingPort Q → Option (Completion O) × CachingPort Q
  unfolding put_entry
  ask request port =
      let asked = record port { calls = port.calls ++ request ∷ [] } in
      elim (provider request) [
        | none ↦ (none, asked)
        | some completion ↦ (
          some (record completion { cached = false }),
          record asked {
            store =
                put_entry (cache_key request)
                  (record {
                    adapter = port.adapter_name;
                    model = model_of request;
                    raw_content = completion.content;
                    model_version = completion.completion_version;
                  })
                  port.store;
          },
        )
      ]

  -- An entry that no longer validates is as if it were not there.
  unfoldable pub complete : Q → CachingPort Q → Option (Completion O) × CachingPort Q
  unfolding ask get_entry
  complete request port =
      let (entry, looked) = get_entry (cache_key request) port.store in
      let looked_port = record port { store = looked } in
      elim entry [
        | none ↦ ask request looked_port
        | some e ↦ elim (validate e.raw_content) [
          | none ↦ ask request looked_port
          | some output ↦ (
            some (record {
              output = output;
              completion_version = e.model_version;
              content = e.raw_content;
              cached = true;
            }),
            looked_port,
          )
        ]
      ]
