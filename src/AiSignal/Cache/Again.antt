-- ===== src/AiSignal/Cache/Again.antt =====
-- A request that was answered is answered again without the provider.
use Prim.Native.String.{String}
use invest_view.Common.{
  ◌≡◌, ap, ◌∙◌, true, false, Option, none, some, [], ◌∷◌, ◌++◌, lookup, lookup-insert, string_eq,
  beq_refl, arith,
}
use invest_view.AiSignal.Cache.{
  CacheEntry, InMemoryCacheStore, Completion, CachingPort, get_entry, put_entry, ask, complete,
}

get_entry_hit :
    (key : String) (store : InMemoryCacheStore) (entry : CacheEntry)
    → lookup key store.entries ≡ some entry
    → ((get_entry key store).0 ≡ some entry) × ((get_entry key store).1.entries ≡ store.entries)
unfolding get_entry
get_entry_hit key store entry e = (ground (arith, e), ground (arith, e))

put_entry_lem :
    (key : String) (entry : CacheEntry) (store : InMemoryCacheStore)
    → lookup key (put_entry key entry store).entries ≡ some entry
unfolding put_entry
put_entry_lem key entry store =
    ground (arith, lookup-insert key key entry store.entries, beq_refl key)

module _ {Q O : Type 0} (cache_key : Q → String) (model_of : Q → String)
    (validate : String → Option O) (provider : Q → Option (Completion O)) where
  -- A valid entry is answered from the store.
  complete_hit :
      (request : Q) (port : CachingPort Q) (entry : CacheEntry) (output : O)
      → lookup (cache_key request) port.store.entries ≡ some entry
      → validate entry.raw_content ≡ some output
      → ((complete cache_key model_of validate provider request port).0
          ≡ some (record {
            output = output;
            completion_version = entry.model_version;
            content = entry.raw_content;
            cached = true;
          }))
        × ((complete cache_key model_of validate provider request port).1.calls ≡ port.calls)
        × ((complete cache_key model_of validate provider request port).1.store.entries
            ≡ port.store.entries)
  unfolding complete
  complete_hit request port entry output e v =
      let (hit, same) = get_entry_hit (cache_key request) port.store entry e in
      (ground (arith, hit, v), ground (arith, hit, v), ground (arith, hit, v, same))

  complete_miss :
      (request : Q) (port : CachingPort Q)
      → lookup (cache_key request) port.store.entries ≡ none
      → complete cache_key model_of validate provider request port
        ≡ ask cache_key model_of validate provider request port
  unfolding complete get_entry
  complete_miss request port e = ground (arith, e)

  ask_stores :
      (request : Q) (port : CachingPort Q) (c : Completion O)
      → provider request ≡ some c
      → let r = ask cache_key model_of validate provider request port in
        (r.0 ≡ some (record c { cached = false }))
        × (r.1.calls ≡ port.calls ++ request ∷ [])
        × (lookup (cache_key request) r.1.store.entries
            ≡ some (record {
              adapter = port.adapter_name;
              model = model_of request;
              raw_content = c.content;
              model_version = c.completion_version;
            }))
  unfolding ask
  ask_stores request port c e =
      let entry : CacheEntry = record {
        adapter = port.adapter_name;
        model = model_of request;
        raw_content = c.content;
        model_version = c.completion_version;
      } in
      (
        ground (arith, e),
        ground (arith, e),
        ground (arith, e, put_entry_lem (cache_key request) entry port.store),
      )

  -- A request that is not in the store and that the provider answers is asked of the provider once:
  -- sent again, it gets the same content and version from the store, marked as cached, with no
  -- further call, where the content validates.
  pub complete_twice :
      (request : Q) (port : CachingPort Q) (c : Completion O) (output : O)
      → lookup (cache_key request) port.store.entries ≡ none
      → provider request ≡ some c
      → validate c.content ≡ some output
      → let first = complete cache_key model_of validate provider request port in
        let second = complete cache_key model_of validate provider request first.1 in
        (first.0 ≡ some (record c { cached = false }))
        × (second.0
            ≡ some (record {
              output = output;
              completion_version = c.completion_version;
              content = c.content;
              cached = true;
            }))
        × (second.1.calls ≡ port.calls ++ request ∷ [])
  complete_twice request port c output new answered valid =
      let miss = complete_miss request port new in
      let (answer, called, stored) = ask_stores request port c answered in
      let first = complete cache_key model_of validate provider request port in
      let (hit, quiet, same) =
        complete_hit request first.1
          (record {
            adapter = port.adapter_name;
            model = model_of request;
            raw_content = c.content;
            model_version = c.completion_version;
          })
          output (rw miss stored) valid in
      (
        ap (λ (r : Option (Completion O) × CachingPort Q). r.0) miss ∙ answer,
        hit,
        quiet ∙ ap (λ (r : Option (Completion O) × CachingPort Q). r.1.calls) miss ∙ called,
      )
