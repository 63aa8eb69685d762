-- ===== src/Performance/Cache/Tests.antt =====
-- Runs of the caches at concrete inputs.
use pine_framework.Prelude.{
  ℕ, ◌+◌, ◌≡◌, refl, List, [], ◌∷◌, none, some, nat_eq, string_eq, arith, String,
}
use pine_framework.Prelude.JsMap.{keys}
use pine_framework.Prelude.JsMap
use pine_framework.Performance.Cache.{
  LruCache, LruOptions, CacheEntry, create, get, get_entry, set, make_room, evict,
}
use pine_framework.Performance.Cache.Calls.{Call, gets, sets, run, step}
use pine_framework.Performance.Cache.Bound
use pine_framework.Performance.Cache.Recency
use pine_framework.Performance.Cache.Store
use pine_framework.Performance.Cache.Series

abbrev two : LruOptions
two = record { max_size = 2; ttl = some 100 }

-- Key 1 is read after key 2 is set, so 2 is the one to go.
abbrev calls : List (Call ℕ String)
calls = sets 1 "one" 0 ∷ sets 2 "two" 1 ∷ gets 1 5 5 ∷ sets 3 "three" 9 ∷ []

abbrev full : LruCache ℕ String
full = run (create two) calls

full_keys : keys full.cache ≡ 1 ∷ 3 ∷ []
unfolding run step create get get_entry set make_room evict JsMap.get JsMap.set JsMap.has
    JsMap.delete
full_keys = refl

expired : (get full 1 200 200).1 ≡ none
unfolding run step create get get_entry set make_room evict JsMap.get JsMap.set JsMap.has
    JsMap.delete
expired = refl

-- The bound given to the constructor is not that of the caches.
small_series_bound : (Series.cache_of (Series.create {V = ℕ} 5 1000) "SOLUSDT").max_size ≡ 10_000
unfolding Series.cache_of Series.create JsMap.get create
small_series_bound = refl

full-IsValid : Bound.IsValid full
unfolding run step create get get_entry set make_room evict JsMap.get JsMap.set JsMap.has
    JsMap.delete
full-IsValid = record { distinct = (refl, (refl, tt)); bounded = omega arith }

step-IsValid_example : Bound.IsValid (step full (sets 4 "four" 10))
unfolding run step create get get_entry set make_room evict JsMap.get JsMap.set JsMap.has
    JsMap.delete
step-IsValid_example = Bound.step-IsValid full (sets 4 "four" 10) (omega arith) full-IsValid

set-keys_example : keys (set full 4 "four" 10).cache ≡ 3 ∷ 4 ∷ []
unfolding run step create get get_entry set make_room evict JsMap.get JsMap.set JsMap.has
    JsMap.delete
set-keys_example = Recency.set-keys full 4 "four" 10 (omega arith) full-IsValid

abbrev one_entry : CacheEntry String
one_entry = record { value = "one"; last_accessed = 5; access_count = 1 }

get-found_example :
    ((get full 1 50 51).1 ≡ some "one")
    × (keys (get full 1 50 51).0.cache ≡ 3 ∷ 1 ∷ [])
    × ((get full 1 50 51).0.hits + (get full 1 50 51).0.misses ≡ 2)
unfolding run step create get get_entry set make_room evict JsMap.get JsMap.set JsMap.has
    JsMap.delete
get-found_example = Recency.get-found full 1 one_entry 50 51 full-IsValid refl

get-run_example : Store.store_run (λ j. none) calls 1 ≡ some "one"
unfolding run step create get get_entry set make_room evict JsMap.get JsMap.set JsMap.has
    JsMap.delete
get-run_example = Store.get-run two calls 1 50 51 "one" (omega arith) refl
