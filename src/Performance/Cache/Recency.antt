-- ===== src/Performance/Cache/Recency.antt =====
-- The order of the entries is the order of use, and a full cache drops the one used longest ago.
use mathlib.Core.List.{map-append}
use pine_framework.Prelude.{
  ℕ, ◌+◌, ◌<◌, ◌≡◌, refl, [], ◌∷◌, ◌++◌, none, some, false, Eq, leb, if◌then◌else◌, length, arith,
  ===-refl, drop,
}
use pine_framework.Prelude.JsMap.{JsMap, keys, Distinct, set_absent, has-delete_self, has_of_get}
use pine_framework.Prelude.JsMap
use pine_framework.Performance.Cache.{
  LruCache, CacheEntry, is_expired, get, get_entry, set, make_room, evict,
}
use pine_framework.Performance.Cache.Bound.{IsValid, make_room_lem}

module _ {ℓ κ} {K : Type ℓ} ⦃e : Eq K⦄ {V : Type κ} where
  keys-set_absent :
      (m : JsMap K (CacheEntry V)) (k : K) (x : CacheEntry V)
      → JsMap.has m k ≡ false
      → keys (JsMap.set m k x) ≡ keys m ++ k ∷ []
  keys-set_absent m k x h = rw (set_absent m k x h) (map-append _ m ((k, x) ∷ []))

  -- In a cache with distinct keys, the value of a live entry is returned and its key moves to the end;
  -- an expired one is dropped and nothing is returned. Either way one hit or miss is counted.
  pub get-found :
      (c : LruCache K V) (k : K) (entry : CacheEntry V) (now later : ℕ)
      → IsValid c
      → JsMap.get c.cache k ≡ some entry
      → let expired = is_expired c.ttl entry.last_accessed now in
        let rest = keys (JsMap.delete c.cache k) in
        ((get c k now later).1 ≡ (if expired then none else some entry.value))
        × (keys (get c k now later).0.cache ≡ (if expired then rest else rest ++ k ∷ []))
        × ((get c k now later).0.hits + (get c k now later).0.misses ≡ c.hits + c.misses + 1)
  unfolding get get_entry
  get-found c k entry now later i found =
      rw (found, get)
        (ground (
          arith,
          keys-set_absent (JsMap.delete c.cache k) k
              (record entry { last_accessed = later; access_count = entry.access_count + 1 })
              (has-delete_self c.cache k i.distinct),
        ))

  keys-evict : (m : JsMap K (CacheEntry V)) → keys (evict m) ≡ drop 1 (keys m)
  unfolding evict JsMap.delete
  keys-evict [] = refl
  keys-evict ((k, v) ∷ m) = rw (===-refl k) refl

  keys-make_room :
      (c : LruCache K V) (k : K)
      → keys (make_room c k) ≡ (
          if JsMap.has c.cache k
          then keys (JsMap.delete c.cache k)
          else if leb c.max_size (length c.cache)
          then drop 1 (keys c.cache)
          else keys c.cache)
  unfolding make_room
  keys-make_room c k = ground (arith, keys-evict c.cache)

  -- In a well-formed cache with a positive bound, the key that is set comes to stand at the end, after
  -- the other keys in their order; if it is new and the cache is full, the first key goes.
  pub set-keys :
      (c : LruCache K V) (k : K) (v : V) (now : ℕ)
      → 0 < c.max_size
      → IsValid c
      → keys (set c k v now).cache
        ≡ (if JsMap.has c.cache k
            then keys (JsMap.delete c.cache k)
            else if leb c.max_size (length c.cache)
            then drop 1 (keys c.cache)
            else keys c.cache)
          ++ k ∷ []
  unfolding set
  set-keys c k v now h i =
      let (d, fresh, room) = make_room_lem c k h i in
      rw (keys-set_absent (make_room c k) k _ fresh, keys-make_room c k) refl
