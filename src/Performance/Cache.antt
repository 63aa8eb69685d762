-- ===== src/Performance/Cache.antt =====
-- src/performance/cache.ts: a cache with a bound and a time to live, and a family of such caches.
-- `Date.now()` is an argument, once for each time a method reads it.
pub mod Calls
pub mod Bound
pub mod Recency
pub mod Store
pub mod Series
pub mod Tests
use pine_framework.Prelude.{
  ℕ, ◌+◌, List, [], ◌∷◌, Option, none, some, Bool, true, false, not, ◌&&◌, Eq, ltb, leb, ◌==◌,
  if◌then◌else◌, length,
}
use pine_framework.Prelude.JsMap.{JsMap}
use pine_framework.Prelude.JsMap

pub record CacheEntry {ℓ} (V : Type ℓ) : Type ℓ where
  pub value : V
  pub last_accessed : ℕ
  pub access_count : ℕ

pub record LruOptions : Type 0 where
  pub max_size : ℕ
  pub ttl : Option ℕ

pub record LruCache {ℓ κ} (K : Type ℓ) (V : Type κ) : Type (ℓ ⊔ κ) where
  pub options : LruOptions
  pub open options use *
  pub cache : JsMap K (CacheEntry V)
  pub hits : ℕ
  pub misses : ℕ

pub record Stats : Type 0 where
  pub size : ℕ
  pub hits : ℕ
  pub misses : ℕ

-- `ttl && now - lastAccessed > ttl`: a ttl of 0 counts as none.
abbrev pub is_expired : Option ℕ → ℕ → ℕ → Bool
is_expired none last now = false
is_expired (some ttl) last now = not (ttl == 0) && ltb (last + ttl) now

module _ {ℓ κ} {K : Type ℓ} ⦃e : Eq K⦄ {V : Type κ} where
  unfoldable pub create : LruOptions → LruCache K V
  create options = record { options = options; cache = []; hits = 0; misses = 0 }

  -- What `get` does with the entry that it found: `later` is the second reading of the clock.
  unfoldable pub get_entry : LruCache K V → K → CacheEntry V → ℕ → ℕ → LruCache K V × Option V
  get_entry c key entry now later =
      let touched : CacheEntry V = record entry {
        last_accessed = later;
        access_count = entry.access_count + 1;
      } in
      if is_expired c.ttl entry.last_accessed now
      then (record c { cache = JsMap.delete c.cache key; misses = c.misses + 1 }, none)
      else (
        record c { cache = JsMap.set (JsMap.delete c.cache key) key touched; hits = c.hits + 1 },
        some entry.value,
      )

  unfoldable pub get : LruCache K V → K → ℕ → ℕ → LruCache K V × Option V
  unfolding get_entry
  get c key now later = elim (JsMap.get c.cache key) [
    | none ↦ (record c { misses = c.misses + 1 }, none)
    | some entry ↦ get_entry c key entry now later
  ]

  -- Drops the first key, if there is one.
  unfoldable pub evict : JsMap K (CacheEntry V) → JsMap K (CacheEntry V)
  evict [] = []
  evict ((first, entry) ∷ rest) = JsMap.delete ((first, entry) ∷ rest) first

  -- The entries that `set` adds the new one to.
  unfoldable pub make_room : LruCache K V → K → JsMap K (CacheEntry V)
  unfolding evict
  make_room c key =
      if JsMap.has c.cache key
      then JsMap.delete c.cache key
      else if leb c.max_size (length c.cache)
      then evict c.cache
      else c.cache

  unfoldable pub set : LruCache K V → K → V → ℕ → LruCache K V
  unfolding make_room
  set c key value now = record c {
    cache =
        JsMap.set (make_room c key) key
          (record { value = value; last_accessed = now; access_count = 0 });
  }

  unfoldable pub has_entry : LruCache K V → K → CacheEntry V → ℕ → LruCache K V × Bool
  has_entry c key entry now =
      if is_expired c.ttl entry.last_accessed now
      then (record c { cache = JsMap.delete c.cache key }, false)
      else (c, true)

  unfoldable pub has : LruCache K V → K → ℕ → LruCache K V × Bool
  unfolding has_entry
  has c key now = elim (JsMap.get c.cache key) [
    | none ↦ (c, false)
    | some entry ↦ has_entry c key entry now
  ]

  unfoldable pub delete : LruCache K V → K → LruCache K V × Bool
  delete c key = (record c { cache = JsMap.delete c.cache key }, JsMap.has c.cache key)

  unfoldable pub clear : LruCache K V → LruCache K V
  clear c = record c { cache = []; hits = 0; misses = 0 }

  -- `stats` without the hit rate, which is a quotient of the last two.
  unfoldable pub stats : LruCache K V → Stats
  stats c = record { size = length c.cache; hits = c.hits; misses = c.misses }
