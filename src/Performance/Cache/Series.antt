-- ===== src/Performance/Cache/Series.antt =====
-- `TimeSeriesCache`: a cache of bar values for each symbol.
use pine_framework.Prelude.{
  ℕ, ◌+◌, List, [], ◌∷◌, Option, none, some, Bool, false, String, string_eq, nat_eq, length,
}
use pine_framework.Prelude.JsMap.{JsMap, values}
use pine_framework.Prelude.JsMap
use pine_framework.Performance.Cache
use pine_framework.Performance.Cache.{LruCache, Stats}

pub record TimeSeriesCache {ℓ} (V : Type ℓ) : Type ℓ where
  pub caches : JsMap String (LruCache ℕ V)
  pub default_ttl : ℕ

pub record SeriesStats : Type 0 where
  pub symbol_count : ℕ
  pub total_size : ℕ
  pub total_hits : ℕ
  pub total_misses : ℕ

-- The bound that `set` gives to each new cache, whatever the constructor was told.
abbrev pub symbol_max_size : ℕ
symbol_max_size = 10_000

module _ {ℓ} {V : Type ℓ} where
  -- The constructor's first parameter is not used.
  unfoldable pub create : ℕ → ℕ → TimeSeriesCache V
  create max_size_per_symbol default_ttl = record { caches = []; default_ttl = default_ttl }

  unfoldable pub get : TimeSeriesCache V → String → ℕ → ℕ → ℕ → TimeSeriesCache V × Option V
  get t symbol bar_index now later = elim (JsMap.get t.caches symbol) [
    | none ↦ (t, none)
    | some cache ↦
        let (after, found) = Cache.get cache bar_index now later in
        (record t { caches = JsMap.set t.caches symbol after }, found)
  ]

  unfoldable pub cache_of : TimeSeriesCache V → String → LruCache ℕ V
  cache_of t symbol = elim (JsMap.get t.caches symbol) [
    | none ↦ Cache.create (record { max_size = symbol_max_size; ttl = some t.default_ttl })
    | some cache ↦ cache
  ]

  unfoldable pub set : TimeSeriesCache V → String → ℕ → V → ℕ → TimeSeriesCache V
  unfolding cache_of
  set t symbol bar_index value now = record t {
    caches = JsMap.set t.caches symbol (Cache.set (cache_of t symbol) bar_index value now);
  }

  unfoldable pub has : TimeSeriesCache V → String → ℕ → ℕ → TimeSeriesCache V × Bool
  has t symbol bar_index now = elim (JsMap.get t.caches symbol) [
    | none ↦ (t, false)
    | some cache ↦
        let (after, found) = Cache.has cache bar_index now in
        (record t { caches = JsMap.set t.caches symbol after }, found)
  ]

  unfoldable pub clear : TimeSeriesCache V → TimeSeriesCache V
  clear t = record t { caches = [] }

  add_stats : SeriesStats → List (LruCache ℕ V) → SeriesStats
  add_stats acc [] = acc
  add_stats acc (c ∷ cs) =
      let s = Cache.stats c in
      add_stats
        (record acc {
          total_hits = acc.total_hits + s.hits;
          total_misses = acc.total_misses + s.misses;
          total_size = acc.total_size + s.size;
        })
        cs

  unfoldable pub stats : TimeSeriesCache V → SeriesStats
  unfolding add_stats
  stats t =
      add_stats
        (record {
          symbol_count = length t.caches;
          total_size = 0;
          total_hits = 0;
          total_misses = 0;
        })
        (values t.caches)
