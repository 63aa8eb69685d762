-- ===== src/Performance/Cache/Bound.antt =====
-- The cache never holds a key twice, nor more entries than its bound.
use pine_framework.Prelude.{
  ℕ, ◌+◌, ◌-◌, ◌≤◌, ◌<◌, ◌≡◌, refl, inl, inr, [], ◌∷◌, some, false, Eq, length, arith, Option-cases,
  ===-refl,
}
use pine_framework.Prelude.JsMap.{
  JsMap, Distinct, Distinct-set, Distinct-delete, length-set, length-delete, has-set,
  has-delete_self, delete_absent, has_of_get, not_has-delete,
}
use pine_framework.Prelude.JsMap
use pine_framework.Performance.Cache.{
  LruCache, CacheEntry, get, get_entry, set, make_room, evict, has, has_entry, delete, clear,
}
use pine_framework.Performance.Cache.Calls.{Call, gets, sets, checks, deletes, clears, step}

module _ {ℓ κ} {K : Type ℓ} ⦃e : Eq K⦄ {V : Type κ} where
  pub record IsValid (c : LruCache K V) : Type 0 where
    pub distinct : Distinct c.cache
    pub bounded : length c.cache ≤ c.max_size

  Distinct-evict : (m : JsMap K (CacheEntry V)) → Distinct m → Distinct (evict m)
  unfolding evict
  Distinct-evict [] d = tt
  Distinct-evict ((k, v) ∷ m) d = Distinct-delete ((k, v) ∷ m) k d

  length-evict : (m : JsMap K (CacheEntry V)) → length (evict m) ≡ length m - 1
  unfolding evict JsMap.delete
  length-evict [] = refl
  length-evict ((k, v) ∷ m) = rw (===-refl k) (omega arith)

  not_has-evict :
      (m : JsMap K (CacheEntry V)) (k : K) → JsMap.has m k ≡ false → JsMap.has (evict m) k ≡ false
  unfolding evict
  not_has-evict [] k h = h
  not_has-evict ((j, v) ∷ m) k h = not_has-delete ((j, v) ∷ m) j k h

  pub make_room_lem :
      (c : LruCache K V) (k : K)
      → 0 < c.max_size
      → IsValid c
      → Distinct (make_room c k)
        × (JsMap.has (make_room c k) k ≡ false)
        × (length (make_room c k) < c.max_size)
  unfolding make_room
  make_room_lem c k h v = ground (
    arith,
    v.distinct,
    Distinct-delete c.cache k v.distinct,
    Distinct-evict c.cache v.distinct,
    has-delete_self c.cache k v.distinct,
    not_has-evict c.cache k,
    length-delete c.cache k,
    length-evict c.cache,
  )

  set-IsValid :
      (c : LruCache K V) (k : K) (v : V) (now : ℕ)
      → 0 < c.max_size
      → IsValid c
      → IsValid (set c k v now)
  unfolding set
  set-IsValid c k v now h i =
      let (d, fresh, room) = make_room_lem c k h i in
      record {
        distinct = Distinct-set (make_room c k) k _ d;
        bounded = ground (
          arith,
          length-set (make_room c k) k
              (record { value = v; last_accessed = now; access_count = 0 }),
        );
      }

  delete-IsValid :
      (c : LruCache K V) (k : K) → IsValid c → IsValid (record c { cache = JsMap.delete c.cache k })
  delete-IsValid c k i = record {
    distinct = Distinct-delete c.cache k i.distinct;
    bounded = ground (arith, length-delete c.cache k);
  }

  get_entry-IsValid :
      (c : LruCache K V) (k : K) (entry : CacheEntry V) (now later : ℕ)
      → JsMap.get c.cache k ≡ some entry
      → IsValid c
      → IsValid (get_entry c k entry now later).0
  unfolding get_entry
  get_entry-IsValid c k entry now later found i =
      let touched : CacheEntry V = record entry {
        last_accessed = later;
        access_count = entry.access_count + 1;
      } in
      let gone = delete-IsValid c k i in
      let d = Distinct-set (JsMap.delete c.cache k) k touched gone.distinct in
      ground (
        arith,
        d,
        gone.distinct,
        length-delete c.cache k,
        length-set (JsMap.delete c.cache k) k touched,
        has_of_get c.cache k entry found,
        has-delete_self c.cache k i.distinct,
      )

  -- Every call of a cache with a positive bound keeps the keys distinct and the entries within the
  -- bound.
  pub step-IsValid :
      (c : LruCache K V) (call : Call K V) → 0 < c.max_size → IsValid c → IsValid (step c call)
  unfolding step get has has_entry delete clear
  step-IsValid c (gets k now later) h i = elim (Option-cases (JsMap.get c.cache k)) [
    | inl e ↦ rw (e, step, get) (record { distinct = i.distinct; bounded = i.bounded })
    | inr (entry, e) ↦ rw (e, step, get) (get_entry-IsValid c k entry now later e i)
  ]
  step-IsValid c (sets k v now) h i = set-IsValid c k v now h i
  step-IsValid c (checks k now) h i =
      ground (arith, i.distinct, (delete-IsValid c k i).distinct, (delete-IsValid c k i).bounded)
  step-IsValid c (deletes k) h i = delete-IsValid c k i
  step-IsValid c clears h i = record { distinct = tt; bounded = omega arith }
