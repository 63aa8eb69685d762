-- ===== src/Performance/Cache/Store.antt =====
-- The cache against an unbounded store: what it returns is what was last put under the key.
use pine_framework.Prelude.{
  ℕ, ◌+◌, ◌<◌, ◌≡◌, refl, inl, inr, List, [], ◌∷◌, Option, none, some, false, Eq, if◌then◌else◌,
  arith, Option-cases, ◌===◌,
}
use pine_framework.Prelude.JsMap.{JsMap, Distinct, get-set, get-delete_self, get-delete_ne}
use pine_framework.Prelude.JsMap
use pine_framework.Performance.Cache.{
  LruCache, CacheEntry, LruOptions, create, get, get_entry, set, make_room, evict, has, has_entry,
  delete, clear,
}
use pine_framework.Performance.Cache.Calls.{Call, gets, sets, checks, deletes, clears, step, run}
use pine_framework.Performance.Cache.Bound.{IsValid, step-IsValid}

module _ {ℓ κ} {K : Type ℓ} ⦃e : Eq K⦄ {V : Type κ} where
  -- What the calls mean for a store without a bound and without expiry.
  abbrev pub store_step : (K → Option V) → Call K V → K → Option V
  store_step store (gets k now later) j = store j
  store_step store (sets k v now) j = if k === j then some v else store j
  store_step store (checks k now) j = store j
  store_step store (deletes k) j = if k === j then none else store j
  store_step store clears j = none

  unfoldable pub store_run : (K → Option V) → List (Call K V) → K → Option V
  store_run store [] = store
  store_run store (call ∷ calls) = store_run (store_step store call) calls

  -- Each entry holds what the store has under its key.
  abbrev pub Agrees : LruCache K V → (K → Option V) → Type (ℓ ⊔ κ)
  Agrees c store =
      (k : K) (entry : CacheEntry V) → JsMap.get c.cache k ≡ some entry → store k ≡ some entry.value

  get-delete :
      (m : JsMap K (CacheEntry V)) (k j : K) (x : CacheEntry V)
      → Distinct m
      → JsMap.get (JsMap.delete m k) j ≡ some x
      → ((k === j) ≡ false) × (JsMap.get m j ≡ some x)
  get-delete m k j x d h = ground (arith, e.beq_iff k j, get-delete_self m k d, get-delete_ne m k j)

  get-evict :
      (m : JsMap K (CacheEntry V)) (j : K) (x : CacheEntry V)
      → Distinct m
      → JsMap.get (evict m) j ≡ some x
      → JsMap.get m j ≡ some x
  unfolding evict
  get-evict [] j x d h = h
  get-evict ((k, v) ∷ m) j x d h = (get-delete ((k, v) ∷ m) k j x d h).1

  get-make_room :
      (c : LruCache K V) (k j : K) (x : CacheEntry V)
      → Distinct c.cache
      → JsMap.get (make_room c k) j ≡ some x
      → JsMap.get c.cache j ≡ some x
  unfolding make_room
  get-make_room c k j x d h = ground (arith, get-evict c.cache j x d, get-delete c.cache k j x d)

  get_entry-Agrees :
      (c : LruCache K V) (store : K → Option V) (k : K) (entry : CacheEntry V) (now later : ℕ)
      → IsValid c
      → Agrees c store
      → JsMap.get c.cache k ≡ some entry
      → Agrees (get_entry c k entry now later).0 store
  unfolding get_entry
  get_entry-Agrees c store k entry now later i a found j x h = ground (
    arith,
    get-set (JsMap.delete c.cache k) k
        (record entry { last_accessed = later; access_count = entry.access_count + 1 }) j,
    get-delete c.cache k j x i.distinct,
    e.beq_iff k j,
    a k entry,
    a j x,
  )

  get-Agrees :
      (c : LruCache K V) (store : K → Option V) (k : K) (now later : ℕ)
      → IsValid c
      → Agrees c store
      → Agrees (get c k now later).0 store
  unfolding get
  get-Agrees c store k now later i a = elim (Option-cases (JsMap.get c.cache k)) [
    | inl none_there ↦ rw (none_there, get) a
    | inr (entry, found) ↦ rw (found, get) (get_entry-Agrees c store k entry now later i a found)
  ]

  -- Every call keeps the cache in agreement with the store.
  pub step-Agrees :
      (c : LruCache K V) (store : K → Option V) (call : Call K V)
      → IsValid c
      → Agrees c store
      → Agrees (step c call) (store_step store call)
  unfolding step set has has_entry delete clear JsMap.get
  step-Agrees c store (gets k now later) i a = get-Agrees c store k now later i a
  step-Agrees c store (sets k v now) i a = λ j x h. ground (
    arith,
    get-set (make_room c k) k (record { value = v; last_accessed = now; access_count = 0 }) j,
    get-make_room c k j x i.distinct,
    a j x,
  )
  step-Agrees c store (checks k now) i a =
      λ j x h. ground (arith, get-delete c.cache k j x i.distinct, a j x)
  step-Agrees c store (deletes k) i a =
      λ j x h. ground (arith, get-delete c.cache k j x i.distinct, a j x)
  step-Agrees c store clears i a = λ j x h. cc

  get_value :
      (c : LruCache K V) (store : K → Option V) (k : K) (now later : ℕ) (v : V)
      → Agrees c store
      → (get c k now later).1 ≡ some v
      → store k ≡ some v
  unfolding get get_entry
  get_value c store k now later v a h = elim (Option-cases (JsMap.get c.cache k)) [
    | inl none_there ↦ ground arith
    | inr (entry, found) ↦ ground (arith, a k entry)
  ]

  step-max_size : (c : LruCache K V) (call : Call K V) → (step c call).max_size ≡ c.max_size
  unfolding step get get_entry set has has_entry delete clear
  step-max_size c (gets k now later) = ground arith
  step-max_size c (sets k v now) = refl
  step-max_size c (checks k now) = ground arith
  step-max_size c (deletes k) = refl
  step-max_size c clears = refl

  create-IsValid : (options : LruOptions) → IsValid {K = K} {V = V} (create options)
  unfolding create
  create-IsValid options = record { distinct = tt; bounded = omega arith }

  create-Agrees : (options : LruOptions) → Agrees (create {K = K} {V = V} options) (λ j. none)
  unfolding create JsMap.get
  create-Agrees options = λ j x h. cc

  run-Agrees :
      (c : LruCache K V) (store : K → Option V) (calls : List (Call K V))
      → 0 < c.max_size
      → IsValid c
      → Agrees c store
      → Agrees (run c calls) (store_run store calls)
  unfolding run store_run
  run-Agrees c store [] h i a = a
  run-Agrees c store (call ∷ calls) h i a =
      run-Agrees (step c call) (store_step store call) calls (rw (step-max_size c call) h)
        (step-IsValid c call h i) (step-Agrees c store call i a)

  -- After any calls on a new cache with a positive bound, a value that `get` returns is the one last put under the key.
  pub get-run :
      (options : LruOptions) (calls : List (Call K V)) (k : K) (now later : ℕ) (v : V)
      → 0 < options.max_size
      → (get (run (create options) calls) k now later).1 ≡ some v
      → store_run (λ j. none) calls k ≡ some v
  unfolding create
  get-run options calls k now later v h found =
      get_value (run (create options) calls) _ k now later v
        (run-Agrees (create options) (λ j. none) calls h (create-IsValid options)
          (create-Agrees options))
        found
