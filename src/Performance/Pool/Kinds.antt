-- ===== src/Performance/Pool/Kinds.antt =====
-- SeriesPool and MapPool of src/performance/object-pool.ts: pools of lists and of maps that are emptied when
-- they are released.
use pine_framework.Prelude.{
  ℕ, zero, suc, ◌≡◌, ◌⊎◌, inl, inr, ap, refl, List, [], ◌∷◌, Option, none, some, Bool, length, ltb,
  All, if-elim,
}
use pine_framework.Prelude.JsMap.{JsMap}
use pine_framework.Performance.Pool.{
  ObjectPool, Acquired, item, exhausted, is_fit, prefill, create, pop_valid, make, finish, acquire,
  release, clear,
}
use pine_framework.Performance.Pool.Count.{Call, acquires, releases, clears, use_pool}

unfoldable pub create_series_pool {ℓ} : {N : Type ℓ} → ℕ → ℕ → ObjectPool (List N)
create_series_pool initial_size max_size = create (record {
  initial_size = initial_size;
  max_size = max_size;
  factory = λ n. [];
  reset = λ arr. [];
  validate = none;
})

unfoldable pub create_map_pool {ℓ κ} : {K : Type ℓ} {V : Type κ} → ℕ → ℕ → ObjectPool (JsMap K V)
create_map_pool initial_size max_size = create (record {
  initial_size = initial_size;
  max_size = max_size;
  factory = λ n. [];
  reset = λ m. [];
  validate = none;
})

module _ {A : Type 0} where
  -- New, reset and pooled items are empty.
  record IsClean (p : ObjectPool (List A)) : Type 0 where
    made : (n : ℕ) → p.factory n ≡ []
    reset_empty : (xs : List A) → p.reset xs ≡ []
    pooled : All (λ x. x ≡ []) p.pool

  IsEmpty : Acquired (List A) → Type 0
  IsEmpty (item x) = x ≡ []
  IsEmpty exhausted = Unit {0}

  IsEmptySome : Option (List A) → Type 0
  IsEmptySome none = Unit {0}
  IsEmptySome (some x) = x ≡ []

  pop_empty :
      (v : Option (List A → Bool)) (xs : List (List A))
      → All (λ x. x ≡ []) xs
      → IsEmptySome (pop_valid v xs).0 × All (λ x. x ≡ []) (pop_valid v xs).1
  unfolding pop_valid IsEmptySome
  pop_empty v [] h = (tt, tt)
  pop_empty v (x ∷ xs) (h, hs) =
      if-elim (λ (r : Option (List A) × List (List A)). IsEmptySome r.0 × All (λ x. x ≡ []) r.1)
        (is_fit v x) (some x, xs) (pop_valid v xs) (λ e. (h, hs)) (λ e. pop_empty v xs hs)

  finish-IsClean :
      (p : ObjectPool (List A)) (r : Option (List A) × List (List A))
      → IsClean p
      → IsEmptySome r.0
      → All (λ x. x ≡ []) r.1
      → IsClean (finish p r).0 × IsEmpty (finish p r).1
  unfolding finish make IsEmpty IsEmptySome
  finish-IsClean p (some x, rest) c h hs =
      (record { made = c.made; reset_empty = c.reset_empty; pooled = hs }, h)
  finish-IsClean p (none, rest) c h hs =
      if-elim (λ (o : ObjectPool (List A) × Acquired (List A)). IsClean o.0 × IsEmpty o.1)
        (ltb p.total_created p.max_size) _ _
        (λ e. (
          record { made = c.made; reset_empty = c.reset_empty; pooled = hs },
          c.made p.total_created,
        ))
        (λ e. (record { made = c.made; reset_empty = c.reset_empty; pooled = hs }, tt))

  acquire-IsClean :
      (p : ObjectPool (List A)) → IsClean p → IsClean (acquire p).0 × IsEmpty (acquire p).1
  unfolding acquire
  acquire-IsClean p c =
      let (h, hs) = pop_empty p.validate p.pool c.pooled in
      finish-IsClean p (pop_valid p.validate p.pool) c h hs

  use_pool-IsClean :
      (p : ObjectPool (List A)) (call : Call (List A)) → IsClean p → IsClean (use_pool p call)
  unfolding use_pool release clear
  use_pool-IsClean p acquires c = (acquire-IsClean p c).0
  use_pool-IsClean p (releases x) c =
      if-elim (λ (q : ObjectPool (List A)). IsClean q) (ltb (length p.pool) p.max_size) _ _
        (λ e. record {
          made = c.made;
          reset_empty = c.reset_empty;
          pooled = (c.reset_empty x, c.pooled);
        })
        (λ e. c)
  use_pool-IsClean p clears c = record { made = c.made; reset_empty = c.reset_empty; pooled = tt }

  unfoldable pub run : List (Call (List A)) → ObjectPool (List A) → ObjectPool (List A)
  run [] p = p
  run (call ∷ calls) p = run calls (use_pool p call)

  run-IsClean :
      (calls : List (Call (List A))) (p : ObjectPool (List A)) → IsClean p → IsClean (run calls p)
  unfolding run
  run-IsClean [] p c = c
  run-IsClean (call ∷ calls) p c = run-IsClean calls (use_pool p call) (use_pool-IsClean p call c)

  prefill-IsClean : (n : ℕ) (p : ObjectPool (List A)) → IsClean p → IsClean (prefill n p)
  unfolding prefill
  prefill-IsClean zero p c = c
  prefill-IsClean (suc n) p c = prefill-IsClean n _ (record {
    made = c.made;
    reset_empty = c.reset_empty;
    pooled = (c.made p.total_created, c.pooled);
  })

  empty_or : (a : Acquired (List A)) → IsEmpty a → (a ≡ item []) ⊎ (a ≡ exhausted)
  unfolding IsEmpty
  empty_or (item y) h = inl (ap item h)
  empty_or exhausted h = inr refl

  -- After any calls on a new SeriesPool, whatever arrays were released to it, it hands out an empty
  -- array or is exhausted.
  pub acquire-create_series_pool :
      (initial_size max_size : ℕ) (calls : List (Call (List A)))
      → let a = (acquire (run calls (create_series_pool initial_size max_size))).1 in
        (a ≡ item []) ⊎ (a ≡ exhausted)
  unfolding create_series_pool create
  acquire-create_series_pool initial_size max_size calls =
      empty_or _
        (acquire-IsClean _ (
          run-IsClean calls _ (
            prefill-IsClean initial_size _
              (record { made = λ n. refl; reset_empty = λ xs. refl; pooled = tt })))).1
