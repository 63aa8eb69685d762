-- ===== src/Performance/Pool/Tests.antt =====
-- Runs of the object pool at concrete inputs.
use pine_framework.Prelude.{ℕ, ◌≤◌, ◌≡◌, ◌↔◌, refl, List, [], ◌∷◌, some, false, ltb, arith}
use pine_framework.Performance.Pool.{
  ObjectPool, PoolOptions, item, exhausted, prefill, create, acquire, finish, make, pop_valid,
  release,
}
use pine_framework.Performance.Pool.Count
use pine_framework.Performance.Pool.Count.{Call, acquires, releases, use_pool}
use pine_framework.Performance.Pool.Kinds.{create_series_pool, run}

-- Objects are numbered; one is good while its number is below 2.
abbrev options : PoolOptions ℕ
options = record {
  initial_size = 1;
  max_size = 3;
  factory = λ n. n;
  reset = λ x. x;
  validate = some (λ x. ltb x 2);
}

abbrev fresh : ObjectPool ℕ
fresh = create options

-- Two spoilt objects were given back, and none is in use.
abbrev spoilt : ObjectPool ℕ
spoilt = record fresh {
  pool = 7 ∷ 8 ∷ [];
  total_created = 3;
  total_acquired = 2;
  total_released = 2;
}

first : (acquire fresh).1 ≡ item 0
unfolding create prefill acquire
first = refl

spoilt_exhausted : (acquire spoilt).1 ≡ exhausted
unfolding create prefill acquire
spoilt_exhausted = refl

acquire-exhausted_example : ((acquire spoilt).1 ≡ exhausted) ↔ ((false ≡ false) × (3 ≤ 3))
unfolding create prefill
acquire-exhausted_example = Count.acquire-exhausted spoilt

fresh-IsValid : Count.IsValid fresh
unfolding create prefill
fresh-IsValid = record { created_le = omega arith; pool_le = omega arith }

abbrev array_calls : List (Call (List ℕ))
array_calls = acquires ∷ releases (1 ∷ 2 ∷ []) ∷ []

kept_empty : (acquire (run array_calls (create_series_pool 1 5))).1 ≡ item []
unfolding run use_pool create_series_pool create prefill acquire finish make pop_valid release
kept_empty = refl
