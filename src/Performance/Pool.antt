-- ===== src/Performance/Pool.antt =====
-- src/performance/object-pool.ts. The pool's array is a list whose head is the array's end, where
-- `push` and `pop` work. Items are truthy, as objects are.
pub mod Count
pub mod Kinds
pub mod Tests
use pine_framework.Prelude.{
  ℕ, zero, suc, ◌+◌, List, [], ◌∷◌, Option, none, some, Bool, true, false, ltb, if◌then◌else◌,
  length,
}

-- `factory` is given the number of items made before, so that each call may make another object.
pub record PoolOptions {ℓ} (T : Type ℓ) : Type ℓ where
  pub initial_size : ℕ
  pub max_size : ℕ
  pub factory : ℕ → T
  pub reset : T → T
  pub validate : Option (T → Bool)

pub record ObjectPool {ℓ} (T : Type ℓ) : Type ℓ where
  pub options : PoolOptions T
  pub open options use *
  pub pool : List T
  pub total_created : ℕ
  pub total_acquired : ℕ
  pub total_released : ℕ

pub data Acquired {ℓ} (T : Type ℓ) : Type ℓ where
  item : T → Acquired T
  exhausted : Acquired T

pub record PoolStats : Type 0 where
  pub total_created : ℕ
  pub total_acquired : ℕ
  pub total_released : ℕ
  pub pool_size : ℕ

abbrev pub is_fit {ℓ} : {T : Type ℓ} → Option (T → Bool) → T → Bool
is_fit none x = true
is_fit (some validate) x = validate x

module _ {ℓ} {T : Type ℓ} where
  -- The constructor's loop.
  unfoldable pub prefill : ℕ → ObjectPool T → ObjectPool T
  prefill zero p = p
  prefill (suc n) p =
      prefill n (record p {
        pool = p.factory p.total_created ∷ p.pool;
        total_created = p.total_created + 1;
      })

  unfoldable pub create : PoolOptions T → ObjectPool T
  unfolding prefill
  create options = prefill options.initial_size (record {
    options = options;
    pool = [];
    total_created = 0;
    total_acquired = 0;
    total_released = 0;
  })

  -- The loop of `acquire`: items that do not validate are dropped.
  unfoldable pub pop_valid : Option (T → Bool) → List T → Option T × List T
  pop_valid validate [] = (none, [])
  pop_valid validate (x ∷ xs) =
      let rest = pop_valid validate xs in if is_fit validate x then (some x, xs) else rest

  unfoldable pub make : ObjectPool T → ObjectPool T × Acquired T
  make p =
      if ltb p.total_created p.max_size
      then (
        record p { total_created = p.total_created + 1; total_acquired = p.total_acquired + 1 },
        item (p.factory p.total_created),
      )
      else (p, exhausted)

  unfoldable pub finish : ObjectPool T → Option T × List T → ObjectPool T × Acquired T
  unfolding make
  finish p (some x, rest) =
      (record p { pool = rest; total_acquired = p.total_acquired + 1 }, item x)
  finish p (none, rest) = make (record p { pool = rest })

  unfoldable pub acquire : ObjectPool T → ObjectPool T × Acquired T
  unfolding finish pop_valid
  acquire p = finish p (pop_valid p.validate p.pool)

  unfoldable pub release : ObjectPool T → T → ObjectPool T
  release p x =
      if ltb (length p.pool) p.max_size
      then record p { pool = p.reset x ∷ p.pool; total_released = p.total_released + 1 }
      else p

  unfoldable pub clear : ObjectPool T → ObjectPool T
  clear p = record p { pool = [] }

  -- `stats` without the utilization, a quotient of the others.
  unfoldable pub stats : ObjectPool T → PoolStats
  stats p = record {
    total_created = p.total_created;
    total_acquired = p.total_acquired;
    total_released = p.total_released;
    pool_size = length p.pool;
  }
