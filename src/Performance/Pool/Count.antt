-- ===== src/Performance/Pool/Count.antt =====
-- How many objects a pool makes, keeps and hands out.
use Prim.Native.Nat.{max}
use pine_framework.Prelude.{
  ◌≤◌, ◌≡◌, refl, ◌⊎◌, ◌↔◌, inl, inr, List, [], ◌∷◌, Option, none, some, Bool, true, false,
  if◌then◌else◌, length, arith, Bool-cases,
}
use pine_framework.Performance.Pool.{
  ObjectPool, item, exhausted, is_fit, pop_valid, make, finish, acquire, release, clear,
}

pub data Call {ℓ} (T : Type ℓ) : Type ℓ where
  acquires : Call T
  releases : T → Call T
  clears : Call T

module _ {ℓ} {T : Type ℓ} where
  pub record IsValid (p : ObjectPool T) : Type 0 where
    pub created_le : p.total_created ≤ max p.initial_size p.max_size
    pub pool_le : length p.pool ≤ max p.initial_size p.max_size

  length-pop_valid :
      (validate : Option (T → Bool)) (xs : List T) → length (pop_valid validate xs).1 ≤ length xs
  unfolding pop_valid
  length-pop_valid validate [] = omega arith
  length-pop_valid validate (x ∷ xs) = ground (arith, length-pop_valid validate xs)

  -- What the loop drops does not validate, and what it finds does.
  pub pop_valid_lem :
      (validate : Option (T → Bool)) (xs : List T) (x : T)
      → (pop_valid validate xs).0 ≡ some x
      → is_fit validate x ≡ true
  unfolding pop_valid
  pop_valid_lem validate [] x h = cc
  pop_valid_lem validate (y ∷ xs) x h = ground (arith, pop_valid_lem validate xs x)

  -- Whether some pooled item validates.
  abbrev pub some_fit : Option (T → Bool) → List T → Bool
  some_fit validate [] = false
  some_fit validate (x ∷ xs) = if is_fit validate x then true else some_fit validate xs

  pop_valid-none :
      (validate : Option (T → Bool)) (xs : List T)
      → some_fit validate xs ≡ false
      → pop_valid validate xs ≡ (none, [])
  unfolding pop_valid
  pop_valid-none validate [] h = refl
  pop_valid-none validate (x ∷ xs) h = ground (arith, pop_valid-none validate xs)

  pop_valid-some :
      (validate : Option (T → Bool)) (xs : List T)
      → some_fit validate xs ≡ true
      → (x : T) × ((pop_valid validate xs).0 ≡ some x)
  unfolding pop_valid
  pop_valid-some validate [] h = absurd (ground arith)
  pop_valid-some validate (x ∷ xs) h = elim (Bool-cases (is_fit validate x)) [
    | inl fit ↦ (x, ground arith)
    | inr unfit ↦ let (y, e) = pop_valid-some validate xs (ground arith) in (y, ground arith)
  ]

  finish-exhausted :
      (p : ObjectPool T) (r : Option T × List T) (x : T)
      → r.0 ≡ some x
      → some_fit p.validate p.pool ≡ true
      → ((finish p r).1 ≡ exhausted)
        ↔ ((some_fit p.validate p.pool ≡ false) × (p.max_size ≤ p.total_created))
  unfolding finish
  finish-exhausted p r x e fit = ground arith

  finish-fit :
      (p : ObjectPool T) (r : Option T × List T) (x : T)
      → (r.0 ≡ some x → is_fit p.validate x ≡ true)
      → (finish p r).1 ≡ item x
      → (is_fit p.validate x ≡ true) ⊎ (x ≡ p.factory p.total_created)
  unfolding finish
  finish-fit p r x valid h = ground arith

  make-exhausted :
      (p : ObjectPool T)
      → some_fit p.validate p.pool ≡ false
      → ((make (record p { pool = [] })).1 ≡ exhausted)
        ↔ ((some_fit p.validate p.pool ≡ false) × (p.max_size ≤ p.total_created))
  unfolding make
  make-exhausted p h = ground (arith, h)

  -- `acquire` fails exactly when no pooled item validates and the bound on objects is reached.
  pub acquire-exhausted :
      (p : ObjectPool T)
      → ((acquire p).1 ≡ exhausted)
        ↔ ((some_fit p.validate p.pool ≡ false) × (p.max_size ≤ p.total_created))
  unfolding acquire
  acquire-exhausted p = elim (Bool-cases (some_fit p.validate p.pool)) [
    | inl fit ↦
        let (x, e) = pop_valid-some p.validate p.pool fit in
        finish-exhausted p (pop_valid p.validate p.pool) x e fit
    | inr unfit ↦ rw (pop_valid-none p.validate p.pool unfit) (make-exhausted p unfit)
  ]

  -- If `acquire` finds the pool exhausted, it does so again when called next.
  pub acquire_again :
      (p : ObjectPool T) → (acquire p).1 ≡ exhausted → (acquire (acquire p).0).1 ≡ exhausted
  unfolding acquire finish make pop_valid
  acquire_again p h =
      let (unfit, spent) = (acquire-exhausted p).0 h in
      rw (pop_valid-none p.validate p.pool unfit) (ground (arith, spent))

  -- An item that `acquire` hands out validates or is new.
  pub acquire-fit :
      (p : ObjectPool T) (x : T)
      → (acquire p).1 ≡ item x
      → (is_fit p.validate x ≡ true) ⊎ (x ≡ p.factory p.total_created)
  unfolding acquire
  acquire-fit p x h =
      finish-fit p (pop_valid p.validate p.pool) x (pop_valid_lem p.validate p.pool x) h

  finish-IsValid :
      (p : ObjectPool T) (r : Option T × List T)
      → length r.1 ≤ length p.pool
      → IsValid p
      → IsValid (finish p r).0
  unfolding finish make
  finish-IsValid p r h i = ground (arith, i.created_le, i.pool_le)

  unfoldable pub use_pool : ObjectPool T → Call T → ObjectPool T
  use_pool p acquires = (acquire p).0
  use_pool p (releases x) = release p x
  use_pool p clears = clear p

  -- If a pool has made and keeps no more objects than the larger of the initial and the maximal size,
  -- then it is so after every call.
  pub use_pool-IsValid : (p : ObjectPool T) (c : Call T) → IsValid p → IsValid (use_pool p c)
  unfolding use_pool acquire release clear
  use_pool-IsValid p acquires i =
      finish-IsValid p (pop_valid p.validate p.pool) (length-pop_valid p.validate p.pool) i
  use_pool-IsValid p (releases x) i = record {
    created_le = ground (arith, i.created_le);
    pool_le = ground (arith, i.pool_le);
  }
  use_pool-IsValid p clears i = record { created_le = i.created_le; pool_le = omega arith }
