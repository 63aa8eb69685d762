-- ===== src/Performance/Cache/Calls.antt =====
-- The calls on a cache, as data, and runs of them.
use pine_framework.Prelude.{ℕ, List, [], ◌∷◌, Eq}
use pine_framework.Performance.Cache.{LruCache, get, set, has, delete, clear}

pub data Call {ℓ κ} (K : Type ℓ) (V : Type κ) : Type (ℓ ⊔ κ) where
  gets : K → ℕ → ℕ → Call K V
  sets : K → V → ℕ → Call K V
  checks : K → ℕ → Call K V
  deletes : K → Call K V
  clears : Call K V

module _ {ℓ κ} {K : Type ℓ} ⦃e : Eq K⦄ {V : Type κ} where
  unfoldable pub step : LruCache K V → Call K V → LruCache K V
  step c (gets k now later) = (get c k now later).0
  step c (sets k v now) = set c k v now
  step c (checks k now) = (has c k now).0
  step c (deletes k) = (delete c k).0
  step c clears = clear c

  unfoldable pub run : LruCache K V → List (Call K V) → LruCache K V
  run c [] = c
  run c (call ∷ calls) = run (step c call) calls
