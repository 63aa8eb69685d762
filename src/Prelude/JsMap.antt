-- ===== src/Prelude/JsMap.antt =====
-- A JavaScript `Map`: its entries in the order of insertion. `set` on a key that is there keeps the
-- entry's place.
use pine_framework.Prelude.Tests.{if◌then◌else◌}
use pine_framework.Prelude.Lists.{length}
use pine_framework.Prelude.Keys.{Eq, ◌===◌}
use Prim.Native.Nat.{suc}
use mathlib.Core.Path.{◌≡◌, refl}
use mathlib.Core.Bool.{Bool, true, false}
use mathlib.Core.Option.{Option, none, some}
use mathlib.Core.List.{List, [], ◌∷◌, ◌++◌, map}
use native.Mathlib.Omega.{arith}

abbrev pub JsMap {ℓ κ} : Type ℓ → Type κ → Type (ℓ ⊔ κ)
JsMap K V = List (K × V)

module _ {ℓ κ} {K : Type ℓ} {V : Type κ} where
  abbrev pub keys : JsMap K V → List K
  keys = map λ e. e.0

  abbrev pub values : JsMap K V → List V
  values = map λ e. e.1

module _ {ℓ κ} {K : Type ℓ} ⦃e : Eq K⦄ {V : Type κ} where
  unfoldable pub get : JsMap K V → K → Option V
  get [] k = none
  get ((j, v) ∷ m) k = if j === k then some v else get m k

  unfoldable pub has : JsMap K V → K → Bool
  has [] k = false
  has ((j, v) ∷ m) k = if j === k then true else has m k

  unfoldable pub set : JsMap K V → K → V → JsMap K V
  set [] k v = (k, v) ∷ []
  set ((j, w) ∷ m) k v = if j === k then (j, v) ∷ m else (j, w) ∷ set m k v

  unfoldable pub delete : JsMap K V → K → JsMap K V
  delete [] k = []
  delete ((j, w) ∷ m) k = if j === k then m else (j, w) ∷ delete m k

  -- No key stands twice.
  abbrev pub Distinct : JsMap K V → Type 0
  Distinct [] = Unit {0}
  Distinct ((k, v) ∷ m) = (has m k ≡ false) × Distinct m

  pub get-set :
      (m : JsMap K V) (k : K) (v : V) (j : K)
      → get (set m k v) j ≡ (if k === j then some v else get m j)
  unfolding get set
  get-set [] k v j = refl
  get-set ((i, w) ∷ m) k v j =
      ground (arith, get-set m k v j, e.beq_iff i k, e.beq_iff i j, e.beq_iff k j)

  pub has-set :
      (m : JsMap K V) (k : K) (v : V) (j : K)
      → has (set m k v) j ≡ (if k === j then true else has m j)
  unfolding has set
  has-set [] k v j = refl
  has-set ((i, w) ∷ m) k v j =
      ground (arith, has-set m k v j, e.beq_iff i k, e.beq_iff i j, e.beq_iff k j)

  pub has_of_get : (m : JsMap K V) (k : K) (v : V) → get m k ≡ some v → has m k ≡ true
  unfolding get has
  has_of_get [] k v h = cc
  has_of_get ((i, w) ∷ m) k v h = ground (arith, has_of_get m k v)

  pub get_of_not_has : (m : JsMap K V) (k : K) → has m k ≡ false → get m k ≡ none
  unfolding get has
  get_of_not_has [] k h = refl
  get_of_not_has ((i, w) ∷ m) k h = ground (arith, get_of_not_has m k)

  pub not_has_of_get : (m : JsMap K V) (k : K) → get m k ≡ none → has m k ≡ false
  unfolding get has
  not_has_of_get [] k h = refl
  not_has_of_get ((i, w) ∷ m) k h = ground (arith, not_has_of_get m k)

  pub has-delete_self : (m : JsMap K V) (k : K) → Distinct m → has (delete m k) k ≡ false
  unfolding has delete
  has-delete_self [] k d = refl
  has-delete_self ((i, w) ∷ m) k d = ground (arith, has-delete_self m k d.1, e.beq_iff i k)

  pub has-delete_ne : (m : JsMap K V) (k j : K) → (k === j) ≡ false → has (delete m k) j ≡ has m j
  unfolding has delete
  has-delete_ne [] k j n = refl
  has-delete_ne ((i, w) ∷ m) k j n =
      ground (arith, has-delete_ne m k j n, e.beq_iff i k, e.beq_iff i j, e.beq_iff k j)

  pub get-delete_ne : (m : JsMap K V) (k j : K) → (k === j) ≡ false → get (delete m k) j ≡ get m j
  unfolding get delete
  get-delete_ne [] k j n = refl
  get-delete_ne ((i, w) ∷ m) k j n =
      ground (arith, get-delete_ne m k j n, e.beq_iff i k, e.beq_iff i j, e.beq_iff k j)

  pub get-delete_self : (m : JsMap K V) (k : K) → Distinct m → get (delete m k) k ≡ none
  get-delete_self m k d = get_of_not_has _ k (has-delete_self m k d)

  pub delete_absent : (m : JsMap K V) (k : K) → has m k ≡ false → delete m k ≡ m
  unfolding has delete
  delete_absent [] k h = refl
  delete_absent ((i, w) ∷ m) k h = ground (arith, delete_absent m k)

  -- Deleting never makes a key appear.
  pub not_has-delete : (m : JsMap K V) (k j : K) → has m j ≡ false → has (delete m k) j ≡ false
  unfolding has delete
  not_has-delete [] k j h = refl
  not_has-delete ((i, w) ∷ m) k j h = ground (arith, not_has-delete m k j)

  pub Distinct-set : (m : JsMap K V) (k : K) (v : V) → Distinct m → Distinct (set m k v)
  unfolding set has
  Distinct-set [] k v d = (refl, tt)
  Distinct-set ((i, w) ∷ m) k v d =
      ground (arith, Distinct-set m k v d.1, has-set m k v i, e.beq_iff i k, e.beq_iff k i)

  pub Distinct-delete : (m : JsMap K V) (k : K) → Distinct m → Distinct (delete m k)
  unfolding delete
  Distinct-delete [] k d = tt
  Distinct-delete ((i, w) ∷ m) k d =
      ground (arith, Distinct-delete m k d.1, not_has-delete m k i d.0)

  pub length-set :
      (m : JsMap K V) (k : K) (v : V)
      → length (set m k v) ≡ (if has m k then length m else suc (length m))
  unfolding set has
  length-set [] k v = refl
  length-set ((i, w) ∷ m) k v = ground (arith, length-set m k v)

  pub length-delete :
      (m : JsMap K V) (k : K)
      → length m ≡ (if has m k then suc (length (delete m k)) else length (delete m k))
  unfolding delete has
  length-delete [] k = refl
  length-delete ((i, w) ∷ m) k = ground (arith, length-delete m k)

  -- A new key goes to the end.
  pub set_absent : (m : JsMap K V) (k : K) (v : V) → has m k ≡ false → set m k v ≡ m ++ (k, v) ∷ []
  unfolding set has
  set_absent [] k v h = refl
  set_absent ((i, w) ∷ m) k v h = ground (arith, set_absent m k v)
