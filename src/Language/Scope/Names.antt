-- ===== src/Language/Scope/Names.antt =====
-- Which names of a frame a checkpoint knows, and what dropping the others leaves.
use mathlib.Core.List.{append-nil, map-append}
use pine_framework.Prelude.{
  ◌≡◌, refl, ◌∙◌, List, [], ◌∷◌, ◌++◌, true, false, String, string_eq, All, All-imp, ===-refl,
  if◌then◌else◌, arith,
}
use pine_framework.Prelude.JsMap.{JsMap, keys, Distinct, set_absent, Distinct-set}
use pine_framework.Prelude.JsMap
use pine_framework.Language.Scope.Checkpoint.{contains, drop_unknown}

contains-All : (ks : List String) → All (λ k. contains ks k ≡ true) ks
contains-All [] = tt
contains-All (k ∷ ks) = (
  rw (===-refl k) refl,
  All-imp (λ j. contains ks j ≡ true) (λ j. contains (k ∷ ks) j ≡ true) ks
      (λ j h. ground (arith, h)) (contains-All ks),
)

module _ {ℓ} {A : Type ℓ} where
  drop_unknown_kept :
      (known ks ks' : List String) (m : JsMap String A)
      → All (λ k. contains known k ≡ true) ks
      → drop_unknown known (ks ++ ks') m ≡ drop_unknown known ks' m
  unfolding drop_unknown
  drop_unknown_kept known [] ks' m a = refl
  drop_unknown_kept known (k ∷ ks) ks' m (a, rest) =
      rw (a, drop_unknown) (drop_unknown_kept known ks ks' m rest)

  has-append :
      (m n : JsMap String A) (k : String)
      → JsMap.has (m ++ n) k ≡ (if JsMap.has m k then true else JsMap.has n k)
  unfolding JsMap.has
  has-append [] n k = refl
  has-append ((j, v) ∷ m) n k = ground (arith, has-append m n k)

  delete-append :
      (m n : JsMap String A) (k : String) (v : A)
      → JsMap.has m k ≡ false
      → JsMap.delete (m ++ (k, v) ∷ n) k ≡ m ++ n
  unfolding JsMap.has JsMap.delete
  delete-append [] n k v h = rw (===-refl k) refl
  delete-append ((j, w) ∷ m) n k v h = ground (arith, delete-append m n k v)

  Distinct-append_right : (m n : JsMap String A) → Distinct (m ++ n) → Distinct n
  Distinct-append_right [] n d = d
  Distinct-append_right ((k, v) ∷ m) n d = Distinct-append_right m n d.1

  Distinct-middle :
      (m n : JsMap String A) (k : String) (v : A)
      → Distinct (m ++ (k, v) ∷ n)
      → (JsMap.has m k ≡ false) × Distinct (m ++ n)
  unfolding JsMap.has
  Distinct-middle [] n k v d = (refl, d.1)
  Distinct-middle ((j, w) ∷ m) n k v d = ground (
    arith,
    Distinct-middle m n k v d.1,
    has-append m ((k, v) ∷ n) j,
    has-append m n j,
    string_eq.beq_iff j k,
    string_eq.beq_iff k j,
  )

  drop_unknown_new :
      (known : List String) (m n : JsMap String A)
      → ((k : String) → contains known k ≡ JsMap.has m k)
      → Distinct (m ++ n)
      → drop_unknown known (keys n) (m ++ n) ≡ m
  unfolding drop_unknown
  drop_unknown_new known m [] h d = append-nil m
  drop_unknown_new known m ((k, v) ∷ n) h d =
      let (fresh, d') = Distinct-middle m n k v d in
      rw (h k ∙ fresh, drop_unknown, delete-append m n k v fresh) (drop_unknown_new known m n h d')

  keys-known : (m : JsMap String A) (k : String) → contains (keys m) k ≡ JsMap.has m k
  unfolding JsMap.has
  keys-known [] k = refl
  keys-known ((j, v) ∷ m) k = ground (arith, keys-known m k)

  -- Dropping the names that the checkpoint does not know leaves the frame as it was.
  pub drop_unknown-append :
      (known : List String) (m n : JsMap String A)
      → known ≡ keys m
      → Distinct (m ++ n)
      → drop_unknown known (keys (m ++ n)) (m ++ n) ≡ m
  drop_unknown-append known m n e d = rw (map-append _ m n) (
      drop_unknown_kept known (keys m) (keys n) (m ++ n) (rw e (contains-All (keys m)))
      ∙ drop_unknown_new known m n (λ k. rw e (keys-known m k)) d)
