-- ===== src/Extensibility/Registry/LoadOrder/Names.antt =====
-- Lists of names: membership and the number of times that a name stands in them.
use pine_framework.Prelude.{
  ℕ, ◌+◌, ◌≤◌, ◌<◌, ◌≡◌, refl, sym, subst, append_nil, append_assoc, List, [], ◌∷◌, ◌++◌, some,
  Bool, true, false, ◌||◌, String, string_eq, ◌===◌, if◌then◌else◌, arith, length,
}
use pine_framework.Prelude.JsMap.{JsMap, keys}
use pine_framework.Prelude.JsMap
use pine_framework.Extensibility.Registry.LoadOrder.{Graph, contains, edges}

abbrev pub bit : Bool → ℕ
bit b = if b then 1 else 0

abbrev pub occurrences : String → List String → ℕ
occurrences x [] = 0
occurrences x (y ∷ ys) = bit (y === x) + occurrences x ys

pub contains-append :
    (x : String) (ys zs : List String) → contains x (ys ++ zs) ≡ (contains x ys || contains x zs)
contains-append x [] zs = refl
contains-append x (y ∷ ys) zs = ground (arith, contains-append x ys zs)

pub occurrences-append :
    (x : String) (ys zs : List String)
    → occurrences x (ys ++ zs) ≡ occurrences x ys + occurrences x zs
occurrences-append x [] zs = omega arith
occurrences-append x (y ∷ ys) zs = omega (arith, occurrences-append x ys zs)

pub contains_of_occurrences :
    (x : String) (ys : List String) → 1 ≤ occurrences x ys → contains x ys ≡ true
contains_of_occurrences x [] h = ground (arith, h)
contains_of_occurrences x (y ∷ ys) h = ground (arith, h, contains_of_occurrences x ys)

pub occurrences_absent :
    (x : String) (ys : List String) → contains x ys ≡ false → occurrences x ys ≡ 0
occurrences_absent x [] h = refl
occurrences_absent x (y ∷ ys) h = ground (arith, h, occurrences_absent x ys)

-- The keys that are not among the visited names.
abbrev pub left : List String → List String → ℕ
left [] visited = 0
left (k ∷ ks) visited = bit (if contains k visited then false else true) + left ks visited

pub left-length : (ks visited : List String) → left ks visited ≤ length ks
left-length [] visited = ground arith
left-length (k ∷ ks) visited = ground (arith, left-length ks visited)

pub left_mono :
    (ks v w : List String)
    → ((x : String) → contains x v ≡ true → contains x w ≡ true)
    → left ks w ≤ left ks v
left_mono [] v w grows = ground arith
left_mono (k ∷ ks) v w grows = ground (arith, left_mono ks v w grows, grows k)

pub left_drop :
    (ks v w : List String) (name : String)
    → ((x : String) → contains x v ≡ true → contains x w ≡ true)
    → contains name ks ≡ true
    → contains name v ≡ false
    → contains name w ≡ true
    → left ks w < left ks v
left_drop [] v w name grows key old new = ground (arith, key)
left_drop (k ∷ ks) v w name grows key old new = ground (
  arith,
  left_mono ks v w grows,
  left_drop ks v w name grows,
  grows k,
  key,
  old,
  new,
  string_eq.beq_iff k name,
)

pub contains_of_edges :
    (g : Graph) (name : String) (deps : List String)
    → JsMap.get g name ≡ some deps
    → contains name (keys g) ≡ true
unfolding JsMap.get
contains_of_edges [] name deps h = cc
contains_of_edges ((k, ds) ∷ g) name deps h = ground (arith, h, contains_of_edges g name deps)

-- Each name stands behind its dependencies, where `before` stands in front of the list.
abbrev pub InOrder : Graph → List String → List String → Type 0
InOrder g before [] = Unit {0}
InOrder g before (x ∷ xs) =
    ((d : String) → contains d (edges g x) ≡ true → contains d before ≡ true)
    × InOrder g (before ++ x ∷ []) xs

pub InOrder-append :
    (g : Graph) (before xs : List String) (name : String)
    → InOrder g before xs
    → ((d : String) → contains d (edges g name) ≡ true → contains d (before ++ xs) ≡ true)
    → InOrder g before (xs ++ name ∷ [])
InOrder-append g before [] name h deps =
    (λ d e. subst (λ l. contains d l ≡ true) (append_nil before) (deps d e), tt)
InOrder-append g before (x ∷ xs) name (first, rest) deps = (
  first,
  InOrder-append g (before ++ x ∷ []) xs name rest
      (λ d e. subst (λ l. contains d l ≡ true) (sym (append_assoc before (x ∷ []) xs)) (deps d e)),
)
