-- ===== src/Extensibility/Registry/LoadOrder/Visits.antt =====
-- The walk of `getLoadOrder`: it ends, and its invariant.
use pine_framework.Prelude.{
  ℕ, zero, suc, ◌+◌, ◌<◌, ◌⊎◌, ◌≡◌, refl, ap, subst, List, [], ◌∷◌, Option, none, some, true, false,
  String, string_eq, ◌===◌, Bool-cases, Option-cases, inl, inr, eq_of_===, arith,
}
use pine_framework.Prelude.JsMap.{JsMap, keys}
use pine_framework.Prelude.JsMap
use pine_framework.Extensibility.Registry.LoadOrder.{
  Graph, Walk, contains, edges, mark_visited, push_name, visit_each, visit,
}
use pine_framework.Extensibility.Registry.LoadOrder.Names.{
  bit, occurrences, contains-append, occurrences-append, contains_of_occurrences,
  occurrences_absent, left, left_drop, left_mono, contains_of_edges, InOrder, InOrder-append,
}

-- While the visits of `stack` are under way, every visited name is on it or in the order, once.
abbrev pub Once : List String → Walk → Type 0
Once stack w =
    (x : String) → occurrences x w.order + occurrences x stack ≡ bit (contains x w.visited)

-- Every dependency has a smaller rank, so that there is no cycle.
abbrev pub Ranked : Graph → (String → ℕ) → Type 0
Ranked g rank = (x d : String) → contains d (edges g x) ≡ true → rank d < rank x

abbrev pub Below : (String → ℕ) → List String → List String → Type 0
Below rank stack names =
    (s d : String) → contains s stack ≡ true → contains d names ≡ true → rank d < rank s

abbrev pub Grows : Walk → Walk → Type 0
Grows w w' = (x : String) → contains x w.visited ≡ true → contains x w'.visited ≡ true

-- What the visits of names make of a walk.
pub record Went (g : Graph) (rank : String → ℕ) (stack names : List String) (w w' : Walk)
    : Type 0 where
  pub once : Once stack w'
  pub seen : (x : String) → contains x names ≡ true → contains x w'.visited ≡ true
  pub grows : Grows w w'
  pub in_order :
      Ranked g rank → Below rank stack names → InOrder g [] w.order → InOrder g [] w'.order

abbrev pub Outcome : Graph → (String → ℕ) → List String → List String → Walk → Option Walk → Type 0
Outcome g rank stack names w o = (w' : Walk) × ((o ≡ some w') × Went g rank stack names w w')

contains_self : (x y : String) → contains x (y ∷ []) ≡ true → y ≡ x
contains_self x y h = ground (arith, h, eq_of_=== y x)

marked-Once :
    (name : String) (stack : List String) (w : Walk)
    → contains name w.visited ≡ false
    → Once stack w
    → Once (name ∷ stack) (mark_visited name w)
marked-Once name stack w new once x =
    ground (arith, once x, contains-append x w.visited (name ∷ []), string_eq.beq_iff name x, new)

pushed-Once :
    (name : String) (stack : List String) (w : Walk)
    → Once (name ∷ stack) w
    → Once stack (push_name name w)
pushed-Once name stack w once x = ground (arith, once x, occurrences-append x w.order (name ∷ []))

marked-Grows : (name : String) (w : Walk) → Grows w (mark_visited name w)
marked-Grows name w x h = ground (arith, h, contains-append x w.visited (name ∷ []))

marked_self : (name : String) (w : Walk) → contains name (mark_visited name w).visited ≡ true
marked_self name w =
    ground (arith, contains-append name w.visited (name ∷ []), string_eq.beq_iff name name)

module _ (g : Graph) (rank : String → ℕ) where
  nothing-Went : (stack : List String) (w : Walk) → Once stack w → Went g rank stack [] w w
  nothing-Went stack w once = record {
    once = once;
    seen = λ x h. ground (arith, h);
    grows = λ x h. h;
    in_order = λ ranked below h. h;
  }

  both-Went :
      (stack : List String) (name : String) (names : List String) (w w' w'' : Walk)
      → Went g rank stack (name ∷ []) w w'
      → Went g rank stack names w' w''
      → Went g rank stack (name ∷ names) w w''
  both-Went stack name names w w' w'' first rest = record {
    once = rest.once;
    seen = λ x h. ground (arith, h, rest.grows x, first.seen x, rest.seen x);
    grows = λ x h. rest.grows x (first.grows x h);
    in_order = λ ranked below h.
        rest.in_order ranked (λ s d e e'. below s d e (ground (arith, e')))
          (first.in_order ranked (λ s d e e'. below s d e (ground (arith, e'))) h);
  }

  -- The loop over names, for a visit that succeeds while fewer than `bound` keys are left.
  pub visit_each_went :
      (v : String → Walk → Option Walk) (bound : ℕ) (stack : List String)
      (visits : (name : String) (w : Walk)
        → Once stack w
        → left (keys g) w.visited < bound
        → Outcome g rank stack (name ∷ []) w (v name w))
      (names : List String) (w : Walk)
      → Once stack w
      → left (keys g) w.visited < bound
      → Outcome g rank stack names w (visit_each v names w)
  unfolding visit_each
  visit_each_went v bound stack visits [] w once enough = (w, (refl, nothing-Went stack w once))
  visit_each_went v bound stack visits (name ∷ names) w once enough =
      let (w', (found, first)) = visits name w once enough in
      let fewer : left (keys g) w'.visited < bound =
        omega (arith, left_mono (keys g) w.visited w'.visited first.grows, enough) in
      let (w'', (found', rest)) = visit_each_went v bound stack visits names w' first.once fewer in
      (w'', (cc, both-Went stack name names w w' w'' first rest))

  again-Went :
      (stack : List String) (name : String) (w : Walk)
      → contains name w.visited ≡ true
      → Once stack w
      → Went g rank stack (name ∷ []) w w
  again-Went stack name w e once = record {
    once = once;
    seen = λ x h. subst (λ y. contains y w.visited ≡ true) (contains_self x name h) e;
    grows = λ x h. h;
    in_order = λ ranked below h. h;
  }

  -- A dependency that was visited stands in the order: it is not on the stack, whose ranks are greater.
  dep_ordered :
      (stack : List String) (name : String) (w : Walk)
      → Once (name ∷ stack) w
      → Below rank (name ∷ stack) (edges g name)
      → ((x : String) → contains x (edges g name) ≡ true → contains x w.visited ≡ true)
      → (d : String) → contains d (edges g name) ≡ true
      → contains d w.order ≡ true
  dep_ordered stack name w once below seen d e = elim (Bool-cases (contains d (name ∷ stack))) [
    | inl on ↦ ground (arith, below d d on e)
    | inr off ↦
        contains_of_occurrences d w.order
          (ground (arith, once d, occurrences_absent d (name ∷ stack) off, seen d e))
  ]

  deeper-Below :
      (stack : List String) (name : String)
      → Ranked g rank
      → Below rank stack (name ∷ [])
      → Below rank (name ∷ stack) (edges g name)
  deeper-Below stack name ranked below s d e e' = elim (Bool-cases (name === s)) [
    | inl same ↦ subst (λ y. rank d < rank y) (eq_of_=== name s same) (ranked name d e')
    | inr other ↦
        let above : rank name < rank s =
          below s name (ground (arith, e, other)) (ground (arith, string_eq.beq_iff name name)) in
        omega (arith, above, ranked name d e')
  ]

  pushed-Went :
      (stack : List String) (name : String) (w w' : Walk)
      → contains name w.visited ≡ false
      → Went g rank (name ∷ stack) (edges g name) (mark_visited name w) w'
      → Went g rank stack (name ∷ []) w (push_name name w')
  pushed-Went stack name w w' new went = record {
    once = pushed-Once name stack w' went.once;
    seen = λ x h.
        subst (λ y. contains y w'.visited ≡ true) (contains_self x name h)
          (went.grows name (marked_self name w));
    grows = λ x h. went.grows x (marked-Grows name w x h);
    in_order = λ ranked below h.
        let deeper : Below rank (name ∷ stack) (edges g name) =
          deeper-Below stack name ranked below in
        InOrder-append g [] w'.order name (went.in_order ranked deeper h)
          (dep_ordered stack name w' went.once deeper went.seen);
  }

  -- A name without dependencies, or one less key is left.
  fewer_left :
      (n : ℕ) (name : String) (w : Walk)
      → contains name w.visited ≡ false
      → left (keys g) w.visited < suc n
      → (edges g name ≡ []) ⊎ (left (keys g) (mark_visited name w).visited < n)
  fewer_left n name w new enough = elim (Option-cases (JsMap.get g name)) [
    | inl e ↦ inl (ap (λ (o : Option (List String)). elim o [ none ↦ [] | some deps ↦ deps ]) e)
    | inr (deps, e) ↦ inr (
        omega (
          arith,
          enough,
          left_drop (keys g) w.visited (mark_visited name w).visited name (marked-Grows name w)
              (contains_of_edges g name deps e) new (marked_self name w),
        ))
  ]

  deps_went :
      (v : String → Walk → Option Walk) (n : ℕ) (stack : List String)
      (visits : (name : String) (w : Walk)
        → Once stack w
        → left (keys g) w.visited < n
        → Outcome g rank stack (name ∷ []) w (v name w))
      (deps : List String) (w : Walk)
      → Once stack w
      → (deps ≡ []) ⊎ (left (keys g) w.visited < n)
      → Outcome g rank stack deps w (visit_each v deps w)
  unfolding visit_each
  deps_went v n stack visits [] w once few = (w, (refl, nothing-Went stack w once))
  deps_went v n stack visits (d ∷ ds) w once (inl e) = cc
  deps_went v n stack visits (d ∷ ds) w once (inr enough) =
      visit_each_went v n stack visits (d ∷ ds) w once enough

  -- With more fuel than keys are left, a visit ends and keeps the invariant.
  pub visit_went :
      (n : ℕ) (stack : List String) (name : String) (w : Walk)
      → Once stack w
      → left (keys g) w.visited < n
      → Outcome g rank stack (name ∷ []) w (visit n g name w)
  unfolding visit
  visit_went zero stack name w once enough = ground (arith, enough)
  visit_went (suc n) stack name w once enough = elim (Bool-cases (contains name w.visited)) [
    | inl e ↦ (w, (rw e refl, again-Went stack name w e once))
    | inr e ↦
        let (w', (found, went)) =
          deps_went (visit n g) n (name ∷ stack) (visit_went n (name ∷ stack)) (edges g name)
            (mark_visited name w) (marked-Once name stack w e once)
            (fewer_left n name w e enough) in
        (push_name name w', (ground (arith, e, found), pushed-Went stack name w w' e went))
  ]
