-- ===== src/Language/Scope/Clone/Heaps.antt =====
-- Heaps that grow, and the scopes whose series are on a heap.
use pine_framework.Prelude.{
  ℕ, zero, suc, ◌≤◌, ◌<◌, ◌≡◌, refl, ◌∙◌, List, [], ◌∷◌, ◌++◌, All, Option, none, some, String,
  string_eq, ◌===◌, length, set, arith, if-elim, length-append,
}
use pine_framework.Prelude.JsMap.{JsMap}
use pine_framework.Prelude.JsMap
use pine_framework.Language.Series.{Series}
use pine_framework.Language.Scope.{Frame, Heap, VariableBinding, at, resolve_variable}

module _ {V : Type 0} where
  at_append : (h h' : Heap V) (i : ℕ) → i < length h → at (h ++ h') i ≡ at h i
  at_append [] h' i e = ground (arith, e)
  at_append (x ∷ h) h' zero e = refl
  at_append (x ∷ h) h' (suc i) e = at_append h h' i (omega (arith, e))

  pub at_end : (h : Heap V) (x : Series V) → at (h ++ x ∷ []) (length h) ≡ x
  at_end [] x = refl
  at_end (y ∷ h) x = at_end h x

  pub at-set_ne : (h : Heap V) (i j : ℕ) (x : Series V) → (i ≡ j → ⊥) → at (set h j x) i ≡ at h i
  at-set_ne [] i j x ne = refl
  at-set_ne (y ∷ h) zero zero x ne = ground (arith, ne)
  at-set_ne (y ∷ h) zero (suc j) x ne = refl
  at-set_ne (y ∷ h) (suc i) zero x ne = refl
  at-set_ne (y ∷ h) (suc i) (suc j) x ne = at-set_ne h i j x (λ e. ne (omega (arith, e)))

  -- The series of a heap stand in the other, which may have more.
  pub record Extends (h h' : Heap V) : Type 0 where
    pub longer : length h ≤ length h'
    pub same : (i : ℕ) → i < length h → at h' i ≡ at h i

  pub Extends-refl : (h : Heap V) → Extends h h
  Extends-refl h = record { longer = omega arith; same = λ i e. refl }

  pub Extends-trans : (h h' h'' : Heap V) → Extends h h' → Extends h' h'' → Extends h h''
  Extends-trans h h' h'' first next = record {
    longer = omega (arith, first.longer, next.longer);
    same = λ i e. next.same i (omega (arith, e, first.longer)) ∙ first.same i e;
  }

  pub append-Extends : (h : Heap V) (x : Series V) → Extends h (h ++ x ∷ [])
  append-Extends h x = record {
    longer = omega (arith, length-append h (x ∷ []));
    same = λ i e. at_append h (x ∷ []) i e;
  }

module _ {T : Type 0} where
  -- Every binding of a frame, and of a chain of them, has its series on the heap.
  abbrev pub HeldIn : ℕ → Frame T → Type 0
  HeldIn n = All (λ e. e.1.series < n)

  abbrev pub AllHeld : ℕ → List (Frame T) → Type 0
  AllHeld n = All (HeldIn n)

  abbrev pub HeldBinding : ℕ → Option (VariableBinding T) → Type 0
  HeldBinding n none = Unit {0}
  HeldBinding n (some b) = b.series < n

  get-HeldBinding :
      (n : ℕ) (frame : Frame T) (name : String)
      → HeldIn n frame
      → HeldBinding n (JsMap.get frame name)
  unfolding JsMap.get
  get-HeldBinding n [] name held = tt
  get-HeldBinding n ((k, b) ∷ frame) name (here, held) =
      if-elim (HeldBinding n) (k === name) (some b) (JsMap.get frame name) (λ e. here)
        (λ e. get-HeldBinding n frame name held)

  found_in-HeldBinding :
      (n : ℕ) (x y : Option (VariableBinding T))
      → HeldBinding n x
      → HeldBinding n y
      → HeldBinding n (elim x [ none ↦ y | some b ↦ some b ])
  found_in-HeldBinding n none y c d = d
  found_in-HeldBinding n (some b) y c d = c

  pub resolve_variable-HeldBinding :
      (n : ℕ) (frames : List (Frame T)) (name : String)
      → AllHeld n frames
      → HeldBinding n (resolve_variable frames name)
  unfolding resolve_variable
  resolve_variable-HeldBinding n [] name held = tt
  resolve_variable-HeldBinding n (frame ∷ parents) name (here, held) =
      found_in-HeldBinding n (JsMap.get frame name) (resolve_variable parents name)
        (get-HeldBinding n frame name here) (resolve_variable-HeldBinding n parents name held)
