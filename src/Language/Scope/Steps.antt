-- ===== src/Language/Scope/Steps.antt =====
-- The operations on a scope chain as steps, and what a run of them leaves in place.
use mathlib.Core.List.{append-nil, append_assoc}
use pine_framework.Prelude.{
  ℕ, zero, suc, ◌≡◌, sym, subst, ◌∙◌, inl, inr, List, [], ◌∷◌, ◌++◌, some, Bool, false, String,
  string_eq, length, set, ltb, ◌||◌, ◌&&◌, arith, Bool-cases, Option-cases,
}
use pine_framework.Prelude.JsMap.{JsMap, keys, Distinct, set_absent, Distinct-set}
use pine_framework.Prelude.JsMap
use pine_framework.Language.Series
use pine_framework.Language.Series.{Series}
use pine_framework.Language.Scope.{
  VariableBinding, Frame, Heap, Scopes, at, push_at, frame_at, declare_variable, resolve_variable,
  set_variable_value, push_binding, push_bindings, push_bar_values,
}
use pine_framework.Language.Scope.Growth.{Grown, Grown-refl, Grown-push, Grown-alloc}

-- One operation on the scopes. A name is not declared twice in a frame, as the executor looks it up
-- before it declares it.
pub data Step {ℓ} {T : Type ℓ} {V : Type 0} (na : V) (s : Scopes T V) : Scopes T V → Type ℓ where
  declares :
      (depth : ℕ) (name : String) (kind : T) (is_var is_varip is_const : Bool)
      → JsMap.has (frame_at s.frames depth) name ≡ false
      → Step na s (declare_variable s depth name kind is_var is_varip is_const)
  assigns :
      (name : String) (v : V) {t : Scopes T V} → set_variable_value s name v ≡ some t → Step na s t
  starts_bar : (depth : ℕ) → Step na s (push_bar_values na s depth)

pub data Steps {ℓ} {T : Type ℓ} {V : Type 0} (na : V) (s : Scopes T V) : Scopes T V → Type ℓ where
  here : Steps na s s
  next : {t u : Scopes T V} → Steps na s t → Step na t u → Steps na s u

-- Frames gain bindings at their ends and lose none.
pub data GrownFrames {ℓ} {T : Type ℓ} : List (Frame T) → List (Frame T) → Type ℓ where
  done : GrownFrames [] []
  grown :
      {f₀ f : Frame T} {fs₀ fs : List (Frame T)} (extra : Frame T)
      → f ≡ f₀ ++ extra
      → Distinct f
      → GrownFrames fs₀ fs
      → GrownFrames (f₀ ∷ fs₀) (f ∷ fs)

abbrev pub AllDistinct {ℓ} : {T : Type ℓ} → List (Frame T) → Type 0
AllDistinct [] = Unit {0}
AllDistinct (f ∷ fs) = Distinct f × AllDistinct fs

module _ {ℓ} {T : Type ℓ} where
  pub GrownFrames-refl : (fs : List (Frame T)) → AllDistinct fs → GrownFrames fs fs
  GrownFrames-refl [] d = done
  GrownFrames-refl (f ∷ fs) (d, ds) = grown [] (sym (append-nil f)) d (GrownFrames-refl fs ds)

  GrownFrames-set :
      {fs₀ fs : List (Frame T)} (depth : ℕ) (name : String) (b : VariableBinding T)
      → GrownFrames fs₀ fs
      → JsMap.has (frame_at fs depth) name ≡ false
      → GrownFrames fs₀ (set fs depth (JsMap.set (frame_at fs depth) name b))
  GrownFrames-set depth name b done h = done
  GrownFrames-set zero name b (grown {f₀ = f₀} {f = f} extra e d g) h =
      grown (extra ++ (name, b) ∷ [])
        (set_absent f name b h ∙ rw e (append_assoc f₀ extra ((name, b) ∷ [])))
        (Distinct-set f name b d) g
  GrownFrames-set (suc depth) name b (grown extra e d g) h =
      grown extra e d (GrownFrames-set depth name b g h)

module _ {ℓ} {T : Type ℓ} {V : Type 0} (na : V) where
  push_binding-Grown :
      (h₀ h : Heap V) (b : VariableBinding T) → Grown h₀ h → Grown h₀ (push_binding na h b)
  unfolding push_binding
  push_binding-Grown h₀ h b g =
      elim (Bool-cases ((b.is_var || b.is_varip) && ltb 0 (length (at h b.series).values))) [
        | inl e ↦ rw e (Grown-push h₀ h b.series (Series.last na (at h b.series)) g)
        | inr e ↦ rw e g
      ]

  push_bindings-Grown : (h₀ h : Heap V) (f : Frame T) → Grown h₀ h → Grown h₀ (push_bindings na h f)
  unfolding push_bindings
  push_bindings-Grown h₀ h [] g = g
  push_bindings-Grown h₀ h ((name, b) ∷ rest) g =
      push_bindings-Grown h₀ (push_binding na h b) rest (push_binding-Grown h₀ h b g)

  -- A run keeps what the heap and the frames held.
  pub record IsGrown (s t : Scopes T V) : Type ℓ where
    pub heap_grown : Grown s.heap t.heap
    pub frames_grown : GrownFrames s.frames t.frames

  assign-IsGrown :
      (s t u : Scopes T V) (name : String) (v : V)
      → IsGrown s t
      → set_variable_value t name v ≡ some u
      → IsGrown s u
  unfolding set_variable_value
  assign-IsGrown s t u name v g e = elim (Option-cases (resolve_variable t.frames name)) [
    | inl missing ↦ absurd (ground arith)
    | inr (b, found) ↦
        let e' : record t { heap = push_at t.heap b.series v } ≡ u = ground arith in
        subst (IsGrown s) e' (record {
          heap_grown = Grown-push s.heap t.heap b.series v g.heap_grown;
          frames_grown = g.frames_grown;
        })
  ]

  Step-IsGrown : {s t u : Scopes T V} → IsGrown s t → Step na t u → IsGrown s u
  unfolding declare_variable push_bar_values
  Step-IsGrown {s} {t} g (declares depth name kind p q r fresh) = record {
    heap_grown = Grown-alloc s.heap t.heap g.heap_grown;
    frames_grown = GrownFrames-set depth name _ g.frames_grown fresh;
  }
  Step-IsGrown {s} {t} {u} g (assigns name v e) = assign-IsGrown s t u name v g e
  Step-IsGrown {s} {t} g (starts_bar depth) = record {
    heap_grown = push_bindings-Grown s.heap t.heap (frame_at t.frames depth) g.heap_grown;
    frames_grown = g.frames_grown;
  }

  pub Steps-IsGrown : {s t : Scopes T V} → AllDistinct s.frames → Steps na s t → IsGrown s t
  Steps-IsGrown {s} d here = record {
    heap_grown = Grown-refl s.heap;
    frames_grown = GrownFrames-refl s.frames d;
  }
  Steps-IsGrown d (next r st) = Step-IsGrown (Steps-IsGrown d r) st
