-- ===== src/Language/Scope/Clone/Copies.antt =====
-- A copy of a scope reads as the original, and shares no series with it.
use pine_framework.Prelude.{
  ℕ, ◌≤◌, ◌<◌, ◌≡◌, refl, ap, subst, ◌∙◌, List, [], ◌∷◌, ◌++◌, Option, none, some, Bool, true,
  false, String, string_eq, ◌===◌, length, arith, if◌then◌else◌, length-append,
}
use pine_framework.Prelude.Int.{ℤ}
use pine_framework.Prelude.JsMap.{JsMap}
use pine_framework.Prelude.JsMap
use pine_framework.Language.Series.{Series}
use pine_framework.Language.Series
use pine_framework.Language.Scope.{
  Scopes, Frame, Heap, VariableBinding, at, push_at, resolve_variable, get_variable_value,
  set_variable_value,
}
use pine_framework.Language.Scope.Clone.{
  clone_binding, clone_frame, clone_frames, clone_runtime_scope,
}
use pine_framework.Language.Scope.Clone.Heaps.{
  Extends, Extends-refl, Extends-trans, append-Extends, at_end, at-set_ne, HeldIn, AllHeld,
  HeldBinding, resolve_variable-HeldBinding,
}

module _ {T : Type 0} {V : Type 0} where
  -- A name is bound in neither frame, or in both: in the copy to a series of its own with the same values.
  abbrev Copied : Heap V → Heap V → Option (VariableBinding T) → Option (VariableBinding T) → Type 0
  Copied h h' none none = Unit {0}
  Copied h h' (some b) (some b') =
      (at h' b'.series ≡ at h b.series) × (length h ≤ b'.series) × (b'.series < length h')
  Copied h h' none (some b') = ⊥
  Copied h h' (some b) none = ⊥

  Copied-Extends :
      (h h' h'' : Heap V) (o o' : Option (VariableBinding T))
      → Extends h' h''
      → Copied h h' o o'
      → Copied h h'' o o'
  Copied-Extends h h' h'' none none e c = tt
  Copied-Extends h h' h'' (some b) (some b') e (same, new, bound) =
      (e.same b'.series bound ∙ same, new, omega (arith, bound, e.longer))
  Copied-Extends h h' h'' none (some b') e c = elim c [ ]
  Copied-Extends h h' h'' (some b) none e c = elim c [ ]

  Copied-choice :
      (h h' : Heap V) (test : Bool) (x x' y y' : Option (VariableBinding T))
      → Copied h h' x x'
      → Copied h h' y y'
      → Copied h h' (if test then x else y) (if test then x' else y')
  Copied-choice h h' true x x' y y' c d = c
  Copied-choice h h' false x x' y y' c d = d

  record FrameCopy (h₀ h : Heap V) (frame : Frame T) (r : Frame T × Heap V) : Type 0 where
    extends : Extends h r.1
    copied : (name : String) → Copied h₀ r.1 (JsMap.get frame name) (JsMap.get r.0 name)

  clone_frame-FrameCopy :
      (h₀ h : Heap V) (frame : Frame T)
      → Extends h₀ h
      → HeldIn (length h₀) frame
      → FrameCopy h₀ h frame (clone_frame h frame)
  unfolding clone_frame clone_binding JsMap.get Series.create_series
  clone_frame-FrameCopy h₀ h [] e held = record { extends = Extends-refl h; copied = λ name. tt }
  clone_frame-FrameCopy h₀ h ((k, b) ∷ frame) e (here, held) =
      let copy : Series V = Series.create_series (at h b.series).values in
      let first = append-Extends h copy in
      let rest =
        clone_frame-FrameCopy h₀ (h ++ copy ∷ []) frame (Extends-trans h₀ h _ e first) held in
      let h'' = (clone_frame (h ++ copy ∷ []) frame).1 in
      record {
        extends = Extends-trans h _ _ first rest.extends;
        copied = λ name.
            Copied-choice h₀ h'' (k === name) (some b) (some (record b { series = length h })) _ _
              (
                rest.extends.same (length h) (omega (arith, length-append h (copy ∷ [])))
                    ∙ (at_end h copy ∙ e.same b.series here),
                e.longer,
                omega (arith, rest.extends.longer, length-append h (copy ∷ [])),
              )
              (rest.copied name);
      }

  -- What `get` of a frame and then of its parents finds.
  found_in-Copied :
      (h h' : Heap V) (x x' y y' : Option (VariableBinding T))
      → Copied h h' x x'
      → Copied h h' y y'
      → Copied h h'
          (elim x [ none ↦ y | some b ↦ some b ])
          (elim x' [ none ↦ y' | some b ↦ some b ])
  found_in-Copied h h' none none y y' c d = d
  found_in-Copied h h' (some b) (some b') y y' c d = c
  found_in-Copied h h' none (some b') y y' c d = elim c [ ]
  found_in-Copied h h' (some b) none y y' c d = elim c [ ]

  record ChainCopy (h₀ : Heap V) (frames : List (Frame T)) (r : List (Frame T) × Heap V)
      : Type 0 where
    extends : Extends h₀ r.1
    copied :
        (name : String) → Copied h₀ r.1 (resolve_variable frames name) (resolve_variable r.0 name)

  clone_frames-ChainCopy :
      (h₀ : Heap V) (frames : List (Frame T))
      → AllHeld (length h₀) frames
      → ChainCopy h₀ frames (clone_frames h₀ frames)
  unfolding clone_frames resolve_variable
  clone_frames-ChainCopy h₀ [] held = record { extends = Extends-refl h₀; copied = λ name. tt }
  clone_frames-ChainCopy h₀ (frame ∷ parents) (here, held) =
      let above = clone_frames-ChainCopy h₀ parents held in
      let (parents', h') = clone_frames h₀ parents in
      let own = clone_frame-FrameCopy h₀ h' frame above.extends here in
      record {
        extends = Extends-trans h₀ h' _ above.extends own.extends;
        copied = λ name.
            found_in-Copied h₀ _ (JsMap.get frame name) _ (resolve_variable parents name) _
              (own.copied name) (Copied-Extends h₀ h' _ _ _ own.extends (above.copied name));
      }

  -- What a read makes of the binding it finds.
  abbrev read : V → Heap V → ℤ → Option (VariableBinding T) → Option V
  read na h offset o = elim o [
    | none ↦ none
    | some b ↦ some (Series.get_relative na (at h b.series) offset)
  ]

  read-Copied :
      (na : V) (h h' : Heap V) (offset : ℤ) (o o' : Option (VariableBinding T))
      → Copied h h' o o'
      → read na h' offset o' ≡ read na h offset o
  read-Copied na h h' offset none none c = refl
  read-Copied na h h' offset (some b) (some b') c =
      ap (λ s. some (Series.get_relative na s offset)) c.0
  read-Copied na h h' offset none (some b') c = elim c [ ]
  read-Copied na h h' offset (some b) none c = elim c [ ]

  read_same :
      (na : V) (h h' : Heap V) (offset : ℤ) (o : Option (VariableBinding T))
      → HeldBinding (length h) o
      → ((i : ℕ) → i < length h → at h' i ≡ at h i)
      → read na h' offset o ≡ read na h offset o
  read_same na h h' offset none held same = refl
  read_same na h h' offset (some b) held same =
      ap (λ s. some (Series.get_relative na s offset)) (same b.series held)

  -- An assignment to a copied variable leaves the series of the original alone.
  written_above :
      (h h' : Heap V) (frames : List (Frame T)) (v : V) (s' : Scopes T V)
      (o o' : Option (VariableBinding T))
      → Copied h h' o o'
      → (elim o' [
        | none ↦ none
        | some b ↦ some (record { frames = frames; heap = push_at h' b.series v })
      ])
        ≡ some s'
      → (i : ℕ) → i < length h
      → at s'.heap i ≡ at h' i
  written_above h h' frames v s' none none c e i below = cc
  written_above h h' frames v s' (some b) (some b') (same, new, bound) e i below =
      let heap_eq : push_at h' b'.series v ≡ s'.heap = ground (arith, e) in
      subst (λ (k : Heap V). at k i ≡ at h' i) heap_eq
        (at-set_ne h' i b'.series _ (λ e'. omega (arith, e', below, new)))
  written_above h h' frames v s' none (some b') c e i below = elim c [ ]
  written_above h h' frames v s' (some b) none c e i below = elim c [ ]

  -- A read of a held scope after a push on a series above it.
  read_below :
      (na : V) (h h' : Heap V) (frames : List (Frame T)) (name : String) (offset : ℤ)
      → AllHeld (length h) frames
      → ((i : ℕ) → i < length h → at h' i ≡ at h i)
      → get_variable_value na (record { frames = frames; heap = h' }) name offset
        ≡ get_variable_value na (record { frames = frames; heap = h }) name offset
  unfolding get_variable_value
  read_below na h h' frames name offset held same =
      read_same na h h' offset (resolve_variable frames name)
        (resolve_variable-HeldBinding (length h) frames name held) same

  -- If the series of a scope's variables are on the heap, then every variable reads in the copy of the scope as
  -- in the original, and after an assignment that succeeds in the copy the original reads what it read.
  pub clone_runtime_scope-reads :
      (na : V) (s : Scopes T V) (name : String) (v : V) (s' : Scopes T V) (other : String)
      (offset : ℤ)
      → AllHeld (length s.heap) s.frames
      → set_variable_value (clone_runtime_scope s) name v ≡ some s'
      → (get_variable_value na (clone_runtime_scope s) other offset
          ≡ get_variable_value na s other offset)
        × (get_variable_value na (record { frames = s.frames; heap = s'.heap }) other offset
            ≡ get_variable_value na s other offset)
  unfolding clone_runtime_scope get_variable_value set_variable_value
  clone_runtime_scope-reads na s name v s' other offset held found =
      let chain = clone_frames-ChainCopy s.heap s.frames held in
      let (frames', heap') = clone_frames s.heap s.frames in
      (
        read-Copied na s.heap heap' offset (resolve_variable s.frames other)
            (resolve_variable frames' other) (chain.copied other),
        read_below na s.heap s'.heap s.frames other offset held (λ i below.
            written_above s.heap heap' frames' v s' (resolve_variable s.frames name)
              (resolve_variable frames' name) (chain.copied name) found i below
            ∙ chain.extends.same i below),
      )
