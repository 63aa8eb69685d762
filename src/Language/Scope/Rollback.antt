-- ===== src/Language/Scope/Rollback.antt =====
-- A checkpoint, any run of the scope's operations, and a restoration.
use pine_framework.Prelude.{
  ℕ, ◌≤◌, ◌≡◌, refl, sym, ap, subst, ◌∙◌, inl, inr, List, [], ◌∷◌, ◌++◌, some, String, string_eq,
  length, All, All-imp, take, ltb, lt→ltb, ◌==◌, ◌===◌, if◌then◌else◌, arith, dec_lt, ℕ_discrete,
  Bool-cases, Option-cases,
}
use pine_framework.Prelude.Int.{ℤ}
use pine_framework.Prelude.JsMap.{JsMap, keys, Distinct, set_absent, Distinct-set}
use pine_framework.Prelude.JsMap
use pine_framework.Language.Series
use pine_framework.Language.Series.{Series}
use pine_framework.Language.Scope.{
  VariableBinding, Frame, Heap, Scopes, resolve_variable, get_variable_value,
}
use pine_framework.Language.Scope.Checkpoint.{
  truncate_at, restore_entries, entry_names, frame_entries, checkpoint_frames, checkpoint_scope,
  restore_frame, restore_rest, restore_frames, restore_scope_checkpoint,
}
use pine_framework.Language.Scope.Growth.{
  held, Grown, Grown-refl, Grown-length, held-restored, take_all,
}
use pine_framework.Language.Scope.Steps.{
  Steps, GrownFrames, done, grown, AllDistinct, Steps-IsGrown,
}
use pine_framework.Language.Scope.Names.{drop_unknown-append}

module _ {V : Type 0} where
  abbrev pub Restored : Heap V → Heap V → ℕ → Type 0
  Restored h₀ h a = held h a ≡ held h₀ a

  -- The heap after the test of one entry.
  abbrev cut : Heap V → Heap V → ℕ → Heap V
  cut h₀ h b =
      if ltb (length (held h₀ b)) (length (held h b))
      then truncate_at h b (length (held h₀ b))
      else h

  same_lem :
      (h₀ h : Heap V) (a b : ℕ)
      → Grown h₀ h
      → length (held h a) ≤ length (held h₀ a)
      → a ≡ b
      → held h b ≡ held h₀ b
  same_lem h₀ h a b g le e = rw (← e) (sym (take_all (length (held h₀ a)) (held h a) le) ∙ g a)

  cut_lem :
      (h₀ h : Heap V) (b : ℕ)
      → Grown h₀ h
      → (a : ℕ) → held (cut h₀ h b) a ≡ (if b == a then held h₀ a else held h a)
  cut_lem h₀ h b g a = elim (dec_lt (length (held h₀ b)) (length (held h b))) [
    | yes longer ↦ rw (lt→ltb _ _ longer) (held-restored h₀ h b a g)
    | no same ↦ ground (arith, same, same_lem h₀ h b a g)
  ]

  Grown-cut : (h₀ h : Heap V) (b : ℕ) → Grown h₀ h → Grown h₀ (cut h₀ h b)
  Grown-cut h₀ h b g a = elim (ℕ_discrete b a) [
    | yes e ↦
        ap (take (length (held h₀ a))) (cut_lem h₀ h b g a ∙ ground (arith, e)) ∙ Grown-refl h₀ a
    | no n ↦ ap (take (length (held h₀ a))) (cut_lem h₀ h b g a ∙ ground (arith, n)) ∙ g a
  ]

module _ {ℓ} {T : Type ℓ} where
  get-All :
      (P : VariableBinding T → Type 0) (f : Frame T) (name : String) (b : VariableBinding T)
      → All (λ e. P e.1) f
      → JsMap.get f name ≡ some b
      → P b
  unfolding JsMap.get
  get-All P [] name b a h = absurd (ground arith)
  get-All P ((k, c) ∷ f) name b (a, rest) h = elim (Bool-cases (k === name)) [
    | inl e ↦ subst P (ground (arith, e)) a
    | inr e ↦ get-All P f name b rest (ground (arith, e))
  ]

  resolve-All :
      (P : VariableBinding T → Type 0) (fs : List (Frame T)) (name : String) (b : VariableBinding T)
      → All (All (λ e. P e.1)) fs
      → resolve_variable fs name ≡ some b
      → P b
  unfolding resolve_variable
  resolve-All P [] name b a h = absurd (ground arith)
  resolve-All P (f ∷ fs) name b (a, rest) h = elim (Option-cases (JsMap.get f name)) [
    | inl e ↦ resolve-All P fs name b rest (ground (arith, e))
    | inr (c, e) ↦ subst P (ground (arith, e)) (get-All P f name c a e)
  ]

module _ {ℓ} {T : Type ℓ} {V : Type 0} where
  -- What restoring some of the entries gives.
  record Restores (h₀ h : Heap V) (f : Frame T) (h' : Heap V) : Type ℓ where
    still_grown : Grown h₀ h'
    kept : (a : ℕ) → Restored h₀ h a → Restored h₀ h' a
    frame_restored : All (λ e. Restored h₀ h' e.1.series) f

  restore_entries-frame :
      (h₀ : Heap V) (f : Frame T) (h : Heap V)
      → Grown h₀ h
      → (h' : Heap V) × (restore_entries (frame_entries h₀ f) h ≡ some h') × Restores h₀ h f h'
  unfolding restore_entries frame_entries
  restore_entries-frame h₀ [] h g =
      (h, refl, record { still_grown = g; kept = λ a e. e; frame_restored = tt })
  restore_entries-frame h₀ ((name, b) ∷ rest) h g =
      let h₁ = cut h₀ h b.series in
      let cut_at = cut_lem h₀ h b.series g in
      let (h', e, r) = restore_entries-frame h₀ rest h₁ (Grown-cut h₀ h b.series g) in
      (
        h',
        ground (arith, e, Grown-length h₀ h b.series g),
        record {
          still_grown = r.still_grown;
          kept = λ a k. r.kept a (cut_at a ∙ ground (arith, k));
          frame_restored = (r.kept b.series (cut_at b.series ∙ ground arith), r.frame_restored);
        },
      )

  entry_names-frame : (h : Heap V) (f : Frame T) → entry_names (frame_entries h f) ≡ keys f
  unfolding frame_entries
  entry_names-frame h [] = refl
  entry_names-frame h ((name, b) ∷ rest) = ap (◌∷◌ name) (entry_names-frame h rest)

  restore_frame-frame :
      (h₀ : Heap V) (f extra : Frame T) (h : Heap V)
      → Grown h₀ h
      → Distinct (f ++ extra)
      → (h' : Heap V) × (restore_frame (frame_entries h₀ f) (f ++ extra) h ≡ some (f, h'))
        × Restores h₀ h f h'
  unfolding restore_frame
  restore_frame-frame h₀ f extra h g d =
      let (h', e, r) = restore_entries-frame h₀ f h g in
      (
        h',
        rw (e, restore_frame)
            (ap (λ t. some (t, h'))
              (drop_unknown-append (entry_names (frame_entries h₀ f)) f extra
                (entry_names-frame h₀ f) d)),
        r,
      )

  -- What restoring a chain gives.
  record RestoresAll (h₀ h : Heap V) (fs : List (Frame T)) (h' : Heap V) : Type ℓ where
    still_grown : Grown h₀ h'
    kept : (a : ℕ) → Restored h₀ h a → Restored h₀ h' a
    chain_restored : All (All (λ e. Restored h₀ h' e.1.series)) fs

  All-kept :
      (h₀ h h' : Heap V) (f : Frame T)
      → ((a : ℕ) → Restored h₀ h a → Restored h₀ h' a)
      → All (λ e. Restored h₀ h e.1.series) f
      → All (λ e. Restored h₀ h' e.1.series) f
  All-kept h₀ h h' f keep =
      All-imp (λ e. Restored h₀ h e.1.series) (λ e. Restored h₀ h' e.1.series) f
        (λ e. keep e.1.series)

  restore_frames-frames :
      (h₀ : Heap V) {fs₀ fs : List (Frame T)}
      → GrownFrames fs₀ fs
      → (h : Heap V) → Grown h₀ h
      → (h' : Heap V) × (restore_frames (checkpoint_frames h₀ fs₀) fs h ≡ some (fs₀, h'))
        × RestoresAll h₀ h fs₀ h'
  unfolding restore_frames checkpoint_frames
  restore_frames-frames h₀ done h g =
      (h, refl, record { still_grown = g; kept = λ a e. e; chain_restored = tt })
  restore_frames-frames h₀ (grown {f₀ = f₀} {fs₀ = fs₀} {fs = fs} extra e d rest) h g =
      let (h₁, e₁, r₁) = restore_frame-frame h₀ f₀ extra h g (subst Distinct e d) in
      let (h₂, e₂, r₂) = restore_frames-frames h₀ rest h₁ r₁.still_grown in
      (
        h₂,
        rw (e, e₁, restore_frames) (ap (restore_rest f₀) e₂),
        record {
          still_grown = r₂.still_grown;
          kept = λ a k. r₂.kept a (r₁.kept a k);
          chain_restored = (All-kept h₀ h₁ h₂ f₀ r₂.kept r₁.frame_restored, r₂.chain_restored);
        },
      )

  same_value :
      (na : V) (s : Scopes T V) (h' : Heap V) (name : String) (offset : ℤ)
      → All (All (λ e. Restored s.heap h' e.1.series)) s.frames
      → get_variable_value na (record { frames = s.frames; heap = h' }) name offset
        ≡ get_variable_value na s name offset
  unfolding get_variable_value
  same_value na s h' name offset a = elim (Option-cases (resolve_variable s.frames name)) [
    | inl e ↦ rw (e, get_variable_value) refl
    | inr (b, e) ↦
        rw (e, get_variable_value)
          (ap (λ values. some (Series.get_relative na (record { values = values }) offset))
            (resolve-All (λ c. Restored s.heap h' c.series) s.frames name b a e))
  ]

  -- If no frame of the scope holds a name twice, rolling back to a checkpoint undoes any run of
  -- assignments, bar starts and declarations, these only of names that their frame does not hold yet: the
  -- restoration succeeds, the frames are those of the checkpoint, and each variable reads, at every
  -- offset, what it read then.
  pub restore-checkpoint :
      (na : V) {s t : Scopes T V}
      → AllDistinct s.frames
      → Steps na s t
      → (r : Scopes T V) × (restore_scope_checkpoint (checkpoint_scope s) t ≡ some r)
        × (r.frames ≡ s.frames)
        × ((name : String) (offset : ℤ)
            → get_variable_value na r name offset ≡ get_variable_value na s name offset)
  unfolding restore_scope_checkpoint checkpoint_scope
  restore-checkpoint na {s} {t} d steps =
      let g = Steps-IsGrown na d steps in
      let (h', e, r) = restore_frames-frames s.heap g.frames_grown t.heap g.heap_grown in
      (
        record { frames = s.frames; heap = h' },
        rw (e, restore_scope_checkpoint) refl,
        refl,
        λ name offset. same_value na s h' name offset r.chain_restored,
      )
