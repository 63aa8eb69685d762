-- ===== src/Language/Scope/Growth.antt =====
-- Between a checkpoint and its restoration series only grow: the values held at the checkpoint stay
-- the first values of the series.
use pine_framework.Prelude.{
  ℕ, zero, suc, ◌≤◌, ◌≡◌, refl, ap, ◌∙◌, ◌⊎◌, inl, inr, List, [], ◌∷◌, ◌++◌, length, length-take,
  take, set, ◌==◌, if◌then◌else◌, arith, ℕ_discrete,
}
use pine_framework.Language.Series.{Series, push, create_series}
use pine_framework.Language.Scope.{Heap, at, push_at, empty_series}
use pine_framework.Language.Scope.Checkpoint.{truncate_at}

module _ {V : Type 0} where
  abbrev pub held : Heap V → ℕ → List V
  held heap a = (at heap a).values

  abbrev pub Grown : Heap V → Heap V → Type 0
  Grown h₀ h = (a : ℕ) → take (length (held h₀ a)) (held h a) ≡ held h₀ a

  take-length : (xs : List V) → take (length xs) xs ≡ xs
  take-length [] = refl
  take-length (x ∷ xs) = ap (◌∷◌ x) (take-length xs)

  take-append : (n : ℕ) (xs ys : List V) → n ≤ length xs → take n (xs ++ ys) ≡ take n xs
  take-append zero xs ys h = refl
  take-append (suc n) [] ys h = absurd (omega arith)
  take-append (suc n) (x ∷ xs) ys h = ap (◌∷◌ x) (take-append n xs ys (omega arith))

  take_nil : (n : ℕ) → take {A = V} n [] ≡ []
  take_nil zero = refl
  take_nil (suc n) = refl

  pub take_all : (n : ℕ) (xs : List V) → length xs ≤ n → take n xs ≡ xs
  take_all n [] h = take_nil n
  take_all zero (x ∷ xs) h = absurd (omega arith)
  take_all (suc n) (x ∷ xs) h = ap (◌∷◌ x) (take_all n xs (omega arith))

  pub Grown-refl : (h : Heap V) → Grown h h
  Grown-refl h a = take-length (held h a)

  pub Grown-length : (h₀ h : Heap V) (a : ℕ) → Grown h₀ h → length (held h₀ a) ≤ length (held h a)
  Grown-length h₀ h a g =
      omega (arith, length-take (length (held h₀ a)) (held h a), ap length (g a))

  at-set :
      (h : Heap V) (a : ℕ) (x : Series V) (b : ℕ)
      → (a ≡ b) × (at (set h a x) b ≡ x) ⊎ (at (set h a x) b ≡ at h b)
  at-set [] a x b = inr refl
  at-set (y ∷ h) zero x zero = inl (refl, refl)
  at-set (y ∷ h) zero x (suc b) = inr refl
  at-set (y ∷ h) (suc a) x zero = inr refl
  at-set (y ∷ h) (suc a) x (suc b) = elim (at-set h a x b) [
    | inl (e, f) ↦ inl (ap suc e, f)
    | inr f ↦ inr f
  ]

  held-truncate :
      (h : Heap V) (a n b : ℕ)
      → held (truncate_at h a n) b ≡ (if a == b then take n (held h a) else held h b)
  held-truncate [] a n b = ground (arith, take_nil n)
  held-truncate (y ∷ h) zero n zero = refl
  held-truncate (y ∷ h) zero n (suc b) = ground arith
  held-truncate (y ∷ h) (suc a) n zero = ground arith
  held-truncate (y ∷ h) (suc a) n (suc b) = ground (arith, held-truncate h a n b)

  pub Grown-push : (h₀ h : Heap V) (a : ℕ) (v : V) → Grown h₀ h → Grown h₀ (push_at h a v)
  unfolding push
  Grown-push h₀ h a v g b = elim (at-set h a (push (at h a) v) b) [
    | inl (e, f) ↦
        let kept : take (length (held h₀ b)) (held h b ++ v ∷ []) ≡ held h₀ b =
          take-append (length (held h₀ b)) (held h b) (v ∷ []) (Grown-length h₀ h b g) ∙ g b in
        ap (λ s. take (length (held h₀ b)) s.values) f
        ∙ ap (λ c. take (length (held h₀ b)) (held h c ++ v ∷ [])) e
        ∙ kept
    | inr f ↦ ap (λ s. take (length (held h₀ b)) s.values) f ∙ g b
  ]

  at-alloc : (h : Heap V) (b : ℕ) → at (h ++ empty_series ∷ []) b ≡ at h b
  at-alloc [] zero = refl
  at-alloc [] (suc b) = refl
  at-alloc (y ∷ h) zero = refl
  at-alloc (y ∷ h) (suc b) = at-alloc h b

  pub Grown-alloc : (h₀ h : Heap V) → Grown h₀ h → Grown h₀ (h ++ create_series [] ∷ [])
  unfolding create_series
  Grown-alloc h₀ h g b = ap (λ s. take (length (held h₀ b)) s.values) (at-alloc h b) ∙ g b

  -- Cutting a series back to its length at the checkpoint.
  pub held-restored :
      (h₀ h : Heap V) (a b : ℕ)
      → Grown h₀ h
      → held (truncate_at h a (length (held h₀ a))) b ≡ (if a == b then held h₀ b else held h b)
  held-restored h₀ h a b g = elim (ℕ_discrete a b) [
    | yes e ↦ rw e (held-truncate h b (length (held h₀ b)) b ∙ ground (arith, g b))
    | no n ↦ held-truncate h a (length (held h₀ a)) b ∙ ground arith
  ]
