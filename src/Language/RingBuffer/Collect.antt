-- ===== src/Language/RingBuffer/Collect.antt =====
-- Lists read off a function of the index, and indices that wrap around.
use native.Mathlib.Nat.{mod-add-mod, mod-eq_of_lt}
use pine_framework.Prelude.{
  ℕ, zero, suc, ◌+◌, ◌-◌, ◌%◌, ◌≤◌, ◌<◌, ◌≡◌, ◌≢◌, refl, sym, ap, ◌∙◌, List, [], ◌∷◌, ◌++◌, length,
  get_or, set, take, drop, ◌==◌, if◌then◌else◌, arith,
}
use pine_framework.Language.RingBuffer.Slots.{collect}

pub wrap_here : (h n : ℕ) → h < n → (h + 0) % n ≡ h
wrap_here h n p = let e : h + 0 ≡ h = omega arith in rw e (mod-eq_of_lt p)

pub wrap_start : (h i n : ℕ) → h ≡ 0 → i < n → (h + i) % n ≡ i
wrap_start h i n e p = let q : h + i ≡ i = omega arith in rw q (mod-eq_of_lt p)

pub wrap_end : (h n : ℕ) → h + 1 ≡ n → (h + 1) % n ≡ 0
wrap_end h n e = grind arith

pub wrap_next : (h i n : ℕ) → ((h + 1) % n + i) % n ≡ (h + suc i) % n
wrap_next h i n =
    let e : h + 1 + i ≡ h + suc i = omega arith in mod-add-mod (h + 1) n i ∙ ap (λ j. j % n) e

pub wrap_last : (h i n : ℕ) → h < n → suc i ≡ n → (h + suc i) % n ≡ h
wrap_last h i n p e = grind arith

pub wrap_ne : (h i n : ℕ) → h < n → suc i < n → h ≢ (h + suc i) % n
wrap_ne h i n p q = grind arith

module _ {ℓ} {A : Type ℓ} where
  pub collect_ext :
      (f g : ℕ → A) (i n : ℕ) → ((j : ℕ) → j < i + n → f j ≡ g j) → collect f i n ≡ collect g i n
  collect_ext f g i zero h = refl
  collect_ext f g i (suc n) h =
      cc (h i (omega arith), collect_ext f g (suc i) n (λ j p. h j (omega arith)))

  pub collect-suc : (f : ℕ → A) (i n : ℕ) → collect f (suc i) n ≡ collect (λ j. f (suc j)) i n
  collect-suc f i zero = refl
  collect-suc f i (suc n) = ap (◌∷◌ (f (suc i))) (collect-suc f (suc i) n)

  pub collect_last : (f : ℕ → A) (i n : ℕ) → collect f i (suc n) ≡ collect f i n ++ f (i + n) ∷ []
  collect_last f i zero = let e : i ≡ i + 0 = omega arith in ap (λ j. f j ∷ []) e
  collect_last f i (suc n) =
      let e : suc i + n ≡ i + suc n = omega arith in rw (collect_last f (suc i) n, e)

  pub collect_head : (f : ℕ → A) (n : ℕ) → 0 < n → collect f 0 n ≡ f 0 ∷ drop 1 (collect f 0 n)
  collect_head f zero h = absurd (omega arith)
  collect_head f (suc n) h = refl

  pub collect_slide :
      (f g : ℕ → A) (v : A) (n : ℕ)
      → 0 < n
      → ((i : ℕ) → suc i < n → g i ≡ f (suc i))
      → g (n - 1) ≡ v
      → collect g 0 n ≡ drop 1 (collect f 0 n) ++ v ∷ []
  collect_slide f g v zero h shift last = absurd (omega arith)
  collect_slide f g v (suc n) h shift last =
      let e : g (0 + n) ≡ v = cc (last, ap g (let z : 0 + n ≡ suc n - 1 = omega arith in z)) in
      let front : collect g 0 n ≡ collect f 1 n =
        collect_ext g (λ j. f (suc j)) 0 n (λ j p. shift j (omega arith))
        ∙ sym (collect-suc f 0 n) in
      collect_last g 0 n ∙ rw (front, e)

  pub length-collect : (f : ℕ → A) (i n : ℕ) → length (collect f i n) ≡ n
  length-collect f i zero = refl
  length-collect f i (suc n) = ap suc (length-collect f (suc i) n)

  pub collect-take :
      (d : A) (xs : List A) (n : ℕ) → n ≤ length xs → collect (λ i. get_or xs i d) 0 n ≡ take n xs
  collect-take d xs zero h = refl
  collect-take d [] (suc n) h = absurd (omega arith)
  collect-take d (x ∷ xs) (suc n) h =
      ap (◌∷◌ x) (collect-suc (λ i. get_or (x ∷ xs) i d) 0 n ∙ collect-take d xs n (omega arith))

  pub get_or-set :
      (xs : List A) (i : ℕ) (v : A) (j : ℕ) (d : A)
      → i < length xs
      → get_or (set xs i v) j d ≡ (if i == j then v else get_or xs j d)
  get_or-set [] i v j d h = absurd (omega arith)
  get_or-set (x ∷ xs) zero v zero d h = ground arith
  get_or-set (x ∷ xs) zero v (suc j) d h = ground arith
  get_or-set (x ∷ xs) (suc i) v zero d h = ground arith
  get_or-set (x ∷ xs) (suc i) v (suc j) d h = ground (arith, get_or-set xs i v j d)

  pub take-set_last :
      (xs : List A) (n : ℕ) (v : A)
      → n < length xs
      → take (suc n) (set xs n v) ≡ take n xs ++ v ∷ []
  take-set_last [] n v h = absurd (omega arith)
  take-set_last (x ∷ xs) zero v h = refl
  take-set_last (x ∷ xs) (suc n) v h = ap (◌∷◌ x) (take-set_last xs n v (omega arith))
