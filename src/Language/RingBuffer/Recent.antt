-- ===== src/Language/RingBuffer/Recent.antt =====
-- Sliding a window through a list leaves the last values of the list.
use mathlib.Core.List.{append_assoc, append-nil}
use pine_framework.Prelude.{
  ℕ, suc, ◌+◌, ◌-◌, ◌≤◌, ◌<◌, ◌≡◌, ap, ◌∙◌, List, [], ◌∷◌, ◌++◌, length, length-append, drop, arith,
  dec_lt,
}
use pine_framework.Language.RingBuffer.Window.{slide}

module _ {ℓ} {A : Type ℓ} where
  unfoldable pub slide_all : ℕ → List A → List A → List A
  slide_all n [] xs = xs
  slide_all n (v ∷ vs) xs = slide_all n vs (slide n v xs)

  slide_full :
      (n : ℕ) (v : A) (x : A) (xs : List A)
      → n ≡ suc (length xs)
      → slide n v (x ∷ xs) ≡ xs ++ v ∷ []
  unfolding slide
  slide_full n v x xs e = ground arith

  slide_room : (n : ℕ) (v : A) (xs : List A) → length xs < n → slide n v xs ≡ xs ++ v ∷ []
  unfolding slide
  slide_room n v xs h = ground arith

  pub slide_all-drop :
      (n : ℕ) (vs xs : List A)
      → 0 < n
      → length xs ≤ n
      → slide_all n vs xs ≡ drop (length xs + length vs - n) (xs ++ vs)
  unfolding slide_all
  slide_all-drop n [] xs h p = let e : length xs + 0 - n ≡ 0 = omega arith in rw (e, append-nil)
  slide_all-drop n (v ∷ vs) [] h p =
      rw (slide_room n v [] h)
        (slide_all-drop n vs (v ∷ []) h h ∙ ap (λ k. drop k (v ∷ vs)) (omega arith))
  slide_all-drop n (v ∷ vs) (x ∷ xs) h p = elim (dec_lt (suc (length xs)) n) [
    | yes room ↦
        let small : length ((x ∷ xs) ++ v ∷ []) ≤ n =
          omega (arith, length-append (x ∷ xs) (v ∷ [])) in
        let e : length ((x ∷ xs) ++ v ∷ []) + length vs - n
            ≡ length (x ∷ xs) + length (v ∷ vs) - n =
          omega (arith, length-append (x ∷ xs) (v ∷ [])) in
        rw (slide_room n v (x ∷ xs) room) (
          slide_all-drop n vs ((x ∷ xs) ++ v ∷ []) h small
          ∙ rw (e, append_assoc (x ∷ xs) (v ∷ []) vs))
    | no full ↦
        let small : length (xs ++ v ∷ []) ≤ n = omega (arith, length-append xs (v ∷ [])) in
        let e : length (xs ++ v ∷ []) + length vs - n ≡ length vs =
          omega (arith, length-append xs (v ∷ [])) in
        let e' : suc (length xs) + suc (length vs) - n ≡ suc (length vs) = omega arith in
        rw (slide_full n v x xs (omega arith), e')
          (slide_all-drop n vs (xs ++ v ∷ []) h small ∙ rw (e, append_assoc xs (v ∷ []) vs))
  ]
