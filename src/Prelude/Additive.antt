-- ===== src/Prelude/Additive.antt =====
-- The sums of a numeric type: the `+` and `-` of doubles, or `plus` and `minus` of decimal.js. The
-- laws hold where no rounding takes place; a theorem that needs them takes them as a hypothesis.
use mathlib.Core.Path.{◌≡◌, refl}
use mathlib.Core.List.{List, [], ◌∷◌, ◌++◌}
use pine_framework.Prelude.Int.{ℤ, pos, ◌+ℤ◌, ◌-ℤ◌, +ℤ_cancel, int_laws}

pub record Additive {ℓ} (N : Type ℓ) : Type ℓ where
  pub nought : N
  pub plus : N → N → N
  pub minus : N → N → N

pub record IsExact {ℓ} (N : Type ℓ) ⦃a : Additive N⦄ : Type ℓ where
  pub plus_right_comm : (x y z : N) → a.plus (a.plus x y) z ≡ a.plus (a.plus x z) y
  pub plus_minus : (x y : N) → a.minus (a.plus x y) y ≡ x

instance abbrev pub int_additive : Additive ℤ
int_additive = record { nought = pos 0; plus = ◌+ℤ◌; minus = ◌-ℤ◌ }

int_right_comm : (x y z : ℤ) → x +ℤ y +ℤ z ≡ x +ℤ z +ℤ y
int_right_comm x y z = omega int_laws

pub ℤ-IsExact : IsExact ℤ
ℤ-IsExact = record { plus_right_comm = int_right_comm; plus_minus = +ℤ_cancel }

module _ {ℓ} {N : Type ℓ} ⦃a : Additive N⦄ where
  open a use {nought, plus, minus}

  -- `let s = acc; for (const v of xs) s += v`
  abbrev pub total_from : N → List N → N
  total_from acc [] = acc
  total_from acc (x ∷ xs) = total_from (plus acc x) xs

  abbrev pub total : List N → N
  total = total_from nought

  pub total_from-append :
      (acc : N) (xs : List N) (v : N) → total_from acc (xs ++ v ∷ []) ≡ plus (total_from acc xs) v
  total_from-append acc [] v = refl
  total_from-append acc (x ∷ xs) v = total_from-append (plus acc x) xs v

  total_from-plus :
      IsExact N
      → (acc x : N) (xs : List N) → total_from (plus acc x) xs ≡ plus (total_from acc xs) x
  total_from-plus laws acc x [] = refl
  total_from-plus laws acc x (y ∷ xs) =
      rw (laws.plus_right_comm acc x y) (total_from-plus laws (plus acc y) x xs)

  -- Without rounding, the first summand can be taken off the sum.
  pub total-cons : IsExact N → (x : N) (xs : List N) → minus (total (x ∷ xs)) x ≡ total xs
  total-cons laws x xs = rw (total_from-plus laws nought x xs) (laws.plus_minus _ x)
