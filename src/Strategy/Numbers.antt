-- ===== src/Strategy/Numbers.antt =====
-- The arithmetic of prices and money: the source computes with doubles. Quantities are whole numbers of a
-- smallest unit and not negative; the source's may be any number. A theorem holds for every arithmetic, unless it takes laws as a hypothesis.
use pine_framework.Prelude.{ℕ, Bool, ◌||◌, if◌then◌else◌}

pub record Arith {ℓ} (N : Type ℓ) : Type ℓ where
  pub nought : N
  pub plus : N → N → N
  pub minus : N → N → N
  -- The product and the quotient of two numbers.
  pub mul : N → N → N
  pub div : N → N → N
  -- A price times a quantity, money shared over a quantity, and a number as a quantity.
  pub times : N → ℕ → N
  pub over : N → ℕ → N
  pub units : N → ℕ
  -- The number that stands in the source's text.
  pub literal : ℕ → N
  pub less : N → N → Bool
  pub equal : N → N → Bool

module _ {ℓ} {N : Type ℓ} ⦃a : Arith N⦄ where
  abbrev pub is_positive : N → Bool
  is_positive x = a.less a.nought x

  -- `x <= y` and `x >= y`.
  abbrev pub at_most : N → N → Bool
  at_most x y = a.less x y || a.equal x y

  abbrev pub at_least : N → N → Bool
  at_least x y = at_most y x

  -- `x * (p / 100)`.
  abbrev pub percent_of : N → N → N
  percent_of x p = a.mul x (a.div p (a.literal 100))

  -- `Math.max(0, x)`.
  abbrev pub at_least_nought : N → N
  at_least_nought x = if a.less a.nought x then x else a.nought
