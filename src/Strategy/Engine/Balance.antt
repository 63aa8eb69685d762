-- ===== src/Strategy/Engine/Balance.antt =====
-- The lots of a position and what is taken from them.
use pine_framework.Prelude.{
  ℕ, ◌+◌, ◌-◌, ◌≤◌, ◌≡◌, List, [], ◌∷◌, ◌++◌, Option, none, some, true, String, string_eq, ◌===◌,
  if-elim, arith,
}
use pine_framework.Strategy.Types.{PositionLot, Position, is_flat}
use pine_framework.Strategy.Engine.Groups.{pop_lots, pop_entry, take_lots}

module _ {N : Type 0} where
  abbrev pub lot_sum : List (PositionLot N) → ℕ
  lot_sum [] = 0
  lot_sum (lot ∷ lots) = lot.quantity + lot_sum lots

  pub lot_sum-append :
      (lots : List (PositionLot N)) (lot : PositionLot N)
      → lot_sum (lots ++ lot ∷ []) ≡ lot_sum lots + lot.quantity
  lot_sum-append [] lot = omega arith
  lot_sum-append (l ∷ lots) lot = omega (arith, lot_sum-append lots lot)

  lot_sum-pop_lots :
      (n : ℕ) (lots : List (PositionLot N))
      → n ≤ lot_sum lots
      → lot_sum (pop_lots n lots) + n ≡ lot_sum lots
  unfolding pop_lots
  lot_sum-pop_lots n [] h = omega arith
  lot_sum-pop_lots n (lot ∷ lots) h = ground (arith, lot_sum-pop_lots (n - lot.quantity) lots)

  lot_sum-pop_entry :
      (name : String) (n : ℕ) (lots : List (PositionLot N))
      → let (rest, left) = pop_entry name n lots in
        (lot_sum rest + n ≡ lot_sum lots + left) × (left ≤ n)
  unfolding pop_entry
  lot_sum-pop_entry name n [] = (omega arith, omega arith)
  lot_sum-pop_entry name n (lot ∷ lots) = ground (arith, lot_sum-pop_entry name n lots)

  -- What is taken from the lots is exactly what was asked for, if they hold as much.
  pub lot_sum-take_lots :
      (from : Option String) (n : ℕ) (lots : List (PositionLot N))
      → n ≤ lot_sum lots
      → lot_sum (take_lots from n lots) + n ≡ lot_sum lots
  unfolding take_lots
  lot_sum-take_lots none n lots h = lot_sum-pop_lots n lots h
  lot_sum-take_lots (some name) n lots h =
      let (kept, less) = lot_sum-pop_entry name n lots in
      let (rest, left) = pop_entry name n lots in
      if-elim (λ ls. lot_sum ls + n ≡ lot_sum lots) (name === "") (pop_lots n lots)
        (pop_lots left rest) (λ e. lot_sum-pop_lots n lots h)
        (λ e. omega (arith, lot_sum-pop_lots left rest (omega arith), kept, less))

  -- The lots add up to the position, and a flat position holds nothing.
  pub record IsBalanced (p : Position N) : Type 0 where
    pub lots_sum : lot_sum p.lots ≡ p.quantity
    pub flat_empty : is_flat p.direction ≡ true → p.quantity ≡ 0
