-- ===== src/Strategy/Engine/Groups.antt =====
-- The lots that a close takes, and the orders of an OCA group.
use pine_framework.Prelude.{
  ℕ, ◌-◌, List, [], ◌∷◌, ◌++◌, map, Option, none, some, Bool, false, String, string_eq, ◌===◌, leb,
  ◌==◌, if◌then◌else◌,
}
use pine_framework.Strategy.Numbers.{Arith}
use pine_framework.Strategy.Types.{Order, PositionLot, cancelled, plain}
use pine_framework.Strategy.Engine.{Engine, marker_of}

abbrev pub in_group {ℓ} : {N : Type ℓ} → String → Order N → Bool
in_group group order = elim order.oca_group [ none ↦ false | some g ↦ g === group ]

module _ {ℓ} {N : Type ℓ} where
  unfoldable pub outside_group : String → List (Order N) → List (Order N)
  outside_group group [] = []
  outside_group group (o ∷ os) =
      let rest = outside_group group os in if in_group group o then rest else o ∷ rest

  unfoldable pub inside_group : String → List (Order N) → List (Order N)
  inside_group group [] = []
  inside_group group (o ∷ os) =
      let rest = inside_group group os in if in_group group o then o ∷ rest else rest

  -- The lots after `remaining` is taken from the first, as far as they reach.
  unfoldable pub pop_lots : ℕ → List (PositionLot N) → List (PositionLot N)
  pop_lots remaining [] = []
  pop_lots remaining (lot ∷ lots) =
      let rest = pop_lots (remaining - lot.quantity) lots in
      if remaining == 0
      then lot ∷ lots
      else if leb lot.quantity remaining
      then rest
      else record lot { quantity = lot.quantity - remaining } ∷ lots

  -- What is taken from the first lot of an entry: the lots, and what remains to be taken.
  unfoldable pub pop_entry : String → ℕ → List (PositionLot N) → List (PositionLot N) × ℕ
  pop_entry name remaining [] = ([], remaining)
  pop_entry name remaining (lot ∷ lots) =
      let (rest, left) = pop_entry name remaining lots in
      if lot.entry_name === name
      then (if leb lot.quantity remaining
          then (lots, remaining - lot.quantity)
          else (record lot { quantity = lot.quantity - remaining } ∷ lots, 0))
      else (lot ∷ rest, left)

  -- `fromEntryLot` counts if it is given and not empty.
  unfoldable pub take_lots : Option String → ℕ → List (PositionLot N) → List (PositionLot N)
  unfolding pop_lots pop_entry
  take_lots none remaining lots = pop_lots remaining lots
  take_lots (some name) remaining lots =
      let (lots', left) = pop_entry name remaining lots in
      if name === "" then pop_lots remaining lots else pop_lots left lots'

module _ {ℓ} {N : Type ℓ} ⦃a : Arith N⦄ where
  -- `cancelOcaSiblings`, and `cancelOcaGroup` of a group's name, which is never empty.
  unfoldable pub cancel_group : Engine N → String → Engine N
  unfolding outside_group inside_group
  cancel_group s group = record s {
    pending_orders = outside_group group s.pending_orders;
    markers =
        s.markers
        ++ map (λ o. marker_of s cancelled (plain o.entry_name) o o.price none)
            (inside_group group s.pending_orders);
  }
