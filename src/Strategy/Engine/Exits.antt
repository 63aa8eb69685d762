-- ===== src/Strategy/Engine/Exits.antt =====
-- The exits that a script places: `exit` of src/strategy/strategy-engine.ts.
use pine_framework.Prelude.{
  ℕ, ◌+◌, List, [], ◌∷◌, Option, none, some, Bool, true, false, ◌&&◌, ◌||◌, not, String, string_eq,
  ◌===◌, ltb, ◌==◌, if◌then◌else◌,
}
use pine_framework.Strategy.Numbers.{Arith}
use pine_framework.Strategy.Types.{
  Order, OrderType, market, limit, stop, stop_limit, OrderDirection, OrderAction, PositionLot,
  Position, exited, exit_of, is_flat, action_of, opposite, is_market,
}
use pine_framework.Strategy.Engine.{Engine, marker_of}
use pine_framework.Strategy.Engine.Fill.{fill_order}
use pine_framework.Strategy.Engine.Orders.{
  minimum, side_of, is_given, type_of, price_for, push_order, push_marker,
}

module _ {ℓ} {N : Type ℓ} ⦃a : Arith N⦄ where
  -- The quantity of the lots of an entry.
  unfoldable pub lots_quantity : String → List (PositionLot N) → ℕ
  lots_quantity name [] = 0
  lots_quantity name (lot ∷ lots) =
      let rest = lots_quantity name lots in
      if lot.entry_name === name then lot.quantity + rest else rest

  unfoldable pub first_market : List (Order N) → Option (Order N)
  first_market [] = none
  first_market (o ∷ os) = let rest = first_market os in if is_market o.kind then some o else rest

  abbrev pub has_lots : Position N → Bool
  has_lots p = elim p.lots [ [] ↦ false | lot ∷ lots ↦ true ]

  -- What an exit of the open position takes; none if no lot matches its entry.
  unfoldable pub exit_quantity : Position N → ℕ → Option String → Option ℕ
  unfolding lots_quantity
  exit_quantity p quantity none = some (minimum quantity p.quantity)
  exit_quantity p quantity (some name) =
      let matching = lots_quantity name p.lots in
      if not (name === "") && has_lots p
      then (if matching == 0
          then none
          else some (minimum (if quantity == p.quantity then matching else quantity) matching))
      else some (minimum quantity p.quantity)

  -- Direction, action and quantity of an exit: of the position, or else of the first market order.
  unfoldable pub exit_terms :
      Engine N → ℕ → Option String → Option (OrderDirection × (OrderAction × ℕ))
  unfolding exit_quantity first_market
  exit_terms s quantity from_entry =
      let p = s.position in
      let of_position : Option (OrderDirection × (OrderAction × ℕ)) =
        elim (exit_quantity p quantity from_entry) [
          | none ↦ none
          | some q ↦ some (side_of p.direction, (opposite (action_of (side_of p.direction)), q))
        ] in
      let of_pending : Option (OrderDirection × (OrderAction × ℕ)) =
        elim (first_market s.pending_orders) [
          | none ↦ none
          | some o ↦
              some
                (o.direction, (opposite o.action, if quantity == 0 then o.quantity else quantity))
        ] in
      if not (is_flat p.direction) && ltb 0 p.quantity then of_position else of_pending

  abbrev pub exit_type : Option N → Option N → Option N → Option N → OrderType
  exit_type stop_price limit_price trail_price trail_offset =
      elim (type_of stop_price limit_price) [
        | market ↦ if is_given trail_price || is_given trail_offset then stop else market
        | limit ↦ limit
        | stop ↦ stop
        | stop_limit ↦ stop_limit
      ]

  -- A market exit fills at once, any other waits.
  unfoldable pub place_exit : Engine N → Order N → Option String → Engine N × Option (Order N)
  place_exit s o comment =
      let filled = fill_order (record s { next_order_id = s.next_order_id + 1 }) o o.price in
      let placed = if is_market o.kind then filled else push_order s o in
      (push_marker placed (marker_of s exited (exit_of o.entry_name) o o.price comment), some o)

  unfoldable pub exit :
      Engine N
      → String
      → Option ℕ
      → N
      → Option N
      → Option N
      → Option String
      → Option String
      → Option N
      → Option N
      → Engine N × Option (Order N)
  unfolding exit_terms place_exit
  exit s name quantity price stop_price limit_price comment from_entry trail_price trail_offset =
      let wanted : ℕ = elim quantity [ none ↦ s.position.quantity | some q ↦ q ] in
      let kind = exit_type stop_price limit_price trail_price trail_offset in
      elim (exit_terms s wanted from_entry) [
        | none ↦ (s, none)
        | some (direction, (action, q)) ↦
            place_exit s
              (record {
                id = s.next_order_id + 1;
                direction = direction;
                action = action;
                kind = kind;
                quantity = q;
                price = price_for s kind price;
                stop_price = stop_price;
                limit_price = limit_price;
                entry_name = name;
                timestamp = s.timestamp;
                bar_index = s.bar_index;
                oca_group =
                    if is_market kind || is_flat s.position.direction
                    then none
                    else some s.position.entry_name;
                trail_price = trail_price;
                trail_offset = trail_offset;
                from_entry = from_entry;
              })
              comment
      ]
