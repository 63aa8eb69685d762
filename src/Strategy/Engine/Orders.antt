-- ===== src/Strategy/Engine/Orders.antt =====
-- The orders that a script places and cancels: `entry`, `order`, `exit`, `close`, `cancel` and the markers.
use pine_framework.Prelude.{
  ℕ, ◌+◌, List, [], ◌∷◌, ◌++◌, map, drop, Option, none, some, Bool, true, false, ◌&&◌, ◌||◌, not,
  String, string_eq, ◌===◌, ltb, ◌==◌, if◌then◌else◌, length,
}
use pine_framework.Strategy.Numbers.{Arith, is_positive}
use pine_framework.Strategy.Types.{
  Order, OrderType, market, limit, stop, stop_limit, OrderDirection, long, short, buy, sell,
  PositionDirection, in_long, in_short, flat, StrategyMarker, entered, ordered, closed, cancelled,
  cancelled_all, plain, exit_of, long_only_suppression, is_flat, is_long, is_held, action_of,
  is_market, is_short_order,
}
use pine_framework.Strategy.Engine.{Engine, calculate_qty, can_open_position, marker_of}

-- `this.position.entryName || name`.
abbrev pub name_or : String → String → String
name_or name other = if name === "" then other else name

abbrev pub minimum : ℕ → ℕ → ℕ
minimum x y = if ltb x y then x else y

abbrev pub side_of : PositionDirection → OrderDirection
side_of in_long = long
side_of in_short = short
side_of flat = short

module _ {ℓ} {N : Type ℓ} ⦃a : Arith N⦄ where
  abbrev pub is_given : Option N → Bool
  is_given none = false
  is_given (some x) = is_positive x

  abbrev pub type_of : Option N → Option N → OrderType
  type_of stop_price limit_price =
      if is_given stop_price
      then (if is_given limit_price then stop_limit else stop)
      else if is_given limit_price
      then limit
      else market

  -- A market order without a price takes the current one.
  abbrev pub price_for : Engine N → OrderType → N → N
  price_for s kind price =
      if is_market kind && a.equal price a.nought then s.current_price else price

  abbrev pub long_only : Engine N → Bool
  long_only s = elim s.config.commission_method [ none ↦ false | some m ↦ m.enforce_long_only ]

  -- `generateOrderId` and `pendingOrders.push`, with the marker that follows.
  abbrev pub push_order : Engine N → Order N → Engine N
  push_order s order = record s {
    next_order_id = s.next_order_id + 1;
    pending_orders = s.pending_orders ++ order ∷ [];
  }

  abbrev pub push_marker : Engine N → StrategyMarker N → Engine N
  push_marker s m = record s { markers = s.markers ++ m ∷ [] }

  -- An order of the script, at the engine's time.
  abbrev pub new_order : Engine N → String → OrderDirection → ℕ → N → Option N → Option N → Order N
  new_order s name direction quantity price stop_price limit_price =
      let kind = type_of stop_price limit_price in
      record {
        id = s.next_order_id + 1;
        direction = direction;
        action = action_of direction;
        kind = kind;
        quantity = quantity;
        price = price_for s kind price;
        stop_price = stop_price;
        limit_price = limit_price;
        entry_name = name;
        timestamp = s.timestamp;
        bar_index = s.bar_index;
        oca_group = none;
        trail_price = none;
        trail_offset = none;
        from_entry = none;
      }

  abbrev pub close_order : Engine N → String → Order N
  close_order s name =
      let is_long = is_long s.position.direction in
      record {
        id = s.next_order_id + 1;
        direction = if is_long then long else short;
        action = if is_long then sell else buy;
        kind = market;
        quantity = s.position.quantity;
        price = s.current_price;
        stop_price = none;
        limit_price = none;
        entry_name = name;
        timestamp = s.timestamp;
        bar_index = s.bar_index;
        oca_group = none;
        trail_price = none;
        trail_offset = none;
        from_entry = none;
      }

  -- The order, if there is a position to close, with the new state.
  unfoldable pub close : Engine N → String → Option String → Engine N × Option (Order N)
  close s name comment =
      let order = close_order s name in
      if is_flat s.position.direction || s.position.quantity == 0 then (s, none) else (
        push_marker (push_order s order)
            (marker_of s closed (exit_of name) order order.price comment),
        some order,
      )

  unfoldable pub place_entry :
      Engine N
      → String
      → OrderDirection
      → ℕ
      → N
      → Option N
      → Option N
      → Option String
      → Engine N × Option (Order N)
  place_entry s name direction quantity price stop_price limit_price comment =
      let order = new_order s name direction quantity price stop_price limit_price in
      let label = name_or name (elim direction [ long ↦ "Long" | short ↦ "Short" ]) in
      let pushed : Engine N = record (push_order s order) { entries = s.entries + 1 } in
      (push_marker pushed (marker_of s entered (plain label) order order.price comment), some order)

  -- An entry against the position closes it first; one that is refused places nothing.
  unfoldable pub entry_with :
      Engine N
      → String
      → OrderDirection
      → ℕ
      → N
      → Option N
      → Option N
      → Option String
      → Engine N × Option (Order N)
  unfolding close place_entry
  entry_with s name direction quantity price stop_price limit_price comment =
      let reverse = (close s (name_or s.position.entry_name name) (some "reverse")).0 in
      let warned : Engine N = record s {
        warnings = s.warnings ++ long_only_suppression name ∷ [];
      } in
      let warned_reverse = (close warned (name_or s.position.entry_name name) (some "reverse")).0 in
      if long_only s && is_short_order direction
      then (if is_long s.position.direction then (warned_reverse, none) else (warned, none))
      else if can_open_position s direction quantity
      then place_entry s name direction quantity price stop_price limit_price comment
      else if not (is_flat s.position.direction) && not (is_held s.position.direction direction)
      then place_entry reverse name direction quantity price stop_price limit_price comment
      else (s, none)

  unfoldable pub quantity_or : Engine N → Option ℕ → ℕ
  quantity_or s none = calculate_qty s
  quantity_or s (some q) = q

  unfoldable pub entry :
      Engine N
      → String
      → OrderDirection
      → Option ℕ
      → N
      → Option N
      → Option N
      → Option String
      → Engine N × Option (Order N)
  unfolding entry_with
  entry s name direction quantity price stop_price limit_price comment =
      entry_with s name direction (quantity_or s quantity) price stop_price limit_price comment

  unfoldable pub order :
      Engine N
      → String
      → OrderDirection
      → Option ℕ
      → N
      → Option N
      → Option N
      → Engine N × Option (Order N)
  order s name direction quantity price stop_price limit_price =
      let o = new_order s name direction (quantity_or s quantity) price stop_price limit_price in
      if long_only s && (is_short_order direction && not (is_long s.position.direction))
      then (record s { warnings = s.warnings ++ long_only_suppression name ∷ [] }, none)
      else (push_marker (push_order s o) (marker_of s ordered (plain name) o o.price none), some o)

  -- The first pending order with the id, and the others.
  unfoldable pub take_order : ℕ → List (Order N) → Option (Order N × List (Order N))
  take_order id [] = none
  take_order id (o ∷ os) =
      let rest : Option (Order N × List (Order N)) = elim (take_order id os) [
        | none ↦ none
        | some (found, others) ↦ some (found, o ∷ others)
      ] in
      if o.id == id then some (o, os) else rest

  unfoldable pub cancel : Engine N → ℕ → Engine N × Bool
  unfolding take_order
  cancel s id = elim (take_order id s.pending_orders) [
    | none ↦ (s, false)
    | some (o, others) ↦ (
      push_marker (record s { pending_orders = others })
          (marker_of s cancelled (plain o.entry_name) o o.price none),
      true,
    )
  ]

  unfoldable pub cancel_all : Engine N → Engine N
  cancel_all s = record s {
    pending_orders = [];
    markers =
        s.markers
        ++ map (λ o. marker_of s cancelled_all (plain o.entry_name) o o.price none)
            s.pending_orders;
  }

  unfoldable pub get_new_markers : Engine N → Engine N × List (StrategyMarker N)
  get_new_markers s =
      (record s { last_marker_count = length s.markers }, drop s.last_marker_count s.markers)
