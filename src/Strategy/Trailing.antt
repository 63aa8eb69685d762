-- ===== src/Strategy/Trailing.antt =====
-- src/strategy/trailing-stop-manager.ts. `update` changes the stop price of pending orders that it shares
-- with the engine; here it returns them.
pub mod Ratchet
use pine_framework.Prelude.{
  ℕ, ◌≡◌, refl, ◌⊎◌, inl, inr, List, [], ◌∷◌, Option, none, some, Bool, true, false, ◌&&◌, ◌||◌,
  not, if◌then◌else◌, nat_eq,
}
use pine_framework.Prelude.JsMap.{JsMap}
use pine_framework.Prelude.JsMap
use pine_framework.Strategy.Numbers.{Arith, is_positive, at_least, at_most}
use pine_framework.Strategy.Types.{Order, TrailingStopState}

abbrev pub TrailingStops {ℓ} : Type ℓ → Type ℓ
TrailingStops N = JsMap ℕ (TrailingStopState N)

module _ {ℓ} {N : Type ℓ} ⦃a : Arith N⦄ where
  -- 0.01.
  abbrev mintick : N
  mintick = a.div (a.literal 1) (a.literal 100)

  -- The move that is favourable to a long position or to the other.
  abbrev toward : Bool → N → N → N
  toward is_long x y = if is_long then a.plus x y else a.minus x y

  abbrev against : Bool → N → N → N
  against is_long x y = if is_long then a.minus x y else a.plus x y

  abbrev positive : Option N → Option N
  positive none = none
  positive (some x) = if is_positive x then some x else none

  -- The distance of the trail: a positive offset in ticks, or else a positive price.
  unfoldable pub trail_distance : Option N → Option N → Option N
  trail_distance offset price = elim (positive offset) [
    | some ticks ↦ some (a.mul ticks mintick)
    | none ↦ positive price
  ]

  unfoldable pub init_state : Order N → Bool → N → Option (TrailingStopState N)
  unfolding trail_distance
  init_state order is_long avg_price = elim (trail_distance order.trail_offset order.trail_price) [
    | none ↦ none
    | some d ↦ some (record {
      order_id = order.id;
      trail_offset = order.trail_offset;
      trail_price = order.trail_price;
      highest_price = avg_price;
      stop_price = against is_long (toward is_long avg_price d) d;
      is_activated = false;
    })
  ]

  -- The favourable move that activates the stop; an offset counts even if it is not positive.
  unfoldable pub activation_price : TrailingStopState N → Bool → N → N
  activation_price state is_long avg_price = toward is_long avg_price (elim state.trail_offset [
    | some ticks ↦ a.mul ticks mintick
    | none ↦ elim state.trail_price [ some p ↦ p | none ↦ a.nought ]
  ])

  unfoldable pub check_activation : TrailingStopState N → Bool → N → N → N → TrailingStopState N
  unfolding activation_price
  check_activation state is_long avg_price high low =
      let act = activation_price state is_long avg_price in
      let reached = if is_long then at_least high act else at_most low act in
      if not state.is_activated && reached
      then record state { is_activated = true; highest_price = if is_long then high else low }
      else state

  -- The best price seen, the highest of a long position and the lowest of the other.
  unfoldable pub see_price : TrailingStopState N → Bool → N → N → TrailingStopState N
  see_price state is_long high low =
      if is_long
      then (if a.less state.highest_price high
          then record state { highest_price = high }
          else state)
      else (if a.less low state.highest_price then record state { highest_price = low } else state)

  unfoldable pub new_stop : TrailingStopState N → Bool → N → Option N
  new_stop state is_long price = elim (positive state.trail_offset) [
    | some ticks ↦ some (against is_long state.highest_price (a.mul ticks mintick))
    | none ↦ elim (positive state.trail_price) [
      | some d ↦ some (against is_long price d)
      | none ↦ none
    ]
  ]

  -- The stop moves in the favourable direction only.
  unfoldable pub ratchet :
      TrailingStopState N → Order N → Bool → Option N → TrailingStopState N × Order N
  ratchet state order is_long none = (state, order)
  ratchet state order is_long (some next) =
      if (if is_long then a.less state.stop_price next else a.less next state.stop_price)
      then (record state { stop_price = next }, record order { stop_price = some next })
      else (state, order)

  unfoldable pub step_state :
      TrailingStopState N → Order N → Bool → N → N → N → N → TrailingStopState N × Order N
  unfolding check_activation see_price ratchet new_stop
  step_state state order is_long avg_price high low price =
      let checked = check_activation state is_long avg_price high low in
      let seen = see_price checked is_long high low in
      if checked.is_activated
      then ratchet seen order is_long (new_stop seen is_long price)
      else (checked, order)

  abbrev pub has_trail : Order N → Bool
  has_trail order = elim order.trail_offset [
    | some x ↦ true
    | none ↦ elim order.trail_price [ some x ↦ true | none ↦ false ]
  ]

  abbrev pub state_for : TrailingStops N → Order N → Bool → N → Option (TrailingStopState N)
  state_for stops order is_long avg_price = elim (JsMap.get stops order.id) [
    | some state ↦ some state
    | none ↦ init_state order is_long avg_price
  ]

  -- The body of the loop for one order.
  unfoldable pub update_order :
      TrailingStops N → Order N → Bool → N → N → N → N → TrailingStops N × Order N
  unfolding init_state step_state
  update_order stops order is_long avg_price high low price =
      let updated : TrailingStops N × Order N = elim (state_for stops order is_long avg_price) [
        | none ↦ (stops, order)
        | some state ↦
            let (state', order') = step_state state order is_long avg_price high low price in
            (JsMap.set stops order.id state', order')
      ] in
      if has_trail order then updated else (stops, order)

  unfoldable pub update :
      TrailingStops N → List (Order N) → Bool → N → N → N → N → TrailingStops N × List (Order N)
  unfolding update_order
  update stops [] is_long avg_price high low price = (stops, [])
  update stops (order ∷ orders) is_long avg_price high low price =
      let (stops', order') = update_order stops order is_long avg_price high low price in
      let (stops'', orders') = update stops' orders is_long avg_price high low price in
      (stops'', order' ∷ orders')
