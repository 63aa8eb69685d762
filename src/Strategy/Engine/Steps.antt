-- ===== src/Strategy/Engine/Steps.antt =====
-- Runs of the engine: the calls of a script, and the bars.
use pine_framework.Prelude.{
  ℕ, refl, List, [], ◌∷◌, Option, none, some, Bool, ◌&&◌, ◌||◌, not, String, ltb, ◌==◌, if-elim,
  option-elim,
}
use pine_framework.Strategy.Numbers.{Arith, is_positive}
use pine_framework.Strategy.Types.{
  Order, OrderDirection, StrategyConfig, is_flat, is_long, is_held, is_market, is_short_order,
}
use pine_framework.Strategy.Engine.{Engine, create, margin_rate, can_open_position}
use pine_framework.Strategy.Engine.Fill.{fill_order}
use pine_framework.Strategy.Engine.Groups.{cancel_group}
use pine_framework.Strategy.Engine.Orders.{
  close, entry, entry_with, place_entry, order, cancel, cancel_all, long_only, quantity_or,
  take_order,
}
use pine_framework.Strategy.Engine.Exits.{exit, exit_terms, place_exit}
use pine_framework.Strategy.Engine.Bar.{
  fill_all, market_orders, other_orders, market_fill_price, select, fills_now, triggers_now,
  fill_pending_market_orders, fill_and_cancel, fill_hit, fill_triggered, limit_hit,
  process_pending_orders, update_trailing, update_position_pnl, track_excursion, check_liquidation,
  update_bar,
}
use pine_framework.Strategy.Engine.Lots.{fill_order-Holds}
use pine_framework.Strategy.Engine.Balance.{IsBalanced}

pub data Call (N : Type 0) : Type 0 where
  enters : String → OrderDirection → Option ℕ → N → Option N → Option N → Option String → Call N
  orders : String → OrderDirection → Option ℕ → N → Option N → Option N → Call N
  exits :
      String
      → Option ℕ
      → N
      → Option N
      → Option N
      → Option String
      → Option String
      → Option N
      → Option N
      → Call N
  closes : String → Option String → Call N
  cancels : ℕ → Call N
  cancels_all : Call N
  bar : ℕ → ℕ → N → N → N → N → Call N

module _ {N : Type 0} ⦃a : Arith N⦄ where
  unfoldable pub step : Engine N → Call N → Engine N
  step s (enters name d q price stop lim comment) = (entry s name d q price stop lim comment).0
  step s (orders name d q price stop lim) = (order s name d q price stop lim).0
  step s (exits name q price stop lim comment from trail offset) =
      (exit s name q price stop lim comment from trail offset).0
  step s (closes name comment) = (close s name comment).0
  step s (cancels id) = (cancel s id).0
  step s cancels_all = cancel_all s
  step s (bar index time opening high low price) = update_bar s index time opening high low price

  unfoldable pub run : List (Call N) → Engine N → Engine N
  run [] s = s
  run (call ∷ calls) s = run calls (step s call)

  abbrev Balanced : Engine N → Type 0
  Balanced s = IsBalanced s.position

  -- The result of a call with an order.
  abbrev BalancedResult : Engine N × Option (Order N) → Type 0
  BalancedResult r = IsBalanced r.0.position

  fills : (s : Engine N) (o : Order N) (price : N) → Balanced s → Balanced (fill_order s o price)
  fills s o price b = (fill_order-Holds s o price b).balanced

  fill_all-IsBalanced :
      (os : List (Order N)) (price : N) (s : Engine N) → Balanced s → Balanced (fill_all os price s)
  unfolding fill_all
  fill_all-IsBalanced [] price s b = b
  fill_all-IsBalanced (o ∷ os) price s b = fill_all-IsBalanced os price _ (fills s o price b)

  fill_and_cancel-IsBalanced :
      (s : Engine N) (o : Order N) (price : N) → Balanced s → Balanced (fill_and_cancel s o price)
  unfolding fill_and_cancel cancel_group
  fill_and_cancel-IsBalanced s o price b =
      option-elim Balanced o.oca_group (fill_order s o price) (cancel_group (fill_order s o price))
        (fills s o price b) (λ group e. fills s o price b)

  fill_hit-IsBalanced : (os : List (Order N)) (s : Engine N) → Balanced s → Balanced (fill_hit os s)
  unfolding fill_hit
  fill_hit-IsBalanced [] s b = b
  fill_hit-IsBalanced (o ∷ os) s b = fill_hit-IsBalanced os _ (fill_and_cancel-IsBalanced s o _ b)

  fill_triggered-IsBalanced :
      (high low : N) (os : List (Order N)) (s : Engine N)
      → Balanced s
      → Balanced (fill_triggered high low os s)
  unfolding fill_triggered
  fill_triggered-IsBalanced high low [] s b = b
  fill_triggered-IsBalanced high low (o ∷ os) s b = fill_triggered-IsBalanced high low os _ (
      if-elim Balanced (limit_hit high low o) _ _ (λ e. fill_and_cancel-IsBalanced s o _ b)
        (λ e. b))

  close-IsBalanced :
      (s : Engine N) (name : String) (comment : Option String)
      → Balanced s
      → Balanced (close s name comment).0
  unfolding close
  close-IsBalanced s name comment b =
      if-elim BalancedResult (is_flat s.position.direction || s.position.quantity == 0) _ _ (λ e. b)
        (λ e. b)

  update_position_pnl-IsBalanced :
      (s : Engine N) (price : N) → Balanced s → Balanced (update_position_pnl s price)
  unfolding update_position_pnl
  update_position_pnl-IsBalanced s price b =
      if-elim Balanced (is_flat s.position.direction) _ _ (λ e. b)
        (λ e. record { lots_sum = b.lots_sum; flat_empty = b.flat_empty })

  track_excursion-IsBalanced :
      (s : Engine N) (high low : N) → Balanced s → Balanced (track_excursion s high low)
  unfolding track_excursion
  track_excursion-IsBalanced s high low b =
      if-elim Balanced (not (is_flat s.position.direction) && ltb 0 s.position.quantity) _ _
        (λ e. b) (λ e. b)

  check_liquidation-IsBalanced : (s : Engine N) → Balanced s → Balanced (check_liquidation s)
  unfolding check_liquidation
  check_liquidation-IsBalanced s b =
      let rate = margin_rate s.config (is_long s.position.direction) in
      let maintenance = a.mul (a.times s.current_price s.position.quantity) rate in
      if-elim Balanced (is_flat s.position.direction || s.position.quantity == 0) _ _ (λ e. b)
        (λ e.
          if-elim Balanced
            (is_positive rate && a.less (a.plus s.equity s.position.unrealized_pnl) maintenance)
            (close s "liquidation" (some "Margin liquidation")).0 s
            (λ e'. close-IsBalanced s "liquidation" (some "Margin liquidation") b) (λ e'. b))

  fill_pending-IsBalanced :
      (s : Engine N) (opening high low price : N)
      → Balanced s
      → Balanced (fill_pending_market_orders s opening high low price)
  unfolding fill_pending_market_orders
  fill_pending-IsBalanced s opening high low price b =
      fill_all-IsBalanced (market_orders s.pending_orders)
        (market_fill_price s.config opening high low price)
        (record s { pending_orders = other_orders s.pending_orders }) b

  update_trailing-IsBalanced :
      (s : Engine N) (high low price : N) → Balanced s → Balanced (update_trailing s high low price)
  unfolding update_trailing
  update_trailing-IsBalanced s high low price b = b

  process_pending-IsBalanced :
      (s : Engine N) (high low : N) → Balanced s → Balanced (process_pending_orders s high low)
  unfolding process_pending_orders
  process_pending-IsBalanced s high low b =
      let kept =
        select (λ o. not (fills_now high low o) && not (triggers_now high low o))
          s.pending_orders in
      fill_triggered-IsBalanced high low (select (triggers_now high low) s.pending_orders)
        (fill_hit (select (fills_now high low) s.pending_orders)
          (record s { pending_orders = kept }))
        (fill_hit-IsBalanced (select (fills_now high low) s.pending_orders)
          (record s { pending_orders = kept }) b)

  update_bar-IsBalanced :
      (s : Engine N) (index time : ℕ) (opening high low price : N)
      → Balanced s
      → Balanced (update_bar s index time opening high low price)
  unfolding update_bar
  update_bar-IsBalanced s index time opening high low price b =
      let here : Engine N = record s {
        bar_index = index;
        timestamp = time;
        current_price = price;
      } in
      let filled = fill_pending_market_orders here opening high low price in
      let trailed = update_trailing filled high low price in
      let processed = process_pending_orders trailed high low in
      let floated = update_position_pnl processed price in
      check_liquidation-IsBalanced (track_excursion floated high low) (
        track_excursion-IsBalanced floated high low (
          update_position_pnl-IsBalanced processed price (
            process_pending-IsBalanced trailed high low (
              update_trailing-IsBalanced filled high low price
                (fill_pending-IsBalanced here opening high low price b)))))

  entry-IsBalanced :
      (s : Engine N) (name : String) (d : OrderDirection) (q : ℕ) (price : N) (stop lim : Option N)
      (comment : Option String)
      → Balanced s
      → BalancedResult (entry_with s name d q price stop lim comment)
  unfolding entry_with place_entry
  entry-IsBalanced s name d q price stop lim comment b =
      if-elim BalancedResult (long_only s && is_short_order d) _ _
        (λ e.
          if-elim BalancedResult (is_long s.position.direction) _ _ (λ e'. close-IsBalanced _ _ _ b)
            (λ e'. b))
        (λ e.
          if-elim BalancedResult (can_open_position s d q) _ _ (λ e'. b)
            (λ e'.
              if-elim BalancedResult
                (not (is_flat s.position.direction) && not (is_held s.position.direction d)) _ _
                (λ e''. close-IsBalanced s _ _ b) (λ e''. b)))

  place_exit-IsBalanced :
      (s : Engine N) (o : Order N) (comment : Option String)
      → Balanced s
      → BalancedResult (place_exit s o comment)
  unfolding place_exit
  place_exit-IsBalanced s o comment b =
      if-elim Balanced (is_market o.kind) _ _ (λ e. fills _ o _ b) (λ e. b)

  step-IsBalanced : (s : Engine N) (call : Call N) → Balanced s → Balanced (step s call)
  unfolding step entry order exit cancel cancel_all
  step-IsBalanced s (enters name d q price stop lim comment) b =
      entry-IsBalanced s name d (quantity_or s q) price stop lim comment b
  step-IsBalanced s (orders name d q price stop lim) b =
      if-elim BalancedResult
        (long_only s && (is_short_order d && not (is_long s.position.direction))) _ _ (λ e. b)
        (λ e. b)
  step-IsBalanced s (exits name q price stop lim comment from trail offset) b =
      option-elim BalancedResult
        (exit_terms s (elim q [ none ↦ s.position.quantity | some q' ↦ q' ]) from) _ _ b
        (λ terms e. place_exit-IsBalanced s _ comment b)
  step-IsBalanced s (closes name comment) b = close-IsBalanced s name comment b
  step-IsBalanced s (cancels id) b =
      option-elim (λ (r : Engine N × Bool). IsBalanced r.0.position)
        (take_order id s.pending_orders) _ _ b (λ found e. b)
  step-IsBalanced s cancels_all b = b
  step-IsBalanced s (bar index time opening high low price) b =
      update_bar-IsBalanced s index time opening high low price b

  run-keeps : (calls : List (Call N)) (s : Engine N) → Balanced s → Balanced (run calls s)
  unfolding run
  run-keeps [] s b = b
  run-keeps (call ∷ calls) s b = run-keeps calls (step s call) (step-IsBalanced s call b)

  -- Whatever a script calls and whatever the bars are, as long as every quantity, one that the default
  -- size gives included, is a whole number of units and not negative, the lots of a new engine add up to
  -- its position, and a flat position holds nothing.
  pub run-IsBalanced :
      (config : StrategyConfig N) (calls : List (Call N))
      → IsBalanced (run calls (create config)).position
  unfolding create
  run-IsBalanced config calls =
      run-keeps calls (create config) (record { lots_sum = refl; flat_empty = λ e. refl })
