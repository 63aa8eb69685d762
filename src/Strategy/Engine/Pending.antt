-- ===== src/Strategy/Engine/Pending.antt =====
-- What a bar leaves among the pending orders.
use pine_framework.Prelude.{
  ℕ, map, ap, All, ◌⊎◌, inl, inr, ◌≡◌, refl, List, [], ◌∷◌, ◌++◌, Option, none, some, Bool, true,
  ◌&&◌, ◌||◌, not, String, string_eq, ltb, ◌==◌, if◌then◌else◌, if-elim, option-elim, arith,
}
use pine_framework.Strategy.Numbers.{Arith, is_positive}
use pine_framework.Strategy.Types.{
  Order, FilledOrder, is_flat, is_long, is_market, TrailingStopState,
}
use pine_framework.Strategy.Trailing
use pine_framework.Strategy.Trailing.{TrailingStops}
use pine_framework.Strategy.Engine.{Engine, margin_rate}
use pine_framework.Strategy.Engine.Orders.{close, close_order}
use pine_framework.Strategy.Engine.Bar.{
  market_orders, fill_pending_market_orders, process_pending_orders, update_trailing,
  update_position_pnl, track_excursion, check_liquidation, update_bar,
}
use pine_framework.Strategy.Engine.Filled.{order_of, waiting, IsAt, update_bar-Fills}
use pine_framework.Strategy.Engine.Quiet.{
  NoMarket, Quiet, fill_pending-Quiet, process_pending-Quiet,
}

module _ {N : Type 0} ⦃a : Arith N⦄ where
  ratchet-kind :
      (state : TrailingStopState N) (o : Order N) (up : Bool) (next : Option N)
      → (Trailing.ratchet state o up next).1.kind ≡ o.kind
  unfolding Trailing.ratchet
  ratchet-kind state o up none = refl
  ratchet-kind state o up (some next) =
      if-elim (λ (r : TrailingStopState N × Order N). r.1.kind ≡ o.kind)
        (if up then a.less state.stop_price next else a.less next state.stop_price) _ (state, o)
        (λ e. refl) (λ e. refl)

  step_state-kind :
      (state : TrailingStopState N) (o : Order N) (up : Bool) (avg high low price : N)
      → (Trailing.step_state state o up avg high low price).1.kind ≡ o.kind
  unfolding Trailing.step_state
  step_state-kind state o up avg high low price =
      let checked = Trailing.check_activation state up avg high low in
      let seen = Trailing.see_price checked up high low in
      if-elim (λ (r : TrailingStopState N × Order N). r.1.kind ≡ o.kind) checked.is_activated
        (Trailing.ratchet seen o up (Trailing.new_stop seen up price)) (checked, o)
        (λ e. ratchet-kind seen o up (Trailing.new_stop seen up price)) (λ e. refl)

  update_order-kind :
      (stops : TrailingStops N) (o : Order N) (up : Bool) (avg high low price : N)
      → (Trailing.update_order stops o up avg high low price).1.kind ≡ o.kind
  unfolding Trailing.update_order
  update_order-kind stops o up avg high low price =
      if-elim (λ (r : TrailingStops N × Order N). r.1.kind ≡ o.kind) (Trailing.has_trail o) _
        (stops, o)
        (λ e.
          option-elim (λ (r : TrailingStops N × Order N). r.1.kind ≡ o.kind)
            (Trailing.state_for stops o up avg) (stops, o) _ refl
            (λ state e'. step_state-kind state o up avg high low price))
        (λ e. refl)

  cons-NoMarket :
      (o o' : Order N) (os os' : List (Order N))
      → o'.kind ≡ o.kind
      → (NoMarket os → NoMarket os')
      → NoMarket (o ∷ os)
      → NoMarket (o' ∷ os')
  unfolding market_orders
  cons-NoMarket o o' os os' e keeps h = ground (arith, e, h, keeps)

  -- A trailing stop changes no order's kind.
  update-NoMarket :
      (stops : TrailingStops N) (os : List (Order N)) (up : Bool) (avg high low price : N)
      → NoMarket os
      → NoMarket (Trailing.update stops os up avg high low price).1
  unfolding market_orders Trailing.update
  update-NoMarket stops [] up avg high low price h = refl
  update-NoMarket stops (o ∷ os) up avg high low price h =
      let (stops', o') = Trailing.update_order stops o up avg high low price in
      cons-NoMarket o o' os (Trailing.update stops' os up avg high low price).1
        (update_order-kind stops o up avg high low price)
        (update-NoMarket stops' os up avg high low price) h

  update_trailing-Quiet :
      (s : Engine N) (high low price : N) → Quiet s → Quiet (update_trailing s high low price)
  unfolding Quiet update_trailing
  update_trailing-Quiet s high low price h =
      update-NoMarket s.trailing_stops s.pending_orders (is_long s.position.direction)
        s.position.avg_price high low price h

  update_position_pnl-Quiet :
      (s : Engine N) (price : N) → Quiet s → Quiet (update_position_pnl s price)
  unfolding Quiet update_position_pnl
  update_position_pnl-Quiet s price h =
      if-elim Quiet (is_flat s.position.direction) s _ (λ e. h) (λ e. h)

  track_excursion-Quiet :
      (s : Engine N) (high low : N) → Quiet s → Quiet (track_excursion s high low)
  unfolding Quiet track_excursion
  track_excursion-Quiet s high low h =
      if-elim Quiet (not (is_flat s.position.direction) && ltb 0 s.position.quantity) _ s (λ e. h)
        (λ e. h)

  -- No market order waits, or the one that a liquidation has just placed.
  abbrev pub IsSettled : Engine N → Type 0
  IsSettled s =
      let names = map (λ o. o.entry_name) (market_orders s.pending_orders) in
      (names ≡ []) ⊎ (names ≡ "liquidation" ∷ [])

  market_orders-last :
      (os : List (Order N)) (o : Order N)
      → is_market o.kind ≡ true
      → NoMarket os
      → market_orders (os ++ o ∷ []) ≡ o ∷ []
  unfolding market_orders
  market_orders-last [] o e h = ground (arith, e)
  market_orders-last (x ∷ os) o e h = ground (arith, e, h, market_orders-last os o)

  close-IsSettled :
      (s : Engine N) (comment : Option String)
      → Quiet s
      → IsSettled (close s "liquidation" comment).0
  unfolding Quiet close
  close-IsSettled s comment h =
      if-elim (λ (r : Engine N × Option (Order N)). IsSettled r.0)
        (is_flat s.position.direction || s.position.quantity == 0) _ _
        (λ e. inl (ap (map (λ o. o.entry_name)) h))
        (λ e. inr (
          ap (map (λ o. o.entry_name))
            (market_orders-last s.pending_orders (close_order s "liquidation") refl h)))

  check_liquidation-IsSettled : (s : Engine N) → Quiet s → IsSettled (check_liquidation s)
  unfolding Quiet check_liquidation
  check_liquidation-IsSettled s h =
      let rate = margin_rate s.config (is_long s.position.direction) in
      let maintenance = a.mul (a.times s.current_price s.position.quantity) rate in
      let still : IsSettled s = inl (ap (map (λ o. o.entry_name)) h) in
      if-elim IsSettled (is_flat s.position.direction || s.position.quantity == 0) _ _ (λ e. still)
        (λ e.
          if-elim IsSettled
            (is_positive rate && a.less (a.plus s.equity s.position.unrealized_pnl) maintenance)
            (close s "liquidation" (some "Margin liquidation")).0 s
            (λ e'. close-IsSettled s (some "Margin liquidation") h) (λ e'. still))

  update_bar-IsSettled :
      (s : Engine N) (index time : ℕ) (opening high low price : N)
      → IsSettled (update_bar s index time opening high low price)
  unfolding update_bar
  update_bar-IsSettled s index time opening high low price =
      let here : Engine N = record s {
        bar_index = index;
        timestamp = time;
        current_price = price;
      } in
      let filled = fill_pending_market_orders here opening high low price in
      let trailed = update_trailing filled high low price in
      let processed = process_pending_orders trailed high low in
      let floated = update_position_pnl processed price in
      check_liquidation-IsSettled (track_excursion floated high low) (
        track_excursion-Quiet floated high low (
          update_position_pnl-Quiet processed price (
            process_pending-Quiet trailed high low (
              update_trailing-Quiet filled high low price
                (fill_pending-Quiet here opening high low price)))))

  -- A bar fills every market order that waited when it came: the filled orders grow by a fill of each of
  -- them, once and in their order, at the bar's index and time, and then by others. Afterwards no market
  -- order waits, or only one named as a liquidation.
  pub update_bar_lem :
      (s : Engine N) (index time : ℕ) (opening high low price : N)
      → ((fs : List (FilledOrder N)) × ((rest : List (FilledOrder N)) × (((update_bar s index time
                  opening high low price).filled_orders
                ≡ (s.filled_orders ++ fs) ++ rest)
              × (map order_of fs ≡ waiting s.pending_orders)
              × All (IsAt index time) fs)))
        × IsSettled (update_bar s index time opening high low price)
  update_bar_lem s index time opening high low price = (
    update_bar-Fills s index time opening high low price,
    update_bar-IsSettled s index time opening high low price,
  )
