-- ===== src/Strategy/Engine/Quiet.antt =====
-- No market order waits, through fills and the orders that a bar hits.
use pine_framework.Prelude.{
  ℕ, ◌≡◌, refl, List, [], ◌∷◌, ◌++◌, Option, Bool, true, false, ◌&&◌, ◌||◌, not, String, string_eq,
  ◌===◌, ◌==◌, if◌then◌else◌, if-elim, option-elim, arith,
}
use pine_framework.Strategy.Numbers.{Arith}
use pine_framework.Strategy.Types.{
  Order, FilledOrder, OrderDirection, long, short, is_flat, is_long, is_short, is_buy, is_market,
}
use pine_framework.Strategy.Engine.{Engine, update_drawdown}
use pine_framework.Strategy.Engine.Fill.{
  open_or_add, open_position, add_position, apply_fill, charge, fill_order, calculate_slippage,
  fill_commission,
}
use pine_framework.Strategy.Engine.Closing.{go_flat, book_close, drop_empty, close_or_reduce}
use pine_framework.Strategy.Engine.Groups.{outside_group, cancel_group}
use pine_framework.Strategy.Engine.Bar.{
  market_orders, other_orders, market_fill_price, fill_all, fill_pending_market_orders, limit_hit,
  select, fills_now, triggers_now, fill_and_cancel, fill_hit, fill_triggered,
  process_pending_orders,
}

module _ {N : Type 0} ⦃a : Arith N⦄ where
  abbrev pub NoMarket : List (Order N) → Type 0
  NoMarket os = market_orders os ≡ []

  pub other_orders-NoMarket : (os : List (Order N)) → NoMarket (other_orders os)
  unfolding market_orders other_orders
  other_orders-NoMarket [] = refl
  other_orders-NoMarket (o ∷ os) = ground (arith, other_orders-NoMarket os)

  outside_group-NoMarket :
      (g : String) (os : List (Order N)) → NoMarket os → NoMarket (outside_group g os)
  unfolding market_orders outside_group
  outside_group-NoMarket g [] h = refl
  outside_group-NoMarket g (o ∷ os) h = ground (arith, h, outside_group-NoMarket g os)

  pub select-NoMarket :
      (test : Order N → Bool) (os : List (Order N)) → NoMarket os → NoMarket (select test os)
  unfolding market_orders select
  select-NoMarket test [] h = refl
  select-NoMarket test (o ∷ os) h = ground (arith, h, select-NoMarket test os)

  pub append-NoMarket :
      (os : List (Order N)) (o : Order N)
      → is_market o.kind ≡ false
      → NoMarket os
      → NoMarket (os ++ o ∷ [])
  unfolding market_orders
  append-NoMarket [] o e h = ground (arith, e)
  append-NoMarket (x ∷ os) o e h = ground (arith, e, h, append-NoMarket os o)

  unfoldable pub Quiet : Engine N → Type 0
  Quiet s = NoMarket s.pending_orders

  cancel_group-Quiet : (s : Engine N) (g : String) → Quiet s → Quiet (cancel_group s g)
  unfolding Quiet cancel_group
  cancel_group-Quiet s g h = outside_group-NoMarket g s.pending_orders h

  go_flat-Quiet : (s : Engine N) → Quiet s → Quiet (go_flat s)
  unfolding Quiet go_flat
  go_flat-Quiet s h =
      if-elim Quiet (s.position.entry_name === "") s (cancel_group s s.position.entry_name) (λ e. h)
        (λ e. cancel_group-Quiet s s.position.entry_name h)

  open_or_add-Quiet :
      (s : Engine N) (d : OrderDirection) (q : ℕ) (price fee : N) (name : String)
      → Quiet s
      → Quiet (open_or_add s d q price fee name)
  unfolding Quiet open_or_add open_position add_position
  open_or_add-Quiet s d q price fee name h =
      if-elim Quiet (is_flat s.position.direction) (open_position s d q price fee name)
        (add_position s q price fee name) (λ e. h) (λ e. h)

  close_or_reduce-Quiet :
      (s : Engine N) (q : ℕ) (price fee : N) (name : String) (from : Option String)
      → Quiet s
      → Quiet (close_or_reduce s q price fee name from)
  unfolding Quiet close_or_reduce drop_empty book_close update_drawdown
  close_or_reduce-Quiet s q price fee name from h =
      let booked = book_close s q price fee name from in
      if-elim Quiet (booked.position.quantity == 0) (go_flat booked) booked
        (λ e. go_flat-Quiet booked h) (λ e. h)

  side-Quiet :
      (s : Engine N) (o : Order N) (price fee : N) (d : OrderDirection) (adds : Bool)
      → Quiet s
      → Quiet (
          if adds
          then open_or_add s d o.quantity price fee o.entry_name
          else close_or_reduce s o.quantity price fee o.entry_name o.from_entry)
  unfolding Quiet
  side-Quiet s o price fee d true h = open_or_add-Quiet s d o.quantity price fee o.entry_name h
  side-Quiet s o price fee d false h =
      close_or_reduce-Quiet s o.quantity price fee o.entry_name o.from_entry h

  apply_fill-Quiet :
      (s : Engine N) (o : Order N) (price fee : N) → Quiet s → Quiet (apply_fill s o price fee)
  unfolding Quiet apply_fill
  apply_fill-Quiet s o price fee h =
      if-elim Quiet (is_buy o.action) _ _
        (λ e.
          side-Quiet s o price fee long
            (is_flat s.position.direction || is_long s.position.direction) h)
        (λ e.
          side-Quiet s o price fee short
            (is_flat s.position.direction || is_short s.position.direction) h)

  charge-Quiet : (s : Engine N) (fee : N) → Quiet s → Quiet (charge s fee)
  unfolding Quiet charge
  charge-Quiet s fee h = h

  fill_order-Quiet :
      (s : Engine N) (o : Order N) (price : N) → Quiet s → Quiet (fill_order s o price)
  unfolding Quiet fill_order
  fill_order-Quiet s o price h =
      let slippage = calculate_slippage s.config price in
      let fee = fill_commission s.config (is_flat s.position.direction) o.quantity price in
      let at = if is_buy o.action then a.plus price slippage else a.minus price slippage in
      let filled : FilledOrder N = record {
        order = o;
        fill_price = at;
        fill_time = s.timestamp;
        fill_bar_index = s.bar_index;
      } in
      let here : Engine N = record s { filled_orders = s.filled_orders ++ filled ∷ [] } in
      charge-Quiet (apply_fill here o at fee) fee (apply_fill-Quiet here o at fee h)

  fill_all-Quiet :
      (os : List (Order N)) (price : N) (s : Engine N) → Quiet s → Quiet (fill_all os price s)
  unfolding Quiet fill_all
  fill_all-Quiet [] price s h = h
  fill_all-Quiet (o ∷ os) price s h = fill_all-Quiet os price _ (fill_order-Quiet s o price h)

  fill_and_cancel-Quiet :
      (s : Engine N) (o : Order N) (price : N) → Quiet s → Quiet (fill_and_cancel s o price)
  unfolding Quiet fill_and_cancel
  fill_and_cancel-Quiet s o price h =
      option-elim Quiet o.oca_group (fill_order s o price) (cancel_group (fill_order s o price))
        (fill_order-Quiet s o price h)
        (λ g e. cancel_group-Quiet (fill_order s o price) g (fill_order-Quiet s o price h))

  fill_hit-Quiet : (os : List (Order N)) (s : Engine N) → Quiet s → Quiet (fill_hit os s)
  unfolding Quiet fill_hit
  fill_hit-Quiet [] s h = h
  fill_hit-Quiet (o ∷ os) s h = fill_hit-Quiet os _ (fill_and_cancel-Quiet s o _ h)

  fill_triggered-Quiet :
      (high low : N) (os : List (Order N)) (s : Engine N)
      → Quiet s
      → Quiet (fill_triggered high low os s)
  unfolding Quiet fill_triggered
  fill_triggered-Quiet high low [] s h = h
  fill_triggered-Quiet high low (o ∷ os) s h = fill_triggered-Quiet high low os _ (
      if-elim Quiet (limit_hit high low o) _ _ (λ e. fill_and_cancel-Quiet s o _ h)
        (λ e. append-NoMarket s.pending_orders _ refl h))

  pub fill_pending-Quiet :
      (s : Engine N) (opening high low price : N)
      → Quiet (fill_pending_market_orders s opening high low price)
  unfolding Quiet fill_pending_market_orders
  fill_pending-Quiet s opening high low price =
      fill_all-Quiet (market_orders s.pending_orders)
        (market_fill_price s.config opening high low price)
        (record s { pending_orders = other_orders s.pending_orders })
        (other_orders-NoMarket s.pending_orders)

  pub process_pending-Quiet :
      (s : Engine N) (high low : N) → Quiet s → Quiet (process_pending_orders s high low)
  unfolding Quiet process_pending_orders
  process_pending-Quiet s high low h =
      let keeps : Order N → Bool =
        λ o. not (fills_now high low o) && not (triggers_now high low o) in
      let here : Engine N = record s { pending_orders = select keeps s.pending_orders } in
      let hits = select (fills_now high low) s.pending_orders in
      fill_triggered-Quiet high low (select (triggers_now high low) s.pending_orders)
        (fill_hit hits here) (fill_hit-Quiet hits here (select-NoMarket keeps s.pending_orders h))
