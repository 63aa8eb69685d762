-- ===== src/Strategy/Engine/Bar.antt =====
-- A bar: `updateBar`, with the fills of pending orders, the trailing stops, the floating profit and the
-- liquidation. The volume is not read.
use pine_framework.Prelude.{
  ℕ, ◌+◌, List, [], ◌∷◌, ◌++◌, Option, none, some, Bool, false, ◌&&◌, ◌||◌, not, ltb, ◌==◌,
  if◌then◌else◌,
}
use pine_framework.Strategy.Numbers.{Arith, at_least, at_most, is_positive}
use pine_framework.Strategy.Types.{
  Order, market, limit, stop, stop_limit, StrategyConfig, at_open, at_ohlc4, at_close, at_high,
  at_low, is_flat, is_long, is_buy, is_market,
}
use pine_framework.Strategy.Trailing
use pine_framework.Strategy.Engine.{Engine, margin_rate}
use pine_framework.Strategy.Engine.Fill.{fill_order}
use pine_framework.Strategy.Engine.Groups.{cancel_group}
use pine_framework.Strategy.Engine.Orders.{close}

module _ {ℓ} {N : Type ℓ} ⦃a : Arith N⦄ where
  unfoldable pub market_fill_price : StrategyConfig N → N → N → N → N → N
  market_fill_price config opening high low close = elim config.market_fill_price [
    | at_open ↦ opening
    | at_ohlc4 ↦ a.div (a.plus (a.plus (a.plus opening high) low) close) (a.literal 4)
    | at_close ↦ close
    | at_high ↦ high
    | at_low ↦ low
  ]

  unfoldable pub market_orders : List (Order N) → List (Order N)
  market_orders [] = []
  market_orders (o ∷ os) =
      let rest = market_orders os in if is_market o.kind then o ∷ rest else rest

  unfoldable pub other_orders : List (Order N) → List (Order N)
  other_orders [] = []
  other_orders (o ∷ os) = let rest = other_orders os in if is_market o.kind then rest else o ∷ rest

  unfoldable pub fill_all : List (Order N) → N → Engine N → Engine N
  fill_all [] price s = s
  fill_all (o ∷ os) price s = fill_all os price (fill_order s o price)

  unfoldable pub fill_pending_market_orders : Engine N → N → N → N → N → Engine N
  unfolding market_orders other_orders fill_all market_fill_price
  fill_pending_market_orders s opening high low close =
      fill_all (market_orders s.pending_orders) (market_fill_price s.config opening high low close)
        (record s { pending_orders = other_orders s.pending_orders })

  abbrev pub or_price : Option N → Order N → N
  or_price none o = o.price
  or_price (some x) o = x

  -- Whether the bar's range reaches the order's limit, or its stop.
  abbrev pub limit_hit : N → N → Order N → Bool
  limit_hit high low o =
      let p = or_price o.limit_price o in if is_buy o.action then at_most low p else at_least high p

  abbrev pub stop_hit : N → N → Order N → Bool
  stop_hit high low o =
      let p = or_price o.stop_price o in if is_buy o.action then at_least high p else at_most low p

  -- The classes of pending orders that the filter makes.
  unfoldable pub fills_now : N → N → Order N → Bool
  fills_now high low o = elim o.kind [
    | market ↦ false
    | limit ↦ limit_hit high low o
    | stop ↦ stop_hit high low o
    | stop_limit ↦ false
  ]

  unfoldable pub triggers_now : N → N → Order N → Bool
  triggers_now high low o = elim o.kind [
    | market ↦ false
    | limit ↦ false
    | stop ↦ false
    | stop_limit ↦ stop_hit high low o
  ]

  unfoldable pub select : (Order N → Bool) → List (Order N) → List (Order N)
  select test [] = []
  select test (o ∷ os) = let rest = select test os in if test o then o ∷ rest else rest

  -- A fill cancels the other orders of its OCA group.
  unfoldable pub fill_and_cancel : Engine N → Order N → N → Engine N
  fill_and_cancel s o price =
      let filled = fill_order s o price in
      elim o.oca_group [ none ↦ filled | some group ↦ cancel_group filled group ]

  -- The limit of a limit order, and the stop of the others.
  abbrev pub hit_price : Order N → N
  hit_price o = elim o.kind [
    | market ↦ or_price o.stop_price o
    | limit ↦ or_price o.limit_price o
    | stop ↦ or_price o.stop_price o
    | stop_limit ↦ or_price o.stop_price o
  ]

  unfoldable pub fill_hit : List (Order N) → Engine N → Engine N
  unfolding fill_and_cancel
  fill_hit [] s = s
  fill_hit (o ∷ os) s = fill_hit os (fill_and_cancel s o (hit_price o))

  -- A triggered stop-limit order fills at its limit, or waits as a limit order of a new id.
  unfoldable pub fill_triggered : N → N → List (Order N) → Engine N → Engine N
  unfolding fill_and_cancel
  fill_triggered high low [] s = s
  fill_triggered high low (o ∷ os) s =
      let price = or_price o.limit_price o in
      let limit_order : Order N = record o {
        id = s.next_order_id + 1;
        kind = limit;
        price = price;
        limit_price = some price;
        stop_price = none;
      } in
      let waiting : Engine N = record s {
        next_order_id = s.next_order_id + 1;
        pending_orders = s.pending_orders ++ limit_order ∷ [];
      } in
      fill_triggered high low os
        (if limit_hit high low o then fill_and_cancel s o price else waiting)

  unfoldable pub process_pending_orders : Engine N → N → N → Engine N
  unfolding fill_hit fill_triggered select fills_now triggers_now
  process_pending_orders s high low =
      let orders = s.pending_orders in
      let kept = select (λ o. not (fills_now high low o) && not (triggers_now high low o)) orders in
      fill_triggered high low (select (triggers_now high low) orders)
        (fill_hit (select (fills_now high low) orders) (record s { pending_orders = kept }))

  unfoldable pub update_trailing : Engine N → N → N → N → Engine N
  update_trailing s high low close =
      let (stops, orders) =
        Trailing.update s.trailing_stops s.pending_orders (is_long s.position.direction)
          s.position.avg_price high low close in
      record s { trailing_stops = stops; pending_orders = orders }

  unfoldable pub update_position_pnl : Engine N → N → Engine N
  update_position_pnl s price =
      let p = s.position in
      let up = is_long p.direction in
      let change = if up then a.minus price p.avg_price else a.minus p.avg_price price in
      let floating = a.times change p.quantity in
      let ratio = a.mul (a.div (a.minus price p.avg_price) p.avg_price) (a.literal 100) in
      let signed = if up then ratio else a.minus a.nought ratio in
      let total = a.plus s.equity floating in
      let peak = if a.less s.peak_equity total then total else s.peak_equity in
      let drawdown = a.minus peak total in
      if is_flat p.direction then s else record s {
        position = record p {
          unrealized_pnl = floating;
          pnl = floating;
          pnl_percent = if is_positive p.avg_price then signed else a.nought;
        };
        peak_equity = peak;
        max_drawdown = if a.less s.max_drawdown drawdown then drawdown else s.max_drawdown;
      }

  -- The best and worst price of the opening position.
  unfoldable pub track_excursion : Engine N → N → N → Engine N
  track_excursion s high low =
      if not (is_flat s.position.direction) && ltb 0 s.position.quantity
      then record s {
        trade_high_price = if a.less s.trade_high_price high then high else s.trade_high_price;
        trade_low_price =
            if is_positive low && a.less low s.trade_low_price then low else s.trade_low_price;
      }
      else s

  unfoldable pub check_liquidation : Engine N → Engine N
  check_liquidation s =
      let p = s.position in
      let rate = margin_rate s.config (is_long p.direction) in
      let maintenance = a.mul (a.times s.current_price p.quantity) rate in
      let liquidated = (close s "liquidation" (some "Margin liquidation")).0 in
      if is_flat p.direction || p.quantity == 0
      then s
      else if is_positive rate && a.less (a.plus s.equity p.unrealized_pnl) maintenance
      then liquidated
      else s

  unfoldable pub update_bar : Engine N → ℕ → ℕ → N → N → N → N → Engine N
  unfolding fill_pending_market_orders update_trailing process_pending_orders update_position_pnl
      track_excursion check_liquidation
  update_bar s bar_index timestamp opening high low close =
      let here : Engine N = record s {
        bar_index = bar_index;
        timestamp = timestamp;
        current_price = close;
      } in
      let filled = fill_pending_market_orders here opening high low close in
      let trailed = update_trailing filled high low close in
      let processed = process_pending_orders trailed high low in
      let floated = update_position_pnl processed close in
      check_liquidation (track_excursion floated high low)
