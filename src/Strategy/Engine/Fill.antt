-- ===== src/Strategy/Engine/Fill.antt =====
-- Filling an order: `fillOrder` and `openOrAddPosition` of src/strategy/strategy-engine.ts.
use pine_framework.Prelude.{
  ℕ, ◌+◌, [], ◌∷◌, ◌++◌, none, some, Bool, ◌||◌, String, string_eq, if◌then◌else◌,
}
use pine_framework.Strategy.Numbers.{Arith, percent_of}
use pine_framework.Strategy.Types.{
  Order, FilledOrder, PositionLot, StrategyConfig, percent, fixed, per_contract, per_order,
  slip_percent, ticks, points, OrderDirection, long, short, held, is_flat, is_long, is_short,
  is_buy,
}
use pine_framework.Strategy.Engine.{Engine}
use pine_framework.Strategy.Engine.Closing.{close_or_reduce}

module _ {ℓ} {N : Type ℓ} ⦃a : Arith N⦄ where
  unfoldable pub calculate_slippage : StrategyConfig N → N → N
  calculate_slippage config price =
      if a.equal config.slippage a.nought then a.nought else elim config.slippage_type [
        | slip_percent ↦ percent_of price config.slippage
        | ticks ↦ config.slippage
        | points ↦ config.slippage
      ]

  unfoldable pub calculate_commission : StrategyConfig N → ℕ → N → N
  calculate_commission config quantity price =
      if a.equal config.commission a.nought then a.nought else elim config.commission_type [
        | percent ↦ percent_of (a.times price quantity) config.commission
        | fixed ↦ config.commission
        | per_order ↦ config.commission
        | per_contract ↦ a.times config.commission quantity
      ]

  -- The commission of a fill: none under a commission method; a fixed one only when flat.
  unfoldable pub fill_commission : StrategyConfig N → Bool → ℕ → N → N
  unfolding calculate_commission
  fill_commission config was_flat quantity price = elim config.commission_method [
    | some method ↦ a.nought
    | none ↦
        let full = calculate_commission config quantity price in
        let once = if was_flat then full else a.nought in
        elim config.commission_type [
          | percent ↦ full
          | fixed ↦ once
          | per_order ↦ once
          | per_contract ↦ full
        ]
  ]

  abbrev pub lot_of : Engine N → String → ℕ → N → PositionLot N
  lot_of s entry_name quantity price = record {
    entry_name = entry_name;
    quantity = quantity;
    avg_price = price;
    timestamp = s.timestamp;
    bar_index = s.bar_index;
  }

  unfoldable pub open_position : Engine N → OrderDirection → ℕ → N → N → String → Engine N
  open_position s direction quantity price commission entry_name = record s {
    position = record {
      direction = held direction;
      quantity = quantity;
      avg_price = price;
      entry_time = s.timestamp;
      entry_bar_index = s.bar_index;
      entry_name = entry_name;
      pnl = a.nought;
      pnl_percent = a.nought;
      commission = commission;
      unrealized_pnl = a.nought;
      lots = lot_of s entry_name quantity price ∷ [];
    };
    trade_high_price = price;
    trade_low_price = price;
    trailing_stops = [];
  }

  unfoldable pub add_position : Engine N → ℕ → N → N → String → Engine N
  add_position s quantity price commission entry_name =
      let p = s.position in
      let total = p.quantity + quantity in
      record s {
        position = record p {
          avg_price =
              a.over (a.plus (a.times p.avg_price p.quantity) (a.times price quantity)) total;
          quantity = total;
          commission = a.plus p.commission commission;
          lots = p.lots ++ lot_of s entry_name quantity price ∷ [];
        };
      }

  unfoldable pub open_or_add : Engine N → OrderDirection → ℕ → N → N → String → Engine N
  unfolding open_position add_position
  open_or_add s direction quantity price commission entry_name =
      if is_flat s.position.direction
      then open_position s direction quantity price commission entry_name
      else add_position s quantity price commission entry_name

  -- The order's effect on the position: a buy opens or adds when flat or long, and else closes.
  unfoldable pub apply_fill : Engine N → Order N → N → N → Engine N
  unfolding open_or_add close_or_reduce
  apply_fill s order price commission =
      let closing =
        close_or_reduce s order.quantity price commission order.entry_name order.from_entry in
      let d = s.position.direction in
      if is_buy order.action
      then (if is_flat d || is_long d
          then open_or_add s long order.quantity price commission order.entry_name
          else closing)
      else (if is_flat d || is_short d
          then open_or_add s short order.quantity price commission order.entry_name
          else closing)

  -- `this.equity -= commission; this.position.commission += commission`.
  unfoldable pub charge : Engine N → N → Engine N
  charge s commission = record s {
    equity = a.minus s.equity commission;
    position = record s.position { commission = a.plus s.position.commission commission };
  }

  unfoldable pub fill_order : Engine N → Order N → N → Engine N
  unfolding calculate_slippage fill_commission apply_fill charge
  fill_order s order fill_price =
      let slippage = calculate_slippage s.config fill_price in
      let price =
        if is_buy order.action then a.plus fill_price slippage else a.minus fill_price slippage in
      let commission =
        fill_commission s.config (is_flat s.position.direction) order.quantity fill_price in
      let filled : FilledOrder N = record {
        order = order;
        fill_price = price;
        fill_time = s.timestamp;
        fill_bar_index = s.bar_index;
      } in
      charge
        (apply_fill (record s { filled_orders = s.filled_orders ++ filled ∷ [] }) order price
          commission)
        commission
