-- ===== src/Strategy/Engine.antt =====
-- src/strategy/strategy-engine.ts, the class StrategyEngine: its state, its account and the changes that a
-- fill makes. `Groups`, `Closing`, `Fill`, `Orders`, `Exits` and `Bar` hold the operations that are built on them.
pub mod Groups
pub mod Closing
pub mod Fill
pub mod Orders
pub mod Exits
pub mod Bar
pub mod Balance
pub mod Lots
pub mod Steps
pub mod Quiet
pub mod Recorded
pub mod Filled
pub mod Pending
pub mod RoundTrip
pub mod Hits
pub mod Snapshot
pub mod Tests
use pine_framework.Prelude.{
  ℕ, ◌+◌, ◌-◌, ◌*◌, List, [], ◌∷◌, ◌++◌, Option, none, some, Bool, true, false, ◌&&◌, ◌||◌, not,
  String, string_eq, ◌===◌, ltb, leb, ◌==◌, if◌then◌else◌, length,
}
use pine_framework.Strategy.Numbers.{Arith, at_most, is_positive, percent_of}
use pine_framework.Strategy.Types.{
  Order, FilledOrder, PositionLot, Position, PositionDirection, flat, in_long, in_short, Trade,
  StrategyMarker, StrategyConfig, Account, BacktestWarning, fee_decision, is_flat, is_long, is_held,
  OrderDirection, long, short, QtyType, contracts, percent_of_equity, cash, MarkerType, MarkerName,
  CommissionMethod,
}
use pine_framework.Strategy.Trailing.{TrailingStops}

pub record Engine {ℓ} (N : Type ℓ) : Type ℓ where
  pub config : StrategyConfig N
  pub position : Position N
  pub pending_orders : List (Order N)
  pub filled_orders : List (FilledOrder N)
  pub trades : List (Trade N)
  pub markers : List (StrategyMarker N)
  pub equity : N
  pub peak_equity : N
  pub max_drawdown : N
  pub bar_index : ℕ
  pub timestamp : ℕ
  pub current_price : N
  pub entries : ℕ
  pub next_order_id : ℕ
  pub last_marker_count : ℕ
  pub trade_high_price : N
  pub trade_low_price : N
  pub trailing_stops : TrailingStops N
  pub warnings : List BacktestWarning

module _ {ℓ} {N : Type ℓ} ⦃a : Arith N⦄ where
  abbrev pub no_position : Position N
  no_position = record {
    direction = flat;
    quantity = 0;
    avg_price = a.nought;
    entry_time = 0;
    entry_bar_index = 0;
    entry_name = "";
    pnl = a.nought;
    pnl_percent = a.nought;
    commission = a.nought;
    unrealized_pnl = a.nought;
    lots = [];
  }

  -- The constructor warns if a method and the older commission are both configured.
  unfoldable pub create : StrategyConfig N → Engine N
  create config = record {
    config = config;
    position = no_position;
    pending_orders = [];
    filled_orders = [];
    trades = [];
    markers = [];
    equity = config.initial_capital;
    peak_equity = config.initial_capital;
    max_drawdown = a.nought;
    bar_index = 0;
    timestamp = 0;
    current_price = a.nought;
    entries = 0;
    next_order_id = 0;
    last_marker_count = 0;
    trade_high_price = a.nought;
    trade_low_price = a.nought;
    trailing_stops = [];
    warnings = elim config.commission_method [
      | none ↦ []
      | some method ↦ if a.equal config.commission a.nought then [] else fee_decision ∷ []
    ];
  }

  abbrev pub margin_rate : StrategyConfig N → Bool → N
  margin_rate config is_long = if is_long then config.margin_long else config.margin_short

  unfoldable pub get_account : Engine N → Account N
  get_account s =
      let p = s.position in
      let used =
        if is_flat p.direction
        then a.nought
        else a.mul (a.times s.current_price p.quantity)
            (margin_rate s.config (is_long p.direction)) in
      let total = a.plus s.equity p.unrealized_pnl in
      record {
        initial_capital = s.config.initial_capital;
        balance = s.equity;
        equity = total;
        margin_used = used;
        free_margin = a.minus total used;
      }

  -- Money divided by the current price, as a quantity.
  abbrev pub bought_with : Engine N → N → ℕ
  bought_with s money =
      if is_positive s.current_price then a.units (a.div money s.current_price) else 0

  unfoldable pub calculate_qty : Engine N → ℕ
  unfolding get_account
  calculate_qty s = elim s.config.default_qty_type [
    | percent_of_equity ↦ bought_with s (percent_of (get_account s).equity s.config.default_qty)
    | cash ↦ bought_with s s.config.default_qty
    | contracts ↦ a.units s.config.default_qty
  ]

  unfoldable pub can_open_position : Engine N → OrderDirection → ℕ → Bool
  unfolding get_account
  can_open_position s direction quantity =
      let rate = margin_rate s.config (elim direction [ long ↦ true | short ↦ false ]) in
      let affordable =
        at_most (a.mul (a.times s.current_price quantity) rate) (get_account s).free_margin in
      if is_flat s.position.direction
      then affordable
      else if is_held s.position.direction direction
      then (if leb (s.config.pyramiding + 1) s.entries then false else affordable)
      else false

  unfoldable pub get_equity : Engine N → N
  get_equity s =
      if is_flat s.position.direction then s.equity else a.plus s.equity s.position.unrealized_pnl

  -- A marker of an order, at the engine's bar and time.
  abbrev pub marker_of :
      Engine N → MarkerType → MarkerName → Order N → N → Option String → StrategyMarker N
  marker_of s kind name order price comment = record {
    kind = kind;
    order_id = order.id;
    name = name;
    direction = order.direction;
    action = order.action;
    quantity = order.quantity;
    price = price;
    bar_index = s.bar_index;
    timestamp = s.timestamp;
    comment = comment;
  }

  unfoldable pub update_drawdown : Engine N → Engine N
  update_drawdown s =
      let peak = if a.less s.peak_equity s.equity then s.equity else s.peak_equity in
      let drawdown = a.minus peak s.equity in
      record s {
        peak_equity = peak;
        max_drawdown = if a.less s.max_drawdown drawdown then drawdown else s.max_drawdown;
      }

  unfoldable pub reset : Engine N → Engine N
  reset s = record s {
    next_order_id = 0;
    position = no_position;
    pending_orders = [];
    filled_orders = [];
    trades = [];
    markers = [];
    last_marker_count = 0;
    trailing_stops = [];
    equity = s.config.initial_capital;
    peak_equity = s.config.initial_capital;
    max_drawdown = a.nought;
  }
