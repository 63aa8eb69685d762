-- ===== src/Strategy/Types.antt =====
-- src/strategy/strategy-types.ts. An order's id is its number; an OCA group is the entry name after the
-- prefix; absent optional fields are none. Left out are the symbol, which is empty, the slippage and
-- commission that an order copies from the configuration and nothing reads, and of a trade its number and
-- the bars it was held, which follow from the rest. A quantity is a whole number of units and not
-- negative: the source takes any number, and its default sizes may be fractions, which are cut off here.
use pine_framework.Prelude.{ℕ, List, Option, Bool, true, false, String}

pub data OrderDirection : Type 0 where
  long short : OrderDirection

pub data PositionDirection : Type 0 where
  in_long in_short flat : PositionDirection

pub data OrderAction : Type 0 where
  buy sell : OrderAction

pub data OrderType : Type 0 where
  market limit stop stop_limit : OrderType

pub data QtyType : Type 0 where
  contracts percent_of_equity cash : QtyType

pub data CommissionType : Type 0 where
  percent fixed per_contract per_order : CommissionType

pub data SlippageType : Type 0 where
  slip_percent ticks points : SlippageType

pub data MarketFillPrice : Type 0 where
  at_open at_ohlc4 at_close at_high at_low : MarketFillPrice

pub record Order {ℓ} (N : Type ℓ) : Type ℓ where
  pub id : ℕ
  pub direction : OrderDirection
  pub action : OrderAction
  pub kind : OrderType
  pub quantity : ℕ
  pub price : N
  pub stop_price : Option N
  pub limit_price : Option N
  pub entry_name : String
  pub timestamp : ℕ
  pub bar_index : ℕ
  pub oca_group : Option String
  pub trail_price : Option N
  pub trail_offset : Option N
  pub from_entry : Option String

pub record FilledOrder {ℓ} (N : Type ℓ) : Type ℓ where
  pub order : Order N
  pub fill_price : N
  pub fill_time : ℕ
  pub fill_bar_index : ℕ

pub record PositionLot {ℓ} (N : Type ℓ) : Type ℓ where
  pub entry_name : String
  pub quantity : ℕ
  pub avg_price : N
  pub timestamp : ℕ
  pub bar_index : ℕ

pub record Position {ℓ} (N : Type ℓ) : Type ℓ where
  pub direction : PositionDirection
  pub quantity : ℕ
  pub avg_price : N
  pub entry_time : ℕ
  pub entry_bar_index : ℕ
  pub entry_name : String
  pub pnl : N
  pub pnl_percent : N
  pub commission : N
  pub unrealized_pnl : N
  pub lots : List (PositionLot N)

pub record Trade {ℓ} (N : Type ℓ) : Type ℓ where
  pub direction : PositionDirection
  pub entry_price : N
  pub exit_price : N
  pub entry_time : ℕ
  pub exit_time : ℕ
  pub entry_bar_index : ℕ
  pub exit_bar_index : ℕ
  pub quantity : ℕ
  pub pnl : N
  pub pnl_percent : N
  pub commission : N
  pub exit_name : String
  pub mae : N
  pub mfe : N

pub data MarkerType : Type 0 where
  entered exited ordered closed cancelled cancelled_all : MarkerType

-- The marker's name is the name of an order, or `Exit` and the name; its colour follows from its type and
-- direction and is left out.
pub data MarkerName : Type 0 where
  plain exit_of : String → MarkerName

pub record StrategyMarker {ℓ} (N : Type ℓ) : Type ℓ where
  pub kind : MarkerType
  pub order_id : ℕ
  pub name : MarkerName
  pub direction : OrderDirection
  pub action : OrderAction
  pub quantity : ℕ
  pub price : N
  pub bar_index : ℕ
  pub timestamp : ℕ
  pub comment : Option String

pub record TrailingStopState {ℓ} (N : Type ℓ) : Type ℓ where
  pub order_id : ℕ
  pub trail_offset : Option N
  pub trail_price : Option N
  pub highest_price : N
  pub stop_price : N
  pub is_activated : Bool

-- A pluggable commission method: whether it is long-only, and the net profit and the fees of closing a
-- quantity of a position at a price and a time, which src/pnl computes.
pub record CommissionMethod {ℓ} (N : Type ℓ) : Type ℓ where
  pub enforce_long_only : Bool
  pub settle : Position N → ℕ → N → ℕ → N × N

pub record StrategyConfig {ℓ} (N : Type ℓ) : Type ℓ where
  pub initial_capital : N
  pub commission : N
  pub slippage : N
  pub commission_type : CommissionType
  pub slippage_type : SlippageType
  pub default_qty : N
  pub default_qty_type : QtyType
  pub pyramiding : ℕ
  pub margin_long : N
  pub margin_short : N
  pub market_fill_price : MarketFillPrice
  pub commission_method : Option (CommissionMethod N)

pub record Account {ℓ} (N : Type ℓ) : Type ℓ where
  pub initial_capital : N
  pub balance : N
  pub equity : N
  pub margin_used : N
  pub free_margin : N

pub data BacktestWarning : Type 0 where
  fee_decision : BacktestWarning
  long_only_suppression : String → BacktestWarning

-- What `open or add` of a side makes of the position's direction.
abbrev pub held : OrderDirection → PositionDirection
held long = in_long
held short = in_short

abbrev pub is_flat : PositionDirection → Bool
is_flat flat = true
is_flat _ = false

abbrev pub is_long : PositionDirection → Bool
is_long in_long = true
is_long _ = false

abbrev pub is_short : PositionDirection → Bool
is_short in_short = true
is_short _ = false

-- `position.direction === direction`.
abbrev pub is_held : PositionDirection → OrderDirection → Bool
is_held in_long long = true
is_held in_short short = true
is_held _ _ = false

abbrev pub action_of : OrderDirection → OrderAction
action_of long = buy
action_of short = sell

abbrev pub is_buy : OrderAction → Bool
is_buy buy = true
is_buy sell = false

abbrev pub opposite : OrderAction → OrderAction
opposite buy = sell
opposite sell = buy

abbrev pub is_market : OrderType → Bool
is_market market = true
is_market _ = false

abbrev pub is_short_order : OrderDirection → Bool
is_short_order long = false
is_short_order short = true
