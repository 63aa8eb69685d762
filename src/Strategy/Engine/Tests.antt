-- ===== src/Strategy/Engine/Tests.antt =====
-- Runs of the strategy engine on small inputs, in whole units of money.
use pine_framework.Prelude.{
  ℕ, map, All, ◌++◌, ◌+◌, ◌-◌, ◌*◌, ◌/◌, ◌≡◌, refl, List, [], ◌∷◌, none, some, true, false, ltb,
  ◌==◌, arith,
}
use pine_framework.Strategy.Numbers.{Arith}
use pine_framework.Strategy.Types.{
  Order, FilledOrder, long, sell, limit, in_long, in_short, flat, StrategyConfig, contracts,
  per_contract, slip_percent, at_open, Trade, TrailingStopState,
}
use pine_framework.Strategy.Trailing.{
  update, check_activation, see_price, new_stop, ratchet, step_state,
}
use pine_framework.Strategy.Trailing.Ratchet.{follow, NotWorse, follow-NotWorse}
use pine_framework.Strategy.Engine.{Engine, create, can_open_position}
use pine_framework.Strategy.Engine.Fill.{fill_order}
use pine_framework.Strategy.Engine.Orders.{entry, quantity_or, get_new_markers}
use pine_framework.Strategy.Engine.Exits.{exit}
use pine_framework.Strategy.Engine.Bar.{fill_hit, update_bar}
use pine_framework.Strategy.Engine.Lots.{Holds, net_of, net_fill, fill_order-Holds}
use pine_framework.Strategy.Engine.Balance.{IsBalanced}
use pine_framework.Strategy.Engine.Steps.{Call, enters, exits, bar, step, run, run-IsBalanced}
use pine_framework.Strategy.Engine.Pending.{IsSettled, update_bar_lem}
use pine_framework.Strategy.Engine.Filled.{order_of, waiting, IsAt}
use pine_framework.Strategy.Engine.RoundTrip.{IsClosing, fill_order-fees}
use pine_framework.Strategy.Engine.Hits.{net_fills, fill_hit-Holds}
use pine_framework.Strategy.Engine.Snapshot.{replayed, get_new_markers-replayed}

-- Whole units; a difference stops at 0.
instance abbrev units_arith : Arith ℕ
units_arith = record {
  nought = 0;
  plus = λ x y. x + y;
  minus = λ x y. x - y;
  mul = λ x y. x * y;
  div = λ x y. x / y;
  times = λ x q. x * q;
  over = λ x q. x / q;
  units = λ x. x;
  literal = λ n. n;
  less = ltb;
  equal = λ x y. x == y;
}

-- A contract costs 2 a fill.
abbrev config : StrategyConfig ℕ
config = record {
  initial_capital = 1000;
  commission = 2;
  slippage = 0;
  commission_type = per_contract;
  slippage_type = slip_percent;
  default_qty = 1;
  default_qty_type = contracts;
  pyramiding = 1;
  margin_long = 1;
  margin_short = 1;
  market_fill_price = at_open;
  commission_method = none;
}

-- Three contracts bought at 100, and an exit at 110 that waits.
abbrev calls : List (Call ℕ)
calls =
    bar 0 0 100 101 99 100
    ∷ enters "long" long (some 3) 0 none none none
    ∷ bar 1 60 100 104 99 102
    ∷ exits "target" none 0 none (some 110) none none none none
    ∷ []

abbrev holding : Engine ℕ
holding = run calls (create config)

abbrev sell_order : ℕ → ℕ → Order ℕ
sell_order id quantity = record {
  id = id;
  direction = long;
  action = sell;
  kind = limit;
  quantity = quantity;
  price = 110;
  stop_price = none;
  limit_price = some 110;
  entry_name = "target";
  timestamp = 60;
  bar_index = 1;
  oca_group = some "long";
  trail_price = none;
  trail_offset = none;
  from_entry = none;
}

holding_net : net_of holding ≡ (in_long, 3)
unfolding run step create entry exit can_open_position quantity_or fill_order update update_bar
holding_net = refl

-- The bar reaches the target: the position is closed, and its order is gone.
closed_net : net_of (update_bar holding 2 120 105 111 104 110) ≡ (flat, 0)
unfolding run step create entry exit can_open_position quantity_or fill_order update update_bar
closed_net = refl

-- Two sell orders of one OCA group in one bar turn the position of 3 into a short one.
hit_twice : net_fills (in_long, 3) (sell_order 7 3 ∷ sell_order 8 2 ∷ []) ≡ (in_short, 2)
hit_twice = refl

fill_order-Holds_example :
    Holds (net_fill (net_of holding) sell 2) (fill_order holding (sell_order 9 2) 110)
fill_order-Holds_example =
    fill_order-Holds holding (sell_order 9 2) 110 (run-IsBalanced config calls)

run-IsBalanced_example : IsBalanced (run calls (create config)).position
run-IsBalanced_example = run-IsBalanced config calls

-- A market order to buy one more waits.
abbrev adding : Engine ℕ
adding = (entry holding "more" long (some 1) 0 none none none).0

update_bar_example :
    ((fs : List (FilledOrder ℕ)) × ((rest : List (FilledOrder ℕ)) × (((update_bar adding 2 120 105
              111 104 110).filled_orders
            ≡ (adding.filled_orders ++ fs) ++ rest)
          × (map order_of fs ≡ waiting adding.pending_orders)
          × All (IsAt 2 120) fs)))
    × IsSettled (update_bar adding 2 120 105 111 104 110)
update_bar_example = update_bar_lem adding 2 120 105 111 104 110

fill_order-fees_example :
    ((fill_order holding (sell_order 9 2) 110).equity ≡ holding.equity + (20 - 4) - 4)
    × ((t : Trade ℕ) × (((fill_order holding (sell_order 9 2) 110).trades
            ≡ holding.trades ++ t ∷ [])
          × IsClosing holding 2 110 16 4 "target" t))
unfolding run step create entry exit can_open_position quantity_or fill_order update update_bar
fill_order-fees_example = fill_order-fees holding (sell_order 9 2) 110 refl refl

fill_hit-Holds_example :
    Holds
      (net_fills (net_of holding) (sell_order 7 3 ∷ sell_order 8 2 ∷ []))
      (fill_hit (sell_order 7 3 ∷ sell_order 8 2 ∷ []) holding)
fill_hit-Holds_example =
    fill_hit-Holds (sell_order 7 3 ∷ sell_order 8 2 ∷ []) holding (run-IsBalanced config calls)

get_new_markers-replayed_example :
    (get_new_markers (replayed holding "add" long 1 0 none none)).1 ≡ []
get_new_markers-replayed_example = get_new_markers-replayed holding "add" long 1 0 none none

abbrev trail : TrailingStopState ℕ
trail = record {
  order_id = 9;
  trail_offset = none;
  trail_price = some 5;
  highest_price = 100;
  stop_price = 100;
  is_activated = false;
}

ltb_trans : (x y z : ℕ) → ltb x y ≡ true → ltb y z ≡ true → ltb x z ≡ true
ltb_trans x y z h k = ground (arith, h, k)

-- The stop follows the close up by a distance of 5, and stays when the price falls.
trail_run :
    (follow trail
      (sell_order 9 2)
      true
      100
      ((111, (104, 110)) ∷ (109, (100, 101)) ∷ [])).0.stop_price
    ≡ 105
unfolding step_state check_activation see_price new_stop ratchet
trail_run = refl

follow-NotWorse_example :
    NotWorse true 100
      (follow trail
        (sell_order 9 2)
        true
        100
        ((111, (104, 110)) ∷ (109, (100, 101)) ∷ [])).0.stop_price
follow-NotWorse_example =
    follow-NotWorse ltb_trans ((111, (104, 110)) ∷ (109, (100, 101)) ∷ []) trail (sell_order 9 2)
      true 100
