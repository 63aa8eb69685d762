-- ===== src/Strategy/Engine/Closing.antt =====
-- Closing a position or a part of it: `closeOrReducePosition` of src/strategy/strategy-engine.ts.
use pine_framework.Prelude.{
  ℕ, ◌-◌, [], ◌∷◌, ◌++◌, Option, none, some, ◌&&◌, String, string_eq, ◌===◌, ltb, ◌==◌,
  if◌then◌else◌,
}
use pine_framework.Strategy.Numbers.{Arith, is_positive, at_least_nought}
use pine_framework.Strategy.Types.{Position, Trade, is_long}
use pine_framework.Strategy.Engine.{Engine, no_position, margin_rate, update_drawdown}
use pine_framework.Strategy.Engine.Groups.{cancel_group, take_lots}

module _ {ℓ} {N : Type ℓ} ⦃a : Arith N⦄ where
  abbrev pub gross_of : Position N → ℕ → N → N
  gross_of p quantity price =
      a.times (if is_long p.direction then a.minus price p.avg_price else a.minus p.avg_price price)
        quantity

  -- The net profit and the fees of a close.
  unfoldable pub settle : Engine N → ℕ → N → N → N × N
  settle s quantity price commission = elim s.config.commission_method [
    | some method ↦ method.settle s.position quantity price s.timestamp
    | none ↦ (a.minus (gross_of s.position quantity price) commission, commission)
  ]

  -- The excursion from the average price, in percent of it and not below 0.
  abbrev pub excursion : N → N → N → N
  excursion avg from to = at_least_nought (a.mul (a.div (a.minus to from) avg) (a.literal 100))

  abbrev pub pnl_percent_of : Engine N → N → N
  pnl_percent_of s gross =
      let p = s.position in
      let rate = margin_rate s.config (is_long p.direction) in
      let value = a.times p.avg_price p.quantity in
      let at_risk = if is_positive rate then a.mul value rate else value in
      if is_positive p.avg_price && is_positive at_risk
      then a.mul (a.div gross at_risk) (a.literal 100)
      else a.nought

  unfoldable pub trade_of : Engine N → ℕ → N → N × N → String → Trade N
  trade_of s quantity price (net, fees) exit_name =
      let p = s.position in
      let down = excursion p.avg_price s.trade_low_price p.avg_price in
      let up = excursion p.avg_price p.avg_price s.trade_high_price in
      record {
        direction = p.direction;
        entry_price = p.avg_price;
        exit_price = price;
        entry_time = p.entry_time;
        exit_time = s.timestamp;
        entry_bar_index = p.entry_bar_index;
        exit_bar_index = s.bar_index;
        quantity = quantity;
        pnl = net;
        pnl_percent = pnl_percent_of s (gross_of p quantity price);
        commission = fees;
        exit_name = exit_name;
        mae = if is_long p.direction then down else up;
        mfe = if is_long p.direction then up else down;
      }

  -- An emptied position frees its OCA group, if its entry has a name.
  unfoldable pub go_flat : Engine N → Engine N
  unfolding cancel_group
  go_flat s =
      let freed = cancel_group s s.position.entry_name in
      record (if s.position.entry_name === "" then s else freed) {
        entries = 0;
        position = no_position;
      }

  -- The position after `closed` of it is closed with the given fees of a method.
  abbrev pub reduced : Position N → ℕ → Option String → N → Position N
  reduced p closed from_entry commission = record p {
    quantity = p.quantity - closed;
    commission = commission;
    lots = take_lots from_entry closed p.lots;
  }

  abbrev pub closed_of : Position N → ℕ → ℕ
  closed_of p quantity = if ltb quantity p.quantity then quantity else p.quantity

  -- The trade, its net profit and the position that is left.
  unfoldable pub book_close : Engine N → ℕ → N → N → String → Option String → Engine N
  unfolding settle trade_of take_lots
  book_close s quantity price commission exit_name from_entry =
      let p = s.position in
      let closed = closed_of p quantity in
      let settled = settle s closed price commission in
      let charged : N = elim s.config.commission_method [
        | none ↦ p.commission
        | some m ↦ a.plus p.commission settled.1
      ] in
      record s {
        trades = s.trades ++ trade_of s closed price settled exit_name ∷ [];
        equity = a.plus s.equity settled.0;
        position = reduced p closed from_entry charged;
      }

  unfoldable pub drop_empty : Engine N → Engine N
  unfolding go_flat
  drop_empty s = if s.position.quantity == 0 then go_flat s else s

  unfoldable pub close_or_reduce : Engine N → ℕ → N → N → String → Option String → Engine N
  unfolding book_close drop_empty update_drawdown
  close_or_reduce s quantity price commission exit_name from_entry =
      update_drawdown (drop_empty (book_close s quantity price commission exit_name from_entry))
