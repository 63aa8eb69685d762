-- ===== src/Strategy/Engine/RoundTrip.antt =====
-- The fees of a fill that closes, when the older commission is configured.
use pine_framework.Prelude.{
  ℕ, ◌≡◌, refl, ap, ◌∙◌, List, [], ◌∷◌, ◌++◌, Option, none, Bool, true, false, String, string_eq,
  ◌===◌, ◌==◌, leb, subst, if◌then◌else◌, if-elim, arith,
}
use pine_framework.Strategy.Numbers.{Arith}
use pine_framework.Strategy.Types.{
  Order, OrderAction, buy, sell, FilledOrder, StrategyConfig, percent, fixed, per_contract,
  per_order, Position, PositionDirection, in_long, in_short, flat, Trade, is_flat, is_buy,
}
use pine_framework.Strategy.Engine.{Engine, update_drawdown}
use pine_framework.Strategy.Engine.Fill.{
  calculate_slippage, calculate_commission, fill_commission, apply_fill, charge, fill_order,
}
use pine_framework.Strategy.Engine.Closing.{
  gross_of, settle, trade_of, go_flat, closed_of, book_close, drop_empty, close_or_reduce,
}
use pine_framework.Strategy.Engine.Groups.{cancel_group}

-- An order against the side of the position.
abbrev pub opposes : OrderAction → PositionDirection → Bool
opposes sell in_long = true
opposes buy in_short = true
opposes buy in_long = false
opposes buy flat = false
opposes sell in_short = false
opposes sell flat = false

abbrev pub smaller : ℕ → ℕ → ℕ
smaller m n = if leb m n then m else n

module _ {N : Type 0} ⦃a : Arith N⦄ where
  settle_plain :
      (s : Engine N) (q : ℕ) (price fee : N)
      → s.config.commission_method ≡ none
      → settle s q price fee ≡ (a.minus (gross_of s.position q price) fee, fee)
  unfolding settle
  settle_plain s q price fee h = ground (arith, h)

  -- The money and the trades, which the rest of a fill leaves alone.
  abbrev pub books : Engine N → N × List (Trade N)
  books s = (s.equity, s.trades)

  books-go_flat : (s : Engine N) → books (go_flat s) ≡ books s
  unfolding go_flat cancel_group
  books-go_flat s =
      if-elim (λ (r : Engine N). books r ≡ books s) (s.position.entry_name === "") s
        (cancel_group s s.position.entry_name) (λ e. refl) (λ e. refl)

  books-drop_empty : (s : Engine N) → books (drop_empty s) ≡ books s
  unfolding drop_empty
  books-drop_empty s =
      if-elim (λ (r : Engine N). books r ≡ books s) (s.position.quantity == 0) (go_flat s) s
        (λ e. books-go_flat s) (λ e. refl)

  books-close_or_reduce :
      (s : Engine N) (q : ℕ) (price fee : N) (name : String) (from : Option String)
      → s.config.commission_method ≡ none
      → let closed = closed_of s.position q in
        let net = a.minus (gross_of s.position closed price) fee in
        books (close_or_reduce s q price fee name from)
        ≡ (a.plus s.equity net, s.trades ++ trade_of s closed price (net, fee) name ∷ [])
  unfolding close_or_reduce update_drawdown book_close
  books-close_or_reduce s q price fee name from h =
      books-drop_empty (book_close s q price fee name from)
      ∙ ap
          (λ (settled : N × N). (
            a.plus s.equity settled.0,
            s.trades ++ trade_of s (closed_of s.position q) price settled name ∷ [],
          ))
          (settle_plain s (closed_of s.position q) price fee h)

  apply_fill_closes :
      (s : Engine N) (o : Order N) (price fee : N)
      → opposes o.action s.position.direction ≡ true
      → apply_fill s o price fee ≡ close_or_reduce s o.quantity price fee o.entry_name o.from_entry
  unfolding apply_fill
  apply_fill_closes s o price fee h = ground (arith, h)

  books-charge :
      (s : Engine N) (fee : N) → books (charge s fee) ≡ (a.minus (books s).0 fee, (books s).1)
  unfolding charge
  books-charge s fee = refl

  -- The price of a fill after the slippage.
  abbrev pub fill_price_of : Engine N → Order N → N → N
  fill_price_of s o price =
      let slippage = calculate_slippage s.config price in
      if is_buy o.action then a.plus price slippage else a.minus price slippage

  fill_order-books :
      (s : Engine N) (o : Order N) (price : N)
      → s.config.commission_method ≡ none
      → opposes o.action s.position.direction ≡ true
      → let at = fill_price_of s o price in
        let fee = fill_commission s.config (is_flat s.position.direction) o.quantity price in
        let closed = closed_of s.position o.quantity in
        let net = a.minus (gross_of s.position closed at) fee in
        books (fill_order s o price) ≡ (
          a.minus (a.plus s.equity net) fee,
          s.trades ++ trade_of s closed at (net, fee) o.entry_name ∷ [],
        )
  unfolding fill_order trade_of
  fill_order-books s o price h against =
      let fee = fill_commission s.config (is_flat s.position.direction) o.quantity price in
      let at = fill_price_of s o price in
      let filled : FilledOrder N = record {
        order = o;
        fill_price = at;
        fill_time = s.timestamp;
        fill_bar_index = s.bar_index;
      } in
      let here : Engine N = record s { filled_orders = s.filled_orders ++ filled ∷ [] } in
      books-charge (apply_fill here o at fee) fee
      ∙ ap (λ (b : N × List (Trade N)). (a.minus b.0 fee, b.1))
          (ap books (apply_fill_closes here o at fee against)
            ∙ books-close_or_reduce here o.quantity at fee o.entry_name o.from_entry h)

  -- What a quantity bought or sold at one price makes when it is given back at another.
  abbrev pub gain : PositionDirection → ℕ → N → N → N
  gain in_long quantity from to = a.times (a.minus to from) quantity
  gain in_short quantity from to = a.times (a.minus from to) quantity
  gain flat quantity from to = a.nought

  gain-gross_of :
      (s : Engine N) (o : Order N) (quantity : ℕ) (at : N)
      → opposes o.action s.position.direction ≡ true
      → gross_of s.position quantity at ≡ gain s.position.direction quantity s.position.avg_price at
  gain-gross_of s o quantity at against = ground (arith, against)

  smaller-closed_of : (p : Position N) (q : ℕ) → closed_of p q ≡ smaller q p.quantity
  smaller-closed_of p q = ground arith

  -- A closed trade: of the position's side, its entry, the given quantity, price and time, and the given
  -- net profit and fee.
  abbrev pub IsClosing : Engine N → ℕ → N → N → N → String → Trade N → Type 0
  IsClosing s quantity at net fee name t =
      (t.direction ≡ s.position.direction)
      × (t.quantity ≡ quantity)
      × (t.entry_price ≡ s.position.avg_price)
      × (t.exit_price ≡ at)
      × (t.entry_time ≡ s.position.entry_time)
      × (t.exit_time ≡ s.timestamp)
      × (t.pnl ≡ net)
      × (t.commission ≡ fee)
      × (t.exit_name ≡ name)

  trade_of-IsClosing :
      (s : Engine N) (quantity : ℕ) (at net fee : N) (name : String)
      → IsClosing s quantity at net fee name (trade_of s quantity at (net, fee) name)
  unfolding trade_of
  trade_of-IsClosing s quantity at net fee name =
      (refl, refl, refl, refl, refl, refl, refl, refl, refl)

  -- A fill leaves the equity with the net profit of what it closes and the fee taken off again, and adds one
  -- trade that records them.
  abbrev pub IsBooked : Engine N → Order N → N → N → N → Type 0
  IsBooked s o price at fee =
      let p = s.position in
      let closed = smaller o.quantity p.quantity in
      let net = a.minus (gain p.direction closed p.avg_price at) fee in
      ((fill_order s o price).equity ≡ a.minus (a.plus s.equity net) fee)
      × ((t : Trade N) × (((fill_order s o price).trades ≡ s.trades ++ t ∷ [])
            × IsClosing s closed at net fee o.entry_name t))

  fill_order-IsBooked :
      (s : Engine N) (o : Order N) (price : N)
      → s.config.commission_method ≡ none
      → opposes o.action s.position.direction ≡ true
      → IsBooked s o price
          (fill_price_of s o price)
          (fill_commission s.config (is_flat s.position.direction) o.quantity price)
  fill_order-IsBooked s o price h against =
      let at = fill_price_of s o price in
      let fee = fill_commission s.config (is_flat s.position.direction) o.quantity price in
      let closed = closed_of s.position o.quantity in
      let net = a.minus (gross_of s.position closed at) fee in
      let after =
        a.minus
          (gain s.position.direction (smaller o.quantity s.position.quantity) s.position.avg_price
            at)
          fee in
      let same_quantity = smaller-closed_of s.position o.quantity in
      let same_net =
        ap (λ g. a.minus g fee)
          (gain-gross_of s o closed at against
            ∙ ap (λ q. gain s.position.direction q s.position.avg_price at) same_quantity) in
      let booked = fill_order-books s o price h against in
      let t = trade_of s closed at (net, fee) o.entry_name in
      (
        ap (λ b. b.0) booked ∙ ap (λ n. a.minus (a.plus s.equity n) fee) same_net,
        (
          t,
          (
            ap (λ b. b.1) booked,
            subst (λ q. IsClosing s q at after fee o.entry_name t) same_quantity
                (subst (λ n. IsClosing s closed at n fee o.entry_name t) same_net
                  (trade_of-IsClosing s closed at net fee o.entry_name)),
          ),
        ),
      )

  -- The fee of an order that closes: a percentage of its value or an amount for each unit of it; the amounts
  -- for an order are charged for openings alone.
  abbrev pub closing_fee : StrategyConfig N → ℕ → N → N
  closing_fee config quantity price = elim config.commission_type [
    | percent ↦
        if a.equal config.commission a.nought
        then a.nought
        else a.mul (a.times price quantity) (a.div config.commission (a.literal 100))
    | per_contract ↦
        if a.equal config.commission a.nought then a.nought else a.times config.commission quantity
    | fixed ↦ a.nought
    | per_order ↦ a.nought
  ]

  fill_commission-closing_fee :
      (config : StrategyConfig N) (action : OrderAction) (d : PositionDirection) (q : ℕ) (price : N)
      → config.commission_method ≡ none
      → opposes action d ≡ true
      → fill_commission config (is_flat d) q price ≡ closing_fee config q price
  unfolding fill_commission calculate_commission
  fill_commission-closing_fee config action d q price h against = ground (arith, h, against)

  -- Without a commission method, a fill of an order against the position adds one trade: it closes the
  -- smaller of the two quantities at the fill price, its net profit is the price difference in the
  -- position's favour times that quantity, less the fee of the fill, and it records the fee. The fee is
  -- a percentage of the order's value or an amount for each unit of the order, as configured, and
  -- nothing where an amount for the order is configured. The equity grows by the net profit and is then
  -- charged the same fee again.
  pub fill_order-fees :
      (s : Engine N) (o : Order N) (price : N)
      → s.config.commission_method ≡ none
      → opposes o.action s.position.direction ≡ true
      → let p = s.position in
        let at = fill_price_of s o price in
        let fee = closing_fee s.config o.quantity price in
        let closed = smaller o.quantity p.quantity in
        let net = a.minus (gain p.direction closed p.avg_price at) fee in
        ((fill_order s o price).equity ≡ a.minus (a.plus s.equity net) fee)
        × ((t : Trade N) × (((fill_order s o price).trades ≡ s.trades ++ t ∷ [])
              × IsClosing s closed at net fee o.entry_name t))
  fill_order-fees s o price h against =
      subst (IsBooked s o price (fill_price_of s o price))
        (fill_commission-closing_fee s.config o.action s.position.direction o.quantity price h
          against)
        (fill_order-IsBooked s o price h against)
