-- ===== src/Strategy/Engine/Filled.antt =====
-- The filled orders that a bar adds: `updateBar` of src/strategy/strategy-engine.ts.
use pine_framework.Prelude.{
  ℕ, ◌≡◌, refl, sym, ap, ◌∙◌, List, [], ◌∷◌, ◌++◌, append_nil, append_assoc, map, All, Option, some,
  Bool, ◌&&◌, ◌||◌, not, String, string_eq, ltb, ◌==◌, if-elim, option-elim, arith,
}
use pine_framework.Strategy.Numbers.{Arith, is_positive}
use pine_framework.Strategy.Types.{
  Order, market, limit, stop, stop_limit, FilledOrder, is_flat, is_long,
}
use pine_framework.Strategy.Engine.{Engine, margin_rate}
use pine_framework.Strategy.Engine.Fill.{fill_order}
use pine_framework.Strategy.Engine.Groups.{cancel_group}
use pine_framework.Strategy.Engine.Orders.{close}
use pine_framework.Strategy.Engine.Bar.{
  market_orders, other_orders, market_fill_price, fill_all, fill_pending_market_orders, limit_hit,
  select, fills_now, triggers_now, fill_and_cancel, fill_hit, fill_triggered, hit_price,
  process_pending_orders, update_bar, update_trailing, update_position_pnl, track_excursion,
  check_liquidation,
}
use pine_framework.Strategy.Engine.Recorded.{filled_of, fill_order-view}

module _ {N : Type 0} ⦃a : Arith N⦄ where
  -- An engine's filled orders are the given ones, and more after them.
  unfoldable pub Since : List (FilledOrder N) → Engine N → Type 0
  Since before s = (fs : List (FilledOrder N)) × (s.filled_orders ≡ before ++ fs)

  fill_order-Since :
      (before : List (FilledOrder N)) (s : Engine N) (o : Order N) (price : N)
      → Since before s
      → Since before (fill_order s o price)
  unfolding Since
  fill_order-Since before s o price (fs, e) = (
    fs ++ filled_of s o price ∷ [],
    ap (λ v. v.0) (fill_order-view s o price)
        ∙ ap (λ xs. xs ++ filled_of s o price ∷ []) e
        ∙ append_assoc before fs (filled_of s o price ∷ []),
  )

  fill_and_cancel-Since :
      (before : List (FilledOrder N)) (s : Engine N) (o : Order N) (price : N)
      → Since before s
      → Since before (fill_and_cancel s o price)
  unfolding Since fill_and_cancel cancel_group
  fill_and_cancel-Since before s o price h =
      let one = fill_order-Since before s o price h in
      option-elim (Since before) o.oca_group (fill_order s o price)
        (cancel_group (fill_order s o price)) one (λ g e. one)

  fill_hit-Since :
      (before : List (FilledOrder N)) (os : List (Order N)) (s : Engine N)
      → Since before s
      → Since before (fill_hit os s)
  unfolding Since fill_hit
  fill_hit-Since before [] s h = h
  fill_hit-Since before (o ∷ os) s h =
      fill_hit-Since before os _ (fill_and_cancel-Since before s o (hit_price o) h)

  fill_triggered-Since :
      (before : List (FilledOrder N)) (high low : N) (os : List (Order N)) (s : Engine N)
      → Since before s
      → Since before (fill_triggered high low os s)
  unfolding Since fill_triggered
  fill_triggered-Since before high low [] s h = h
  fill_triggered-Since before high low (o ∷ os) s h = fill_triggered-Since before high low os _ (
      if-elim (Since before) (limit_hit high low o) _ _ (λ e. fill_and_cancel-Since before s o _ h)
        (λ e. h))

  process_pending-Since :
      (before : List (FilledOrder N)) (s : Engine N) (high low : N)
      → Since before s
      → Since before (process_pending_orders s high low)
  unfolding Since process_pending_orders
  process_pending-Since before s high low h =
      let keeps : Order N → Bool =
        λ o. not (fills_now high low o) && not (triggers_now high low o) in
      let here : Engine N = record s { pending_orders = select keeps s.pending_orders } in
      let hits = select (fills_now high low) s.pending_orders in
      fill_triggered-Since before high low (select (triggers_now high low) s.pending_orders)
        (fill_hit hits here) (fill_hit-Since before hits here h)

  update_position_pnl-Since :
      (before : List (FilledOrder N)) (s : Engine N) (price : N)
      → Since before s
      → Since before (update_position_pnl s price)
  unfolding Since update_position_pnl
  update_position_pnl-Since before s price h =
      if-elim (Since before) (is_flat s.position.direction) s _ (λ e. h) (λ e. h)

  track_excursion-Since :
      (before : List (FilledOrder N)) (s : Engine N) (high low : N)
      → Since before s
      → Since before (track_excursion s high low)
  unfolding Since track_excursion
  track_excursion-Since before s high low h =
      if-elim (Since before) (not (is_flat s.position.direction) && ltb 0 s.position.quantity) _ s
        (λ e. h) (λ e. h)

  close-Since :
      (before : List (FilledOrder N)) (s : Engine N) (name : String) (comment : Option String)
      → Since before s
      → Since before (close s name comment).0
  unfolding Since close
  close-Since before s name comment h =
      if-elim (λ (r : Engine N × Option (Order N)). Since before r.0)
        (is_flat s.position.direction || s.position.quantity == 0) _ _ (λ e. h) (λ e. h)

  check_liquidation-Since :
      (before : List (FilledOrder N)) (s : Engine N)
      → Since before s
      → Since before (check_liquidation s)
  unfolding Since check_liquidation
  check_liquidation-Since before s h =
      let rate = margin_rate s.config (is_long s.position.direction) in
      let maintenance = a.mul (a.times s.current_price s.position.quantity) rate in
      if-elim (Since before) (is_flat s.position.direction || s.position.quantity == 0) _ _ (λ e. h)
        (λ e.
          if-elim (Since before)
            (is_positive rate && a.less (a.plus s.equity s.position.unrealized_pnl) maintenance)
            (close s "liquidation" (some "Margin liquidation")).0 s
            (λ e'. close-Since before s "liquidation" (some "Margin liquidation") h) (λ e'. h))

  -- The market orders of a list, and no others.
  abbrev pub waiting : List (Order N) → List (Order N)
  waiting [] = []
  waiting (o ∷ os) = elim o.kind [
    | market ↦ o ∷ waiting os
    | limit ↦ waiting os
    | stop ↦ waiting os
    | stop_limit ↦ waiting os
  ]

  market_orders-waiting : (os : List (Order N)) → market_orders os ≡ waiting os
  unfolding market_orders
  market_orders-waiting [] = refl
  market_orders-waiting (o ∷ os) = ground (arith, market_orders-waiting os)

  abbrev pub order_of : FilledOrder N → Order N
  order_of f = f.order

  -- A fill of the given bar and time.
  abbrev pub IsAt : ℕ → ℕ → FilledOrder N → Type 0
  IsAt index time f = (f.fill_bar_index ≡ index) × (f.fill_time ≡ time)

  -- Fills of the given orders, one for each in their order, at the given bar and time, follow the given
  -- filled orders.
  abbrev pub Fills :
      List (FilledOrder N)
      → List (Order N)
      → ℕ
      → ℕ
      → List (FilledOrder N)
      → List (FilledOrder N)
      → Type 0
  Fills before os index time fs after =
      (after ≡ before ++ fs) × (map order_of fs ≡ os) × All (IsAt index time) fs

  fill_all-Fills :
      (os : List (Order N)) (price : N) (s : Engine N) (index time : ℕ)
      → (s.bar_index ≡ index) × (s.timestamp ≡ time)
      → (fs : List (FilledOrder N)) × Fills s.filled_orders os index time fs
          (fill_all os price s).filled_orders
  unfolding fill_all
  fill_all-Fills [] price s index time h = ([], (sym (append_nil s.filled_orders), refl, tt))
  fill_all-Fills (o ∷ os) price s index time (at_index, at_time) =
      let f = filled_of s o price in
      let kept = fill_order-view s o price in
      let (fs, (more, same, here)) =
        fill_all-Fills os price (fill_order s o price) index time
          (ap (λ v. v.1.0) kept ∙ at_index, ap (λ v. v.1.1) kept ∙ at_time) in
      (
        f ∷ fs,
        (
          more ∙ ap (λ v. v.0 ++ fs) kept ∙ append_assoc s.filled_orders (f ∷ []) fs,
          ap (λ os'. o ∷ os') same,
          ((at_index, at_time), here),
        ),
      )

  -- After a bar the filled orders are those before it, then a fill of each market order that waited when the
  -- bar came, once and in their order, at the bar's index and time, and then others.
  pub update_bar-Fills :
      (s : Engine N) (index time : ℕ) (opening high low price : N)
      → (fs : List (FilledOrder N)) × ((rest : List (FilledOrder N)) × (((update_bar s index time
                opening high low price).filled_orders
              ≡ (s.filled_orders ++ fs) ++ rest)
            × (map order_of fs ≡ waiting s.pending_orders)
            × All (IsAt index time) fs))
  unfolding update_bar Since fill_pending_market_orders update_trailing
  update_bar-Fills s index time opening high low price =
      let here : Engine N = record s {
        bar_index = index;
        timestamp = time;
        current_price = price;
      } in
      let cleared : Engine N = record here { pending_orders = other_orders s.pending_orders } in
      let at = market_fill_price s.config opening high low price in
      let (fs, (more, same, on_bar)) =
        fill_all-Fills (market_orders s.pending_orders) at cleared index time (refl, refl) in
      let before = s.filled_orders ++ fs in
      let filled = fill_pending_market_orders here opening high low price in
      let trailed = update_trailing filled high low price in
      let processed = process_pending_orders trailed high low in
      let floated = update_position_pnl processed price in
      let (rest, e) = check_liquidation-Since before (track_excursion floated high low) (
        track_excursion-Since before floated high low (
          update_position_pnl-Since before processed price (
            process_pending-Since before trailed high low ([], more ∙ sym (append_nil before))))) in
      (fs, (rest, (e, same ∙ market_orders-waiting s.pending_orders, on_bar)))
