-- ===== src/Strategy/Engine/Recorded.antt =====
-- The record of a fill: what `fillOrder` of src/strategy/strategy-engine.ts adds to the filled orders.
use pine_framework.Prelude.{
  ℕ, ◌≡◌, refl, List, [], ◌∷◌, ◌++◌, Option, Bool, true, false, ◌||◌, String, string_eq, ◌===◌,
  ◌==◌, if◌then◌else◌, if-elim,
}
use pine_framework.Strategy.Numbers.{Arith}
use pine_framework.Strategy.Types.{
  Order, FilledOrder, OrderDirection, long, short, is_flat, is_long, is_short, is_buy,
}
use pine_framework.Strategy.Engine.{Engine, update_drawdown}
use pine_framework.Strategy.Engine.Fill.{
  open_or_add, open_position, add_position, apply_fill, charge, fill_order, calculate_slippage,
  fill_commission,
}
use pine_framework.Strategy.Engine.Closing.{go_flat, book_close, drop_empty, close_or_reduce}
use pine_framework.Strategy.Engine.Groups.{cancel_group}

module _ {N : Type 0} ⦃a : Arith N⦄ where
  -- What only the record of a fill changes.
  abbrev pub view : Engine N → List (FilledOrder N) × (ℕ × ℕ)
  view s = (s.filled_orders, (s.bar_index, s.timestamp))

  go_flat-view : (s : Engine N) → view (go_flat s) ≡ view s
  unfolding go_flat cancel_group
  go_flat-view s =
      if-elim (λ (r : Engine N). view r ≡ view s) (s.position.entry_name === "") s
        (cancel_group s s.position.entry_name) (λ e. refl) (λ e. refl)

  close_or_reduce-view :
      (s : Engine N) (q : ℕ) (price fee : N) (name : String) (from : Option String)
      → view (close_or_reduce s q price fee name from) ≡ view s
  unfolding close_or_reduce drop_empty book_close update_drawdown
  close_or_reduce-view s q price fee name from =
      let booked = book_close s q price fee name from in
      if-elim (λ (r : Engine N). view r ≡ view s) (booked.position.quantity == 0) (go_flat booked)
        booked (λ e. go_flat-view booked) (λ e. refl)

  open_or_add-view :
      (s : Engine N) (d : OrderDirection) (q : ℕ) (price fee : N) (name : String)
      → view (open_or_add s d q price fee name) ≡ view s
  unfolding open_or_add open_position add_position
  open_or_add-view s d q price fee name =
      if-elim (λ (r : Engine N). view r ≡ view s) (is_flat s.position.direction)
        (open_position s d q price fee name) (add_position s q price fee name) (λ e. refl)
        (λ e. refl)

  side-view :
      (s : Engine N) (o : Order N) (price fee : N) (d : OrderDirection) (adds : Bool)
      → view (
          if adds
          then open_or_add s d o.quantity price fee o.entry_name
          else close_or_reduce s o.quantity price fee o.entry_name o.from_entry)
        ≡ view s
  side-view s o price fee d true = open_or_add-view s d o.quantity price fee o.entry_name
  side-view s o price fee d false =
      close_or_reduce-view s o.quantity price fee o.entry_name o.from_entry

  apply_fill-view :
      (s : Engine N) (o : Order N) (price fee : N) → view (apply_fill s o price fee) ≡ view s
  unfolding apply_fill
  apply_fill-view s o price fee =
      if-elim (λ (r : Engine N). view r ≡ view s) (is_buy o.action) _ _
        (λ e.
          side-view s o price fee long
            (is_flat s.position.direction || is_long s.position.direction))
        (λ e.
          side-view s o price fee short
            (is_flat s.position.direction || is_short s.position.direction))

  abbrev pub filled_of : Engine N → Order N → N → FilledOrder N
  filled_of s o price =
      let slippage = calculate_slippage s.config price in
      record {
        order = o;
        fill_price = if is_buy o.action then a.plus price slippage else a.minus price slippage;
        fill_time = s.timestamp;
        fill_bar_index = s.bar_index;
      }

  pub fill_order-view :
      (s : Engine N) (o : Order N) (price : N)
      → view (fill_order s o price)
        ≡ (s.filled_orders ++ filled_of s o price ∷ [], (s.bar_index, s.timestamp))
  unfolding fill_order charge
  fill_order-view s o price =
      apply_fill-view (record s { filled_orders = s.filled_orders ++ filled_of s o price ∷ [] }) o _
        (fill_commission s.config (is_flat s.position.direction) o.quantity price)
