-- ===== src/Strategy/Engine/Snapshot.antt =====
-- `saveState` and `restoreState`, which bracket the forming bar of a live run.
use pine_framework.Prelude.{
  ℕ, ◌≡◌, refl, List, [], ◌∷◌, ◌++◌, drop, length, Option, some, ◌&&◌, not, String, if-elim, arith,
}
use pine_framework.Strategy.Numbers.{Arith}
use pine_framework.Strategy.Types.{
  Order, FilledOrder, Position, Trade, StrategyMarker, OrderDirection, is_long, is_short_order,
}
use pine_framework.Strategy.Trailing.{TrailingStops}
use pine_framework.Strategy.Engine.{Engine}
use pine_framework.Strategy.Engine.Orders.{order, quantity_or, long_only, get_new_markers}

pub record Snapshot {ℓ} (N : Type ℓ) : Type ℓ where
  pub position : Position N
  pub trailing_stops : TrailingStops N
  pub pending_orders : List (Order N)
  pub filled_orders : List (FilledOrder N)
  pub trades : List (Trade N)
  pub markers : List (StrategyMarker N)
  pub equity : N
  pub peak_equity : N
  pub max_drawdown : N
  pub entries : ℕ

module _ {ℓ} {N : Type ℓ} where
  unfoldable pub save_state : Engine N → Snapshot N
  save_state s = record {
    position = s.position;
    trailing_stops = s.trailing_stops;
    pending_orders = s.pending_orders;
    filled_orders = s.filled_orders;
    trades = s.trades;
    markers = s.markers;
    equity = s.equity;
    peak_equity = s.peak_equity;
    max_drawdown = s.max_drawdown;
    entries = s.entries;
  }

  -- The trade's best and worst price, the count of told markers and the next id keep their later values.
  unfoldable pub restore_state : Engine N → Snapshot N → Engine N
  restore_state s saved = record s {
    position = saved.position;
    pending_orders = saved.pending_orders;
    trailing_stops = saved.trailing_stops;
    filled_orders = saved.filled_orders;
    trades = saved.trades;
    markers = saved.markers;
    equity = saved.equity;
    peak_equity = saved.peak_equity;
    max_drawdown = saved.max_drawdown;
    entries = saved.entries;
  }

drop_last : {A : Type 0} (xs : List A) (x y : A) → drop (length (xs ++ x ∷ [])) (xs ++ y ∷ []) ≡ []
drop_last [] x y = refl
drop_last (z ∷ xs) x y = drop_last xs x y

drop-length : {A : Type 0} (xs : List A) → drop (length xs) xs ≡ []
drop-length [] = refl
drop-length (z ∷ xs) = drop-length xs

module _ {N : Type 0} ⦃a : Arith N⦄ where
  -- The call `order` after a restore that follows the same call and a query of the markers.
  abbrev pub replayed : Engine N → String → OrderDirection → ℕ → N → Option N → Option N → Engine N
  replayed s name d q price stop lim =
      let told = (get_new_markers (order s name d (some q) price stop lim).0).0 in
      (order (restore_state told (save_state s)) name d (some q) price stop lim).0

  -- After a query of the markers and a restore, an order's marker is never told: a call that places an order
  -- (or refuses it), the query, the restore to the state before and the same call again leave no new markers.
  pub get_new_markers-replayed :
      (s : Engine N) (name : String) (d : OrderDirection) (q : ℕ) (price : N) (stop lim : Option N)
      → (get_new_markers (replayed s name d q price stop lim)).1 ≡ []
  unfolding get_new_markers order save_state restore_state quantity_or
  get_new_markers-replayed s name d q price stop lim =
      let refused = long_only s && (is_short_order d && not (is_long s.position.direction)) in
      let again : Engine N × Option (Order N) → Engine N =
        λ r. restore_state (get_new_markers r.0).0 (save_state s) in
      if-elim
        (λ (r : Engine N × Option (Order N)).
          (get_new_markers (order (again r) name d (some q) price stop lim).0).1 ≡ [])
        refused _ _
        (λ e.
          if-elim (λ (r : Engine N × Option (Order N)). (get_new_markers r.0).1 ≡ []) refused _ _
            (λ e'. drop-length s.markers) (λ e'. ground (arith, e, e')))
        (λ e.
          if-elim (λ (r : Engine N × Option (Order N)). (get_new_markers r.0).1 ≡ []) refused _ _
            (λ e'. ground (arith, e, e')) (λ e'. drop_last s.markers _ _))
