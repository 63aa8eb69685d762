-- ===== src/Strategy/Engine/Lots.antt =====
-- The quantity of the position and of its lots through a fill.
use pine_framework.Prelude.{
  ℕ, ◌+◌, ◌-◌, ◌≤◌, ◌≡◌, refl, ap, subst, ◌∙◌, Option, Bool, true, false, ◌||◌, String, string_eq,
  ltb, leb, ◌==◌, if◌then◌else◌, if-elim, Bool-cases, inl, inr, arith,
}
use pine_framework.Strategy.Numbers.{Arith}
use pine_framework.Strategy.Types.{
  Order, OrderAction, buy, sell, PositionDirection, in_long, in_short, flat, OrderDirection, long,
  short, held, is_flat, is_long, is_short, is_buy, action_of,
}
use pine_framework.Strategy.Engine.{Engine, update_drawdown}
use pine_framework.Strategy.Engine.Fill.{
  open_position, add_position, open_or_add, apply_fill, charge, fill_order,
}
use pine_framework.Strategy.Engine.Closing.{
  go_flat, close_or_reduce, closed_of, book_close, drop_empty,
}
use pine_framework.Strategy.Engine.Balance.{lot_sum-append, lot_sum-take_lots, IsBalanced}

-- The abstract position: a side and a quantity.
abbrev pub Net : Type 0
Net = PositionDirection × ℕ

-- A fill against the position reduces it, at most to nothing; any other adds to it.
abbrev pub reduce_net : PositionDirection → ℕ → ℕ → Net
reduce_net d n q = if leb n q then (flat, 0) else (d, n - q)

abbrev pub net_fill : Net → OrderAction → ℕ → Net
net_fill (flat, n) buy q = (in_long, q)
net_fill (flat, n) sell q = (in_short, q)
net_fill (in_long, n) buy q = (in_long, n + q)
net_fill (in_long, n) sell q = reduce_net in_long n q
net_fill (in_short, n) sell q = (in_short, n + q)
net_fill (in_short, n) buy q = reduce_net in_short n q

-- The test of `fillOrder` for adding to a side.
abbrev is_side : OrderDirection → PositionDirection → Bool
is_side long d = is_long d
is_side short d = is_short d

left_over :
    (d : PositionDirection) (n q : ℕ)
    → (if n - (if ltb q n then q else n) == 0
        then (flat, 0)
        else (d, n - (if ltb q n then q else n)))
      ≡ reduce_net d n q
left_over d n q = ground arith

adds_net :
    (d : PositionDirection) (n q : ℕ) (action : OrderAction) (side : OrderDirection)
    → action ≡ action_of side
    → (is_flat d || is_side side d) ≡ true
    → (if is_flat d then (held side, q) else (d, n + q)) ≡ net_fill (d, n) action q
adds_net d n q action side e h = ground (arith, e, h)

reduces_net :
    (d : PositionDirection) (n q : ℕ) (action : OrderAction) (side : OrderDirection)
    → action ≡ action_of side
    → (is_flat d || is_side side d) ≡ false
    → (reduce_net d n q ≡ net_fill (d, n) action q) × (is_flat d ≡ false)
reduces_net d n q action side e h = ground (arith, e, h)

module _ {N : Type 0} ⦃a : Arith N⦄ where
  abbrev pub net_of : Engine N → Net
  net_of s = (s.position.direction, s.position.quantity)

  -- Both facts of a state, under the net position it should have.
  pub record Holds (net : Net) (s : Engine N) : Type 0 where
    pub balanced : IsBalanced s.position
    pub at_net : net_of s ≡ net

  go_flat-Holds : (s : Engine N) → Holds (flat, 0) (go_flat s)
  unfolding go_flat
  go_flat-Holds s = record {
    balanced = record { lots_sum = refl; flat_empty = λ e. refl };
    at_net = refl;
  }

  open_position-Holds :
      (s : Engine N) (d : OrderDirection) (q : ℕ) (price fee : N) (name : String)
      → Holds (held d, q) (open_position s d q price fee name)
  unfolding open_position
  open_position-Holds s long q price fee name = record {
    balanced = record { lots_sum = omega arith; flat_empty = λ e. ground (arith, e) };
    at_net = refl;
  }
  open_position-Holds s short q price fee name = record {
    balanced = record { lots_sum = omega arith; flat_empty = λ e. ground (arith, e) };
    at_net = refl;
  }

  add_position-Holds :
      (s : Engine N) (q : ℕ) (price fee : N) (name : String)
      → IsBalanced s.position
      → is_flat s.position.direction ≡ false
      → Holds (s.position.direction, s.position.quantity + q) (add_position s q price fee name)
  unfolding add_position
  add_position-Holds s q price fee name b e = record {
    balanced = record {
      lots_sum = lot_sum-append s.position.lots _ ∙ ap (λ n. n + q) b.lots_sum;
      flat_empty = λ e'. ground (arith, e, e');
    };
    at_net = refl;
  }

  update_drawdown-Holds : (net : Net) (s : Engine N) → Holds net s → Holds net (update_drawdown s)
  unfolding update_drawdown
  update_drawdown-Holds net s h = record { balanced = h.balanced; at_net = h.at_net }

  -- The test of `drop_empty`, as a value.
  drop-Holds :
      (b : Bool) (s : Engine N)
      → IsBalanced s.position
      → Holds (if b then (flat, 0) else net_of s) (if b then go_flat s else s)
  drop-Holds true s h = go_flat-Holds s
  drop-Holds false s h = record { balanced = h; at_net = refl }

  book_close-IsBalanced :
      (s : Engine N) (q : ℕ) (price fee : N) (name : String) (from : Option String)
      → IsBalanced s.position
      → is_flat s.position.direction ≡ false
      → IsBalanced (book_close s q price fee name from).position
  unfolding book_close
  book_close-IsBalanced s q price fee name from b e =
      let closed = closed_of s.position q in
      let fits : closed ≤ s.position.quantity = ground arith in
      record {
        lots_sum = omega (
          arith,
          b.lots_sum,
          fits,
          lot_sum-take_lots from closed s.position.lots (omega (arith, fits, b.lots_sum)),
        );
        flat_empty = λ e'. ground (arith, e, e');
      }

  booked_net :
      (s : Engine N) (q : ℕ) (price fee : N) (name : String) (from : Option String)
      → (if (book_close s q price fee name from).position.quantity == 0
          then (flat, 0)
          else net_of (book_close s q price fee name from))
        ≡ (if s.position.quantity - closed_of s.position q == 0
            then (flat, 0)
            else (s.position.direction, s.position.quantity - closed_of s.position q))
  unfolding book_close
  booked_net s q price fee name from = refl

  close_or_reduce-Holds :
      (s : Engine N) (q : ℕ) (price fee : N) (name : String) (from : Option String)
      → IsBalanced s.position
      → is_flat s.position.direction ≡ false
      → Holds
          (reduce_net s.position.direction s.position.quantity q)
          (close_or_reduce s q price fee name from)
  unfolding close_or_reduce drop_empty
  close_or_reduce-Holds s q price fee name from b e =
      let booked = book_close s q price fee name from in
      update_drawdown-Holds _ (drop_empty booked) (
        subst (λ net. Holds net (drop_empty booked))
          (booked_net s q price fee name from
            ∙ left_over s.position.direction s.position.quantity q)
          (drop-Holds (booked.position.quantity == 0) booked
            (book_close-IsBalanced s q price fee name from b e)))

  open_or_add-Holds :
      (s : Engine N) (d : OrderDirection) (q : ℕ) (price fee : N) (name : String)
      → IsBalanced s.position
      → Holds
          (if is_flat s.position.direction
            then (held d, q)
            else (s.position.direction, s.position.quantity + q))
          (open_or_add s d q price fee name)
  unfolding open_or_add
  open_or_add-Holds s d q price fee name b = elim (Bool-cases (is_flat s.position.direction)) [
    | inl e ↦ rw e (open_position-Holds s d q price fee name)
    | inr e ↦ rw e (add_position-Holds s q price fee name b e)
  ]

  -- One side's branches of a fill.
  side-Holds :
      (s : Engine N) (o : Order N) (price fee : N) (side : OrderDirection)
      → IsBalanced s.position
      → o.action ≡ action_of side
      → Holds (net_fill (net_of s) o.action o.quantity) (
          if is_flat s.position.direction || is_side side s.position.direction
          then open_or_add s side o.quantity price fee o.entry_name
          else close_or_reduce s o.quantity price fee o.entry_name o.from_entry)
  side-Holds s o price fee side b e =
      if-elim (Holds (net_fill (net_of s) o.action o.quantity))
        (is_flat s.position.direction || is_side side s.position.direction)
        (open_or_add s side o.quantity price fee o.entry_name)
        (close_or_reduce s o.quantity price fee o.entry_name o.from_entry)
        (λ h.
          subst (λ net. Holds net (open_or_add s side o.quantity price fee o.entry_name))
            (adds_net s.position.direction s.position.quantity o.quantity o.action side e h)
            (open_or_add-Holds s side o.quantity price fee o.entry_name b))
        (λ h.
          let (same, held) =
            reduces_net s.position.direction s.position.quantity o.quantity o.action side e h in
          subst
            (λ net. Holds net (close_or_reduce s o.quantity price fee o.entry_name o.from_entry))
            same (close_or_reduce-Holds s o.quantity price fee o.entry_name o.from_entry b held))

  apply_fill-Holds :
      (s : Engine N) (o : Order N) (price fee : N)
      → IsBalanced s.position
      → Holds (net_fill (net_of s) o.action o.quantity) (apply_fill s o price fee)
  unfolding apply_fill
  apply_fill-Holds s o price fee b =
      if-elim (Holds (net_fill (net_of s) o.action o.quantity)) (is_buy o.action) _ _
        (λ h. side-Holds s o price fee long b (ground (arith, h)))
        (λ h. side-Holds s o price fee short b (ground (arith, h)))

  charge-Holds : (net : Net) (s : Engine N) (fee : N) → Holds net s → Holds net (charge s fee)
  unfolding charge
  charge-Holds net s fee h = record {
    balanced = record { lots_sum = h.balanced.lots_sum; flat_empty = h.balanced.flat_empty };
    at_net = h.at_net;
  }

  -- A fill of a balanced position leaves it balanced, and takes its side and quantity to those of the
  -- abstract position after the same fill: no single fill turns a long position into a short one.
  pub fill_order-Holds :
      (s : Engine N) (o : Order N) (price : N)
      → IsBalanced s.position
      → Holds (net_fill (net_of s) o.action o.quantity) (fill_order s o price)
  unfolding fill_order
  fill_order-Holds s o price b = charge-Holds _ _ _ (apply_fill-Holds _ o _ _ b)
