-- ===== src/Strategy/Trailing/Ratchet.antt =====
-- A trailing stop over the bars.
use pine_framework.Prelude.{
  ◌≡◌, refl, subst, sym, ◌∙◌, ◌⊎◌, inl, inr, List, [], ◌∷◌, Option, none, some, Bool, true, false,
  if◌then◌else◌, if-elim,
}
use pine_framework.Strategy.Numbers.{Arith}
use pine_framework.Strategy.Types.{Order, TrailingStopState}
use pine_framework.Strategy.Trailing.{check_activation, see_price, new_stop, ratchet, step_state}

module _ {N : Type 0} ⦃a : Arith N⦄ where
  -- The better stop: the higher one of a long position, the lower one of the other.
  abbrev pub better : Bool → N → N → Bool
  better up x y = if up then a.less x y else a.less y x

  -- The same stop, or a better one.
  abbrev pub NotWorse : Bool → N → N → Type 0
  NotWorse up x y = (y ≡ x) ⊎ (better up x y ≡ true)

  -- The steps of one order over bars, each with its high, low and close.
  abbrev pub follow :
      TrailingStopState N → Order N → Bool → N → List (N × (N × N)) → TrailingStopState N × Order N
  follow state o up avg [] = (state, o)
  follow state o up avg ((high, (low, price)) ∷ bars) =
      let (state', o') = step_state state o up avg high low price in follow state' o' up avg bars

  better_trans :
      (less_trans : (x y z : N) → a.less x y ≡ true → a.less y z ≡ true → a.less x z ≡ true)
      (up : Bool) (x y z : N)
      → better up x y ≡ true
      → better up y z ≡ true
      → better up x z ≡ true
  better_trans less_trans true x y z h k = less_trans x y z h k
  better_trans less_trans false x y z h k = less_trans z y x k h

  NotWorse-trans :
      (less_trans : (x y z : N) → a.less x y ≡ true → a.less y z ≡ true → a.less x z ≡ true)
      (up : Bool) (x y z : N)
      → NotWorse up x y
      → NotWorse up y z
      → NotWorse up x z
  NotWorse-trans less_trans up x y z (inl e) (inl e') = inl (e' ∙ e)
  NotWorse-trans less_trans up x y z (inl e) (inr k) = inr (subst (λ w. better up w z ≡ true) e k)
  NotWorse-trans less_trans up x y z (inr h) (inl e) =
      inr (subst (λ w. better up x w ≡ true) (sym e) h)
  NotWorse-trans less_trans up x y z (inr h) (inr k) = inr (better_trans less_trans up x y z h k)

  check_activation-stop_price :
      (state : TrailingStopState N) (up : Bool) (avg high low : N)
      → (check_activation state up avg high low).stop_price ≡ state.stop_price
  unfolding check_activation
  check_activation-stop_price state up avg high low =
      if-elim (λ (r : TrailingStopState N). r.stop_price ≡ state.stop_price) _ _ state (λ e. refl)
        (λ e. refl)

  see_price-stop_price :
      (state : TrailingStopState N) (up : Bool) (high low : N)
      → (see_price state up high low).stop_price ≡ state.stop_price
  unfolding see_price
  see_price-stop_price state true high low =
      if-elim (λ (r : TrailingStopState N). r.stop_price ≡ state.stop_price)
        (a.less state.highest_price high) _ state (λ e. refl) (λ e. refl)
  see_price-stop_price state false high low =
      if-elim (λ (r : TrailingStopState N). r.stop_price ≡ state.stop_price)
        (a.less low state.highest_price) _ state (λ e. refl) (λ e. refl)

  ratchet-NotWorse :
      (state : TrailingStopState N) (o : Order N) (up : Bool) (next : Option N)
      → NotWorse up state.stop_price (ratchet state o up next).0.stop_price
  unfolding ratchet
  ratchet-NotWorse state o up none = inl refl
  ratchet-NotWorse state o up (some next) =
      if-elim (λ (r : TrailingStopState N × Order N). NotWorse up state.stop_price r.0.stop_price)
        (better up state.stop_price next) _ (state, o) (λ e. inr e) (λ e. inl refl)

  step_state-NotWorse :
      (state : TrailingStopState N) (o : Order N) (up : Bool) (avg high low price : N)
      → NotWorse up state.stop_price (step_state state o up avg high low price).0.stop_price
  unfolding step_state
  step_state-NotWorse state o up avg high low price =
      let checked = check_activation state up avg high low in
      let seen = see_price checked up high low in
      let same : seen.stop_price ≡ state.stop_price =
        see_price-stop_price checked up high low
        ∙ check_activation-stop_price state up avg high low in
      if-elim (λ (r : TrailingStopState N × Order N). NotWorse up state.stop_price r.0.stop_price)
        checked.is_activated (ratchet seen o up (new_stop seen up price)) (checked, o)
        (λ e.
          subst (λ x. NotWorse up x (ratchet seen o up (new_stop seen up price)).0.stop_price) same
            (ratchet-NotWorse seen o up (new_stop seen up price)))
        (λ e. inl (check_activation-stop_price state up avg high low))

  -- Over any bars, the stop of a trail stays where it was or moves in the position's favour, when the order
  -- of prices is transitive.
  pub follow-NotWorse :
      (less_trans : (x y z : N) → a.less x y ≡ true → a.less y z ≡ true → a.less x z ≡ true)
      (bars : List (N × (N × N))) (state : TrailingStopState N) (o : Order N) (up : Bool) (avg : N)
      → NotWorse up state.stop_price (follow state o up avg bars).0.stop_price
  follow-NotWorse less_trans [] state o up avg = inl refl
  follow-NotWorse less_trans ((high, (low, price)) ∷ bars) state o up avg =
      let (state', o') = step_state state o up avg high low price in
      NotWorse-trans less_trans up _ state'.stop_price _
        (step_state-NotWorse state o up avg high low price)
        (follow-NotWorse less_trans bars state' o' up avg)
