-- ===== src/Strategy/Engine/Hits.antt =====
-- The fills of the orders that one bar hits.
use pine_framework.Prelude.{refl, subst, List, [], ◌∷◌, String, option-elim}
use pine_framework.Strategy.Numbers.{Arith}
use pine_framework.Strategy.Types.{Order}
use pine_framework.Strategy.Engine.{Engine}
use pine_framework.Strategy.Engine.Fill.{fill_order}
use pine_framework.Strategy.Engine.Groups.{cancel_group}
use pine_framework.Strategy.Engine.Bar.{fill_and_cancel, hit_price, fill_hit}
use pine_framework.Strategy.Engine.Lots.{Net, net_fill, net_of, Holds, fill_order-Holds}
use pine_framework.Strategy.Engine.Balance.{IsBalanced}

module _ {N : Type 0} where
  -- The abstract position after the fills of orders, one after the other.
  abbrev pub net_fills : Net → List (Order N) → Net
  net_fills net [] = net
  net_fills net (o ∷ os) = net_fills (net_fill net o.action o.quantity) os

module _ {N : Type 0} ⦃a : Arith N⦄ where
  cancel_group-Holds :
      (net : Net) (s : Engine N) (g : String) → Holds net s → Holds net (cancel_group s g)
  unfolding cancel_group
  cancel_group-Holds net s g h = record { balanced = h.balanced; at_net = h.at_net }

  fill_and_cancel-Holds :
      (s : Engine N) (o : Order N) (price : N)
      → IsBalanced s.position
      → Holds (net_fill (net_of s) o.action o.quantity) (fill_and_cancel s o price)
  unfolding fill_and_cancel
  fill_and_cancel-Holds s o price b =
      option-elim (Holds (net_fill (net_of s) o.action o.quantity)) o.oca_group
        (fill_order s o price) (cancel_group (fill_order s o price)) (fill_order-Holds s o price b)
        (λ g e. cancel_group-Holds _ (fill_order s o price) g (fill_order-Holds s o price b))

  -- From a balanced position, all the orders that a bar hits are filled one after the other, those of one OCA
  -- group as well: the engine's position is balanced, and is the abstract position after every one of them.
  pub fill_hit-Holds :
      (os : List (Order N)) (s : Engine N)
      → IsBalanced s.position
      → Holds (net_fills (net_of s) os) (fill_hit os s)
  unfolding fill_hit
  fill_hit-Holds [] s b = record { balanced = b; at_net = refl }
  fill_hit-Holds (o ∷ os) s b =
      let first = fill_and_cancel-Holds s o (hit_price o) b in
      subst (λ net. Holds (net_fills net os) (fill_hit os (fill_and_cancel s o (hit_price o))))
        first.at_net (fill_hit-Holds os (fill_and_cancel s o (hit_price o)) first.balanced)
