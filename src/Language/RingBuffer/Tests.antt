-- ===== src/Language/RingBuffer/Tests.antt =====
-- Runs of the ring buffers at concrete inputs.
use pine_framework.Prelude.{◌≡◌, refl, List, [], ◌∷◌, drop, arith}
use pine_framework.Prelude.Int.{ℤ, pos, negsuc, ◌+ℤ◌, ◌-ℤ◌}
use pine_framework.Prelude.Additive.{int_additive}
use pine_framework.Language.RingBuffer.Slots.{to_array, empty, write, oldest}
use pine_framework.Language.RingBuffer.Window.{slide}
use pine_framework.Language.RingBuffer.Classes.{
  RingBuffer, create, push, push_all, pushed_sum, recalc_sum, from_array,
}
use pine_framework.Language.RingBuffer.Sum

abbrev prices : List ℤ
prices = pos 5 ∷ negsuc 1 ∷ pos 7 ∷ pos 11 ∷ []

abbrev two_held : RingBuffer ℤ
two_held = push_all (pos 0) (pos 5 ∷ pos 6 ∷ []) (create 2)

from_array_window :
    to_array (pos 0) (from_array (pos 0) prices 3).slots ≡ negsuc 1 ∷ pos 7 ∷ pos 11 ∷ []
unfolding to_array from_array push_all create push empty write recalc_sum pushed_sum oldest ◌+ℤ◌
    ◌-ℤ◌
from_array_window = refl

from_array_sum : (from_array (pos 0) prices 3).sum ≡ pos 16
unfolding to_array from_array push_all create push empty write recalc_sum pushed_sum oldest ◌+ℤ◌
    ◌-ℤ◌
from_array_sum = refl

to_array-from_array_example : to_array (pos 0) (from_array (pos 0) prices 3).slots ≡ drop 1 prices
to_array-from_array_example = Sum.to_array-from_array (pos 0) prices 3 (omega arith)

two_held-IsValid : Sum.IsValid (pos 0) two_held
unfolding push_all
two_held-IsValid =
    (Sum.push-slide (pos 0) (pos 6) _
      (Sum.push-slide (pos 0) (pos 5) _ (Sum.create-IsValid (pos 0) 2 (omega arith))).0).0

push-slide_example :
    Sum.IsValid (pos 0) (push (pos 0) (pos 9) two_held)
    × (to_array (pos 0) (push (pos 0) (pos 9) two_held).slots ≡ pos 6 ∷ pos 9 ∷ [])
    × ((push (pos 0) (pos 9) two_held).capacity ≡ 2)
unfolding slide to_array push_all create push empty write recalc_sum pushed_sum oldest ◌+ℤ◌ ◌-ℤ◌
push-slide_example = Sum.push-slide (pos 0) (pos 9) two_held two_held-IsValid

abbrev worn : RingBuffer ℤ
worn = record two_held { push_count = 19 }

worn-IsValid : Sum.IsValid (pos 0) worn
unfolding push_all create push empty write
worn-IsValid = record { slots_valid = two_held-IsValid.slots_valid; counted = omega arith }
