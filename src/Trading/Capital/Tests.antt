-- ===== src/Trading/Capital/Tests.antt =====
-- Splits of concrete capitals.
use pine_framework.Prelude.{ℕ, ◌*◌, ◌≡◌, ◌≢◌, refl, List, [], ◌∷◌, some, String, arith}
use pine_framework.Prelude.Int.{ℤ, pos, negsuc}
use pine_framework.Prelude.JsMap.{JsMap}
use pine_framework.Prelude.JsMap
use pine_framework.Trading.Capital.{
  WorldWeight, positive_worlds, rounded_units, shares_of, share_of, set_floors, goes_first,
  insert_share, sort_shares, give_dust, split_units, allocate_units, allocate_capital,
}
use pine_framework.Trading.Capital.Dust.{paid, NoRepeat}
use pine_framework.Trading.Capital.Split

abbrev scale : ℤ → ℤ
scale p = p

abbrev world : String → ℤ → WorldWeight ℤ
world name pnl = record { id = name; pnl = pnl }

abbrev worlds : List (WorldWeight ℤ)
worlds = world "a" (pos 2) ∷ world "b" (negsuc 3) ∷ world "c" (pos 3) ∷ world "d" (pos 5) ∷ []

even_split :
    allocate_capital scale (pos 20) (pos 1) worlds ≡ some (("a", 4) ∷ ("c", 6) ∷ ("d", 10) ∷ [])
unfolding allocate_capital allocate_units rounded_units positive_worlds split_units shares_of
    share_of set_floors sort_shares insert_share goes_first give_dust JsMap.set JsMap.get
even_split = refl

-- The two units left over go to the largest remainders.
dust_split :
    allocate_capital scale (pos 17) (pos 1) worlds ≡ some (("a", 3) ∷ ("c", 5) ∷ ("d", 9) ∷ [])
unfolding allocate_capital allocate_units rounded_units positive_worlds split_units shares_of
    share_of set_floors sort_shares insert_share goes_first give_dust JsMap.set JsMap.get
dust_split = refl

-- A world listed twice loses one of its slices: 5 of 10 are paid.
repeated_world :
    allocate_capital scale (pos 10) (pos 1) (world "a" (pos 1) ∷ world "a" (pos 1) ∷ [])
    ≡ some (("a", 5) ∷ [])
unfolding allocate_capital allocate_units rounded_units positive_worlds split_units shares_of
    share_of set_floors sort_shares insert_share goes_first give_dust JsMap.set JsMap.get
repeated_world = refl

some_positive : positive_worlds scale worlds 0 ≢ []
unfolding positive_worlds
some_positive = λ e. ground (arith, e)

worlds-NoRepeat : NoRepeat (Split.world_ids (positive_worlds scale worlds 0))
unfolding positive_worlds
worlds-NoRepeat = (refl, (refl, (refl, tt)))

allocate_capital-paid_example :
    (r : JsMap String ℕ) × (allocate_capital scale (pos (20 * 1)) (pos 1) worlds ≡ some r)
    × (paid r ≡ 20 * 1)
allocate_capital-paid_example =
    Split.allocate_capital-paid scale 20 1 worlds (omega arith) (omega arith) some_positive
      worlds-NoRepeat
