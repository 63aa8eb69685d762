-- ===== src/Trading/Capital.antt =====
-- src/trading/capital-allocator.ts. Money is counted in a small unit of which `total` and `unit` are
-- whole multiples, so that `Math.round(total / unit)` is exact; `scale` stands for the rounding of
-- doubles `Math.round(pnl * WEIGHT_SCALE)`. A weight above 2^53 is not modelled.
pub mod Shares
pub mod Dust
pub mod Split
pub mod Tests
use pine_framework.Prelude.{
  ℕ, zero, suc, ◌+◌, ◌-◌, ◌*◌, ◌/◌, List, [], ◌∷◌, Option, none, some, Bool, true, false, ◌||◌,
  ◌&&◌, String, string_eq, ltb, leb, ◌==◌, if◌then◌else◌,
}
use pine_framework.Prelude.Int.{ℤ, pos, negsuc}
use pine_framework.Prelude.JsMap.{JsMap}
use pine_framework.Prelude.JsMap

pub record WorldWeight {ℓ} (P : Type ℓ) : Type ℓ where
  pub id : String
  pub pnl : P

-- A world with a positive scaled weight, and its place in the input.
pub record Indexed : Type 0 where
  pub id : String
  pub w : ℕ
  pub idx : ℕ

pub record Share : Type 0 where
  pub id : String
  pub w : ℕ
  pub idx : ℕ
  pub floor_units : ℕ
  pub remainder : ℕ

module _ {ℓ} {P : Type ℓ} (scale : P → ℤ) where
  -- `worlds.map(…).filter((x) => x.w > 0)`, from the index `i` on.
  unfoldable pub positive_worlds : List (WorldWeight P) → ℕ → List Indexed
  positive_worlds [] i = []
  positive_worlds (world ∷ worlds) i =
      let rest = positive_worlds worlds (i + 1) in
      elim (scale world.pnl) [
        | pos zero ↦ rest
        | pos (suc w) ↦ record { id = world.id; w = suc w; idx = i } ∷ rest
        | negsuc w ↦ rest
      ]

abbrev pub weight_sum : List Indexed → ℕ
weight_sum [] = 0
weight_sum (x ∷ xs) = x.w + weight_sum xs

-- `Math.round(total / unit)` for positive numbers.
unfoldable pub rounded_units : ℕ → ℕ → ℕ
rounded_units total unit = (2 * total + unit) / (2 * unit)

-- The source's products `totalUnits * w` are doubles, which are these numbers only up to 2^53.
unfoldable pub share_of : ℕ → ℕ → Indexed → Share
share_of total_units sum_w x =
    let numerator = total_units * x.w in
    let floor_units = numerator / sum_w in
    record {
      id = x.id;
      w = x.w;
      idx = x.idx;
      floor_units = floor_units;
      remainder = numerator - floor_units * sum_w;
    }

unfoldable pub shares_of : ℕ → ℕ → List Indexed → List Share
shares_of total_units sum_w [] = []
shares_of total_units sum_w (x ∷ xs) = share_of total_units sum_w x ∷ shares_of total_units sum_w xs

abbrev pub floor_sum : List Share → ℕ
floor_sum [] = 0
floor_sum (s ∷ ss) = s.floor_units + floor_sum ss

-- `result.set(x.id, floorUnits * unit)` for each share.
unfoldable pub set_floors : ℕ → List Share → JsMap String ℕ → JsMap String ℕ
set_floors unit [] result = result
set_floors unit (s ∷ ss) result = set_floors unit ss (JsMap.set result s.id (s.floor_units * unit))

-- Whether the comparator puts `a` before `b`: larger remainder, larger weight, earlier index.
unfoldable pub goes_first : Share → Share → Bool
goes_first a b =
    ltb b.remainder a.remainder
    || (a.remainder == b.remainder && (ltb b.w a.w || (a.w == b.w && leb a.idx b.idx)))

unfoldable pub insert_share : Share → List Share → List Share
insert_share s [] = s ∷ []
insert_share s (t ∷ ts) = if goes_first s t then s ∷ t ∷ ts else t ∷ insert_share s ts

-- `[...shares].sort(…)`.
unfoldable pub sort_shares : List Share → List Share
sort_shares [] = []
sort_shares (s ∷ ss) = insert_share s (sort_shares ss)

-- `result.get(id) ?? 0`.
abbrev pub amount_of : JsMap String ℕ → String → ℕ
amount_of result id = elim (JsMap.get result id) [ none ↦ 0 | some v ↦ v ]

-- The loop over the residual; `none` is the error of reading `order[i]` past its end.
unfoldable pub give_dust : ℕ → ℕ → List Share → JsMap String ℕ → Option (JsMap String ℕ)
give_dust unit zero order result = some result
give_dust unit (suc n) [] result = none
give_dust unit (suc n) (s ∷ order) result =
    give_dust unit n order (JsMap.set result s.id (amount_of result s.id + unit))

-- The end of `allocateCapital`, for `totalUnits` units over the worlds that are kept.
unfoldable pub split_units : ℕ → ℕ → List Indexed → Option (JsMap String ℕ)
unfolding shares_of share_of set_floors sort_shares insert_share goes_first give_dust
split_units unit total_units worlds =
    let shares = shares_of total_units (weight_sum worlds) worlds in
    give_dust unit (total_units - floor_sum shares) (sort_shares shares) (set_floors unit shares [])

unfoldable pub allocate_units : ℕ → ℕ → List Indexed → Option (JsMap String ℕ)
allocate_units total unit [] = some []
allocate_units total unit (x ∷ xs) =
    if rounded_units total unit == 0
    then some []
    else split_units unit (rounded_units total unit) (x ∷ xs)

module _ {ℓ} {P : Type ℓ} (scale : P → ℤ) where
  unfoldable pub allocate_capital : ℤ → ℤ → List (WorldWeight P) → Option (JsMap String ℕ)
  allocate_capital (pos (suc total)) (pos (suc unit)) worlds =
      allocate_units (suc total) (suc unit) (positive_worlds scale worlds 0)
  allocate_capital total unit worlds = some []
