-- ===== src/Trading/Capital/Split.antt =====
-- The whole allocation: what is paid in all, and to each world.
use pine_framework.Prelude.{
  ℕ, zero, suc, ◌+◌, ◌-◌, ◌*◌, ◌≤◌, ◌<◌, ◌≡◌, ◌≢◌, ◌⊎◌, refl, inl, inr, List, [], ◌∷◌, some, String,
  string_eq, length, arith, ap, ◌∙◌, map,
}
use pine_framework.Prelude.Int.{ℤ, pos}
use pine_framework.Prelude.JsMap.{JsMap, get-set}
use pine_framework.Prelude.JsMap
use pine_framework.Trading.Capital.{
  WorldWeight, Indexed, positive_worlds, weight_sum, rounded_units, share_of, shares_of, floor_sum,
  set_floors, sort_shares, split_units, allocate_units, allocate_capital,
}
use pine_framework.Trading.Capital.Shares.{residual_lt, length-shares_of, length-sort_shares}
use pine_framework.Trading.Capital.Dust.{ids, NoRepeat, paid, paid-give_dust, paid-set_floors}

abbrev pub world_ids : List Indexed → List String
world_ids = map λ x. x.id

ids-shares_of :
    (units sum_w : ℕ) (xs : List Indexed) → ids (shares_of units sum_w xs) ≡ world_ids xs
unfolding shares_of share_of
ids-shares_of units sum_w [] = refl
ids-shares_of units sum_w (x ∷ xs) = ap (◌∷◌ x.id) (ids-shares_of units sum_w xs)

split_product :
    (floors units unit : ℕ)
    → floors ≤ units
    → floors * unit + (units - floors) * unit ≡ units * unit
split_product floors units unit h = grind arith

pub split_units-paid :
    (unit units : ℕ) (xs : List Indexed)
    → 0 < weight_sum xs
    → NoRepeat (world_ids xs)
    → (r : JsMap String ℕ) × (split_units unit units xs ≡ some r) × (paid r ≡ units * unit)
unfolding split_units JsMap.get
split_units-paid unit units xs h d =
    let shares = shares_of units (weight_sum xs) xs in
    let (floors, residual) = residual_lt units xs h in
    let names : NoRepeat (ids shares) = rw (ids-shares_of units (weight_sum xs) xs) d in
    let (r, e, p) =
      paid-give_dust unit (units - floor_sum shares) (sort_shares shares)
        (set_floors unit shares [])
        (omega (arith, length-sort_shares shares, length-shares_of units (weight_sum xs) xs)) in
    let floors_paid : paid (set_floors unit shares []) ≡ 0 + floor_sum shares * unit =
      paid-set_floors unit shares [] names (λ id k. refl) in
    (r, e, omega (arith, p, floors_paid, split_product (floor_sum shares) units unit floors))

rounded_exact : (units unit : ℕ) → 0 < unit → rounded_units (units * unit) unit ≡ units
unfolding rounded_units
rounded_exact units unit h = grind arith

allocate_units-paid :
    (units unit : ℕ) (xs : List Indexed)
    → 0 < units
    → 0 < unit
    → 0 < weight_sum xs
    → NoRepeat (world_ids xs)
    → (r : JsMap String ℕ) × (allocate_units (units * unit) unit xs ≡ some r)
      × (paid r ≡ units * unit)
unfolding allocate_units
allocate_units-paid units unit [] hu hn hw d = absurd (omega arith)
allocate_units-paid units unit (x ∷ xs) hu hn hw d =
    let (r, e, p) = split_units-paid unit units (x ∷ xs) hw d in
    (r, ground (arith, rounded_exact units unit hn), p)

list-cases : {A : Type 0} → (xs : List A) → (xs ≡ []) ⊎ (0 < length xs)
list-cases [] = inl refl
list-cases (x ∷ xs) = inr (omega arith)

module _ {P : Type 0} (scale : P → ℤ) where
  weights_pos :
      (worlds : List (WorldWeight P)) (i : ℕ)
      → length (positive_worlds scale worlds i) ≤ weight_sum (positive_worlds scale worlds i)
  unfolding positive_worlds
  weights_pos [] i = omega arith
  weights_pos (world ∷ worlds) i = ground (arith, weights_pos worlds (i + 1))

  allocate_capital-units :
      (total unit : ℕ) (worlds : List (WorldWeight P))
      → 0 < total
      → 0 < unit
      → allocate_capital scale (pos total) (pos unit) worlds
        ≡ allocate_units total unit (positive_worlds scale worlds 0)
  unfolding allocate_capital
  allocate_capital-units zero unit worlds ht hu = absurd (omega arith)
  allocate_capital-units (suc total) zero worlds ht hu = absurd (omega arith)
  allocate_capital-units (suc total) (suc unit) worlds ht hu = refl

  -- If the capital is a positive number of units of positive size, some world has a positive weight
  -- and the worlds with one have distinct names, then the split succeeds and the slices add up to the
  -- whole capital.
  pub allocate_capital-paid :
      (units unit : ℕ) (worlds : List (WorldWeight P))
      → 0 < units
      → 0 < unit
      → positive_worlds scale worlds 0 ≢ []
      → NoRepeat (world_ids (positive_worlds scale worlds 0))
      → (r : JsMap String ℕ) × (allocate_capital scale (pos (units * unit)) (pos unit) worlds
          ≡ some r)
        × (paid r ≡ units * unit)
  allocate_capital-paid units unit worlds hu hn some_world d =
      let (r, e, p) =
        allocate_units-paid units unit (positive_worlds scale worlds 0) hu hn
          (elim worlds-cases [
            | inl h ↦ absurd (some_world h)
            | inr h ↦ omega (arith, h, weights_pos worlds 0)
          ])
          d in
      (r, allocate_capital-units (units * unit) unit worlds (grind arith) hn ∙ e, p)
    where
      worlds-cases :
          (positive_worlds scale worlds 0 ≡ []) ⊎ (0 < length (positive_worlds scale worlds 0))
      worlds-cases = list-cases (positive_worlds scale worlds 0)
