-- ===== src/Trading/Capital/Shares.antt =====
-- The whole units of the shares leave fewer units over than there are worlds.
use native.Mathlib.Nat.{le_of_mul-le-mul_right, lt_of_mul-lt-mul_right}
use pine_framework.Prelude.{
  ℕ, suc, ◌+◌, ◌-◌, ◌*◌, ◌≤◌, ◌<◌, ◌≡◌, refl, List, [], ◌∷◌, length, arith, ap, ◌∙◌,
}
use pine_framework.Trading.Capital.{
  Indexed, Share, weight_sum, share_of, shares_of, floor_sum, sort_shares, insert_share,
}

abbrev pub remainder_sum : List Share → ℕ
remainder_sum [] = 0
remainder_sum (s ∷ ss) = s.remainder + remainder_sum ss

-- Each share divides its numerator with a remainder below the divisor.
pub share_of_lem :
    (units sum_w : ℕ) (x : Indexed)
    → 0 < sum_w
    → let s = share_of units sum_w x in
      (s.floor_units * sum_w + s.remainder ≡ units * x.w) × (s.remainder < sum_w)
unfolding share_of
share_of_lem units sum_w x h = grind arith

shares_sum :
    (units sum_w : ℕ) (xs : List Indexed)
    → 0 < sum_w
    → floor_sum (shares_of units sum_w xs) * sum_w + remainder_sum (shares_of units sum_w xs)
      ≡ units * weight_sum xs
unfolding shares_of
shares_sum units sum_w [] h = omega arith
shares_sum units sum_w (x ∷ xs) h =
    omega (arith, (share_of_lem units sum_w x h).0, shares_sum units sum_w xs h)

remainder_sum-le :
    (units sum_w : ℕ) (xs : List Indexed)
    → 0 < sum_w
    → remainder_sum (shares_of units sum_w xs) + length xs ≤ length xs * sum_w
unfolding shares_of
remainder_sum-le units sum_w [] h = omega arith
remainder_sum-le units sum_w (x ∷ xs) h =
    omega (arith, (share_of_lem units sum_w x h).1, remainder_sum-le units sum_w xs h)

pub length-shares_of :
    (units sum_w : ℕ) (xs : List Indexed) → length (shares_of units sum_w xs) ≡ length xs
unfolding shares_of
length-shares_of units sum_w [] = refl
length-shares_of units sum_w (x ∷ xs) = ap suc (length-shares_of units sum_w xs)

length-insert_share : (s : Share) (ts : List Share) → length (insert_share s ts) ≡ suc (length ts)
unfolding insert_share
length-insert_share s [] = refl
length-insert_share s (t ∷ ts) = ground (arith, length-insert_share s ts)

pub length-sort_shares : (ss : List Share) → length (sort_shares ss) ≡ length ss
unfolding sort_shares
length-sort_shares [] = refl
length-sort_shares (s ∷ ss) =
    length-insert_share s (sort_shares ss) ∙ ap suc (length-sort_shares ss)

some_world : (xs : List Indexed) → 0 < weight_sum xs → 0 < length xs
some_world [] h = absurd (omega arith)
some_world (x ∷ xs) h = omega arith

cancel :
    (floors units sum_w rest n : ℕ)
    → floors * sum_w + rest ≡ units * sum_w
    → rest < n * sum_w
    → 0 < sum_w
    → (floors ≤ units) × (units - floors < n)
cancel floors units sum_w rest n e h p =
    let below : floors ≤ units = le_of_mul-le-mul_right {k = sum_w} (omega arith) p in
    let above : units < floors + n = lt_of_mul-lt-mul_right sum_w (omega arith) in
    (below, omega arith)

-- What flooring leaves over is less than one unit for each world.
pub residual_lt :
    (units : ℕ) (xs : List Indexed)
    → 0 < weight_sum xs
    → let floors = floor_sum (shares_of units (weight_sum xs) xs) in
      (floors ≤ units) × (units - floors < length xs)
residual_lt units xs h =
    cancel (floor_sum shares) units (weight_sum xs) (remainder_sum shares) (length xs)
      (shares_sum units (weight_sum xs) xs h)
      (omega (arith, remainder_sum-le units (weight_sum xs) xs h, some_world xs h)) h
  where
    shares : List Share
    shares = shares_of units (weight_sum xs) xs
