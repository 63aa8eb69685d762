-- ===== src/Language/Series.antt =====
-- src/language/runtime/series.ts: the history of a variable, one value a bar. `na` is Pine's NA.
-- Indices and offsets may be negative; they are whole numbers.
pub mod Access
pub mod Tests
use pine_framework.Prelude.{
  ℕ, ◌+◌, ◌-◌, List, [], ◌∷◌, ◌++◌, Option, none, some, Bool, true, false, ltb, leb, ◌==◌,
  if◌then◌else◌, length, get_or, take, drop,
}
use pine_framework.Prelude.Int.{ℤ, pos, negsuc, ◌-ℤ◌}

pub record Series {ℓ} (V : Type ℓ) : Type ℓ where
  pub values : List V

-- How `Array.slice` reads a bound: from the end if negative, and cut to the array.
unfoldable pub slice_bound : ℕ → ℤ → ℕ
slice_bound n (pos i) = if ltb n i then n else i
slice_bound n (negsuc i) = n - (i + 1)

module _ {ℓ} {V : Type ℓ} where
  unfoldable pub create_series : List V → Series V
  create_series initial = record { values = initial }

  unfoldable pub push : Series V → V → Series V
  push s v = record { values = s.values ++ v ∷ [] }

  -- An index in `[0, length)`, or none.
  unfoldable pub in_range : Series V → ℤ → Option ℕ
  in_range s (pos i) = if leb (length s.values) i then none else some i
  in_range s (negsuc i) = none

  unfoldable pub read : V → Series V → Option ℕ → V
  read na s none = na
  read na s (some i) = get_or s.values i na

  unfoldable pub get : V → Series V → ℤ → V
  unfolding read in_range
  get na s index = read na s (in_range s index)

  unfoldable pub get_relative : V → Series V → ℤ → V
  unfolding read in_range ◌-ℤ◌
  get_relative na s offset =
      if length s.values == 0
      then na
      else read na s (in_range s (pos (length s.values - 1) -ℤ offset))

  unfoldable pub last_or_default : Series V → V → V
  last_or_default s d = if length s.values == 0 then d else get_or s.values (length s.values - 1) d

  unfoldable pub last : V → Series V → V
  unfolding last_or_default
  last na s = last_or_default s na

  unfoldable pub slice : Series V → Option ℤ → Option ℤ → List V
  unfolding slice_bound
  slice s start end =
      let n = length s.values in
      let from : ℕ = elim start [ none ↦ 0 | some i ↦ slice_bound n i ] in
      let to : ℕ = elim end [ none ↦ n | some i ↦ slice_bound n i ] in
      take (to - from) (drop from s.values)

  unfoldable pub clear : Series V → Series V
  clear s = record { values = [] }
