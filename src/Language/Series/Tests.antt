-- ===== src/Language/Series/Tests.antt =====
-- A concrete series.
use pine_framework.Prelude.{ℕ, ◌≡◌, refl, [], ◌∷◌, none, some}
use pine_framework.Prelude.Int.{negsuc}
use pine_framework.Language.Series.{Series, slice, slice_bound}

abbrev three : Series ℕ
three = record { values = 1 ∷ 2 ∷ 3 ∷ [] }

last_two : slice three (some (negsuc 1)) none ≡ 2 ∷ 3 ∷ []
unfolding slice slice_bound
last_two = refl
