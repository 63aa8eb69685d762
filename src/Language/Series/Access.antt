-- ===== src/Language/Series/Access.antt =====
-- How a series reads back after a push.
use pine_framework.Prelude.{
  ℕ, zero, suc, ◌-◌, ◌≡◌, refl, List, [], ◌∷◌, ◌++◌, ltb, ◌==◌, if◌then◌else◌, length,
  length-append, get_or, arith,
}
use pine_framework.Prelude.Int.{pos, negsuc}
use pine_framework.Language.Series.{Series, push, get_relative}

module _ {V : Type 0} where
  get_or-append :
      (xs : List V) (v : V) (i : ℕ) (d : V)
      → get_or (xs ++ v ∷ []) i d ≡ (if i == length xs then v else get_or xs i d)
  get_or-append [] v zero d = refl
  get_or-append [] v (suc i) d = ground arith
  get_or-append (x ∷ xs) v zero d = ground arith
  get_or-append (x ∷ xs) v (suc i) d = ground (arith, get_or-append xs v i d)

  get_relative-pos :
      (na : V) (s : Series V) (n : ℕ)
      → get_relative na s (pos n)
        ≡ (if ltb n (length s.values) then get_or s.values (length s.values - 1 - n) na else na)
  unfolding get_relative
  get_relative-pos na s n = ground arith

  get_relative-negsuc : (na : V) (s : Series V) (n : ℕ) → get_relative na s (negsuc n) ≡ na
  unfolding get_relative
  get_relative-negsuc na s n = ground arith

  -- After a push, offset 0 reads the new value and each value is one bar further back; on any series a
  -- negative offset reads NA.
  pub get_relative-push :
      (na v : V) (s : Series V) (n : ℕ)
      → (get_relative na (push s v) (pos 0) ≡ v)
        × (get_relative na (push s v) (pos (suc n)) ≡ get_relative na s (pos n))
        × (get_relative na s (negsuc n) ≡ na)
  unfolding push
  get_relative-push na v s n = ground (
    arith,
    get_relative-pos na (push s v) 0,
    get_relative-pos na (push s v) (suc n),
    get_relative-pos na s n,
    length-append s.values (v ∷ []),
    get_or-append s.values v (length s.values) na,
    get_or-append s.values v (length s.values - 1 - n) na,
    get_relative-negsuc na s n,
  )
