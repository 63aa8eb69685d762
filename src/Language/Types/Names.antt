-- ===== src/Language/Types/Names.antt =====
-- The names of types that are equal.
use pine_framework.Prelude.{◌≡◌, refl, ap, sym, Bool, true, false, not, string_eq, eq_of_===, arith}
use Prim.Native.String.{◌++◌}
use pine_framework.Language.Types.{
  PineType, primitive, series, array, map, user, void, any, na, flagged, primitive_name, name,
  is_series, is_void, is_any, is_na, equals,
}
use pine_framework.Language.Types.Coercion.{unwrap_series, with_series}

-- A type that is no series has a series copy which does not equal itself.
pub equals-with_series :
    (t : PineType) → is_series t ≡ false → equals (with_series t) (with_series t) ≡ false
unfolding equals with_series
equals-with_series t h = ground (arith, h)

-- No series of a series, and no copy of a series.
abbrev pub is_proper : PineType → Bool
is_proper (series (series t)) = false
is_proper (flagged t) = not (is_series t)
is_proper _ = true

name_of_is_void : (t : PineType) → is_void t ≡ true → name t ≡ "void"
unfolding name
name_of_is_void (flagged t) h = name_of_is_void t h
name_of_is_void void h = refl
name_of_is_void t h = ground (arith, h)

name_of_is_any : (t : PineType) → is_any t ≡ true → name t ≡ "any"
unfolding name
name_of_is_any (flagged t) h = name_of_is_any t h
name_of_is_any any h = refl
name_of_is_any t h = ground (arith, h)

name_of_is_na : (t : PineType) → is_na t ≡ true → name t ≡ "na"
unfolding name
name_of_is_na (flagged t) h = name_of_is_na t h
name_of_is_na na h = refl
name_of_is_na t h = ground (arith, h)

-- Types that are equal have the same name.
pub equals-name : (s t : PineType) → equals s t ≡ true → name s ≡ name t
unfolding equals name
equals-name (primitive k) t h = eq_of_=== (primitive_name k) (name t) (ground (arith, h))
equals-name (series s) (series t) h = ap (λ n. "series<" ++ (n ++ ">")) (equals-name s t h)
equals-name (array s) (array t) h = ap (λ n. "array<" ++ (n ++ ">")) (equals-name s t h)
equals-name (map k v) (map k' v') h =
    let key : name k ≡ name k' = equals-name k k' (ground (arith, h)) in
    let value : name v ≡ name v' = equals-name v v' (ground (arith, h)) in cc
equals-name (user n) t h = eq_of_=== n (name t) (ground (arith, h))
equals-name void t h = sym (name_of_is_void t h)
equals-name any t h = sym (name_of_is_any t h)
equals-name na t h = sym (name_of_is_na t h)
equals-name (flagged s) t h = equals-name s t (ground (arith, h))
equals-name s t h = ground (arith, h)

-- A type that is no series does not equal one.
equals_no_series : (s t : PineType) → is_series s ≡ false → equals s (series t) ≡ false
unfolding equals
equals_no_series s t h = ground (arith, h)

equals_copy_series :
    (s t : PineType) → is_proper (flagged s) ≡ true → equals (flagged s) (series t) ≡ false
unfolding equals
equals_copy_series s t h = ground (arith, equals_no_series s t (ground (arith, h)))

pub equals-unwrap_series :
    (s t : PineType)
    → is_proper s ≡ true
    → equals s t ≡ true
    → name (unwrap_series s) ≡ name (unwrap_series t)
unfolding equals
equals-unwrap_series (series s) (series t) p h = equals-name s t h
equals-unwrap_series (flagged s) (series t) p h = ground (arith, h, equals_copy_series s t p)
equals-unwrap_series s t p h = ground (arith, h, equals-name s t h)
