-- ===== src/Language/Types.antt =====
-- src/language/types/pine-types.ts and na.ts: the types of the language and the test of their equality.
-- `flagged t` is the copy of a type that `withSeries` of coercion.ts makes, with the flag set and another
-- `equals`.
pub mod Coercion
pub mod Annotation
pub mod Names
pub mod Common
pub mod Values
pub mod Tests
use pine_framework.Prelude.{
  ℕ, Option, none, some, Bool, true, false, ◌&&◌, ◌||◌, not, String, string_eq, ◌===◌,
  if◌then◌else◌,
}
use Prim.Native.String.{◌++◌}

pub data PinePrimitiveKind : Type 0 where
  int float bool string color : PinePrimitiveKind

pub data PineType : Type 0 where
  primitive : PinePrimitiveKind → PineType
  series array : PineType → PineType
  map : PineType → PineType → PineType
  user : String → PineType
  void any na : PineType
  flagged : PineType → PineType

abbrev pub primitive_name : PinePrimitiveKind → String
primitive_name int = "int"
primitive_name float = "float"
primitive_name bool = "bool"
primitive_name string = "string"
primitive_name color = "color"

unfoldable pub name : PineType → String
name (primitive k) = primitive_name k
name (series t) = "series<" ++ (name t ++ ">")
name (array t) = "array<" ++ (name t ++ ">")
name (map k v) = "map<" ++ (name k ++ (", " ++ (name v ++ ">")))
name (user n) = n
name void = "void"
name any = "any"
name na = "na"
name (flagged t) = name t

abbrev pub is_series : PineType → Bool
is_series (series t) = true
is_series (flagged t) = true
is_series _ = false

-- The tests of `kind`; the copy has the kind of its original.
abbrev pub is_primitive : PineType → Bool
is_primitive (primitive k) = true
is_primitive (flagged t) = is_primitive t
is_primitive _ = false

abbrev pub is_user : PineType → Bool
is_user (user n) = true
is_user (flagged t) = is_user t
is_user _ = false

abbrev pub is_void : PineType → Bool
is_void void = true
is_void (flagged t) = is_void t
is_void _ = false

abbrev pub is_any : PineType → Bool
is_any any = true
is_any (flagged t) = is_any t
is_any _ = false

abbrev pub is_na : PineType → Bool
is_na na = true
is_na (flagged t) = is_na t
is_na _ = false

abbrev pub same_flag : PineType → PineType → Bool
same_flag s t = if is_series s then is_series t else not (is_series t)

-- A copy is no instance of a class.
unfoldable pub equals : PineType → PineType → Bool
unfolding name
equals (primitive k) other =
    is_primitive other && (primitive_name k === name other && not (is_series other))
equals (series t) (series u) = equals t u
equals (series t) _ = false
equals (array t) (array u) = equals t u
equals (array t) _ = false
equals (map k v) (map k' v') = equals k k' && equals v v'
equals (map k v) _ = false
equals (user n) other = is_user other && (n === name other && not (is_series other))
equals void other = is_void other
equals any other = is_any other
equals na other = is_na other
equals (flagged t) other = equals t other && same_flag t other
