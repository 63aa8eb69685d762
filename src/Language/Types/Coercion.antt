-- ===== src/Language/Types/Coercion.antt =====
-- src/language/types/coercion.ts, with the values of na.ts. An error is none. Numbers are doubles, on which
-- only the host's functions act; an array or a map is the address of its object.
use pine_framework.Prelude.{
  ℕ, Option, none, some, Bool, true, false, ◌&&◌, ◌||◌, not, String, string_eq, ◌===◌,
  if◌then◌else◌,
}
use pine_framework.Language.Types.{
  PinePrimitiveKind, int, float, bool, string, color, PineType, primitive, series, any, na, flagged,
  name, is_series, is_any, is_na, equals,
}
use text.Mathlib.Text.{starts_with}

pub data PineValue {ℓ} (N : Type ℓ) : Type ℓ where
  number : N → PineValue N
  boolean : Bool → PineValue N
  string_value : String → PineValue N
  na_value : PineValue N
  object : ℕ → PineValue N
  null : PineValue N

-- Math.trunc, parseInt and parseFloat with none for NaN, `x !== 0`, and cleanNumber of number-format.ts.
pub record Host {ℓ} (N : Type ℓ) : Type ℓ where
  pub zero : N
  pub one : N
  pub trunc : N → N
  pub parse_int : String → Option N
  pub parse_float : String → Option N
  pub is_not_zero : N → Bool
  pub clean_number : N → String

pub record CoercionResult {ℓ} (N : Type ℓ) : Type ℓ where
  pub value : PineValue N
  pub type : PineType

abbrev pub unwrap_series : PineType → PineType
unwrap_series (series t) = t
unwrap_series t = t

unfoldable pub with_series : PineType → PineType
with_series t = if is_series t then t else flagged t

-- The numeric types, by their names.
unfoldable pub is_numeric : PineType → Bool
unfolding name
is_numeric t = name t === "int" || name t === "float"

unfoldable pub promote_numeric : PineType → PineType → PineType
unfolding name
promote_numeric left right =
    if name left === "float" || name right === "float" then primitive float else primitive int

unfoldable pub get_common_type : PineType → PineType → Option PineType
unfolding equals name is_numeric promote_numeric with_series
get_common_type left right =
    let left_base = unwrap_series left in
    let right_base = unwrap_series right in
    let promoted = promote_numeric left_base right_base in
    let in_series = is_series left || is_series right in
    if equals left right
    then some left
    else if is_na left || is_na right
    then some (if is_na left then right else left)
    else if is_any left || is_any right
    then some any
    else if is_numeric left_base && is_numeric right_base
    then some (if in_series then with_series promoted else promoted)
    else if name left_base === name right_base
    then some (if in_series then with_series left_base else left_base)
    else none

unfoldable pub is_assignable : PineType → PineType → Bool
unfolding equals name is_numeric
is_assignable source target =
    let source_base = unwrap_series source in
    let target_base = unwrap_series target in
    is_any target
    || ((is_na source || is_na target)
        || (equals source target
            || ((is_numeric source_base && is_numeric target_base)
                || (name source_base === name target_base || is_series source))))

abbrev pub parse_primitive_kind : String → Option PinePrimitiveKind
parse_primitive_kind n =
    if n === "int"
    then some int
    else if n === "float"
    then some float
    else if n === "bool"
    then some bool
    else if n === "string"
    then some string
    else if n === "color"
    then some color
    else none

module _ {ℓ} {N : Type ℓ} where
  abbrev pub result : PineValue N → PinePrimitiveKind → CoercionResult N
  result v k = record { value = v; type = primitive k }

  abbrev pub parsed : Option N → PinePrimitiveKind → Option (CoercionResult N)
  parsed none k = none
  parsed (some x) k = some (result (number x) k)

  abbrev pub is_na_value : PineValue N → Bool
  is_na_value na_value = true
  is_na_value _ = false

  unfoldable pub infer_literal_type : PineValue N → Bool → PineType
  infer_literal_type na_value is_float = na
  infer_literal_type (number x) is_float = if is_float then primitive float else primitive int
  infer_literal_type (boolean b) is_float = primitive bool
  infer_literal_type (string_value s) is_float =
      if starts_with s "#" then primitive color else primitive string
  infer_literal_type (object i) is_float = any
  infer_literal_type null is_float = any

module _ {ℓ} {N : Type ℓ} (host : Host N) where
  unfoldable pub coerce_to_int : PineValue N → Option (CoercionResult N)
  coerce_to_int (number x) = some (result (number (host.trunc x)) int)
  coerce_to_int (boolean b) = some (result (number (if b then host.one else host.zero)) int)
  coerce_to_int (string_value s) = parsed (host.parse_int s) int
  coerce_to_int _ = none

  unfoldable pub coerce_to_float : PineValue N → Option (CoercionResult N)
  coerce_to_float (number x) = some (result (number x) float)
  coerce_to_float (boolean b) = some (result (number (if b then host.one else host.zero)) float)
  coerce_to_float (string_value s) = parsed (host.parse_float s) float
  coerce_to_float _ = none

  unfoldable pub coerce_to_bool : PineValue N → CoercionResult N
  coerce_to_bool (boolean b) = result (boolean b) bool
  coerce_to_bool (number x) = result (boolean (host.is_not_zero x)) bool
  coerce_to_bool (string_value s) = result (boolean (not (s === ""))) bool
  coerce_to_bool _ = result (boolean false) bool

  unfoldable pub coerce_to_string : PineValue N → CoercionResult N
  coerce_to_string (string_value s) = result (string_value s) string
  coerce_to_string (number x) = result (string_value (host.clean_number x)) string
  coerce_to_string (boolean b) = result (string_value (if b then "true" else "false")) string
  coerce_to_string _ = result (string_value "") string

  unfoldable pub coerce_to_color : PineValue N → Option (CoercionResult N)
  coerce_to_color (string_value s) =
      if starts_with s "#" then some (result (string_value s) color) else none
  coerce_to_color _ = none

  -- The switch over the name of the base type.
  unfoldable pub coerce_named :
      Option PinePrimitiveKind → PineValue N → PineType → Option (CoercionResult N)
  unfolding coerce_to_int coerce_to_float coerce_to_bool coerce_to_string coerce_to_color
  coerce_named (some int) v t = coerce_to_int v
  coerce_named (some float) v t = coerce_to_float v
  coerce_named (some bool) v t = some (coerce_to_bool v)
  coerce_named (some string) v t = some (coerce_to_string v)
  coerce_named (some color) v t = coerce_to_color v
  coerce_named none v t = some (record { value = v; type = t })

  unfoldable pub coerce : PineValue N → PineType → Option (CoercionResult N)
  unfolding coerce_named name
  coerce v t =
      let coerced = coerce_named (parse_primitive_kind (name (unwrap_series t))) v t in
      if is_na_value v then some (record { value = v; type = na }) else coerced

  unfoldable pub coerce_binary_operands :
      PineValue N
      → PineValue N
      → PineType
      → PineType
      → String
      → Option (CoercionResult N × (CoercionResult N × PineType))
  unfolding coerce coerce_to_string name get_common_type
  coerce_binary_operands l r left right operator =
      let strings : Option (CoercionResult N × (CoercionResult N × PineType)) =
        some (coerce_to_string l, (coerce_to_string r, primitive string)) in
      let common : Option (CoercionResult N × (CoercionResult N × PineType)) =
        elim (get_common_type left right) [
          | none ↦ none
          | some t ↦ elim (coerce l t) [
            | none ↦ none
            | some l' ↦ elim (coerce r t) [ none ↦ none | some r' ↦ some (l', (r', t)) ]
          ]
        ] in
      if operator === "+" && (name left === "string" || name right === "string")
      then strings
      else common
