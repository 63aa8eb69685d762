-- ===== src/Language/Types/Annotation.antt =====
-- `typeFromAnnotation` of pine-types.ts, and the readings of a value of na.ts.
use pine_framework.Prelude.{
  ℕ, zero, suc, ◌≡◌, refl, arith, option-elim, List, [], ◌∷◌, none, some, Bool, true, false, ◌&&◌,
  not, String, string_eq, ◌===◌, if◌then◌else◌, if-elim,
}
use pine_framework.Language.Types.{
  string, PineType, primitive, series, array, map, user, any, flagged, is_series,
}
use pine_framework.Language.Types.Coercion.{
  PineValue, number, boolean, string_value, na_value, object, null, Host, parse_primitive_kind,
  is_na_value,
}
use pine_framework.Language.Types.Names.{is_proper}

pub record Annotation : Type 0 where
  pub in_series : Bool
  pub in_array : Bool
  pub in_map : Bool
  pub type_arguments : List PineType

abbrev pub argument : ℕ → List PineType → PineType → PineType
argument n [] default = default
argument zero (t ∷ ts) default = t
argument (suc n) (t ∷ ts) default = argument n ts default

abbrev pub is_array : PineType → Bool
is_array (array t) = true
is_array (flagged t) = is_array t
is_array _ = false

abbrev pub is_map : PineType → Bool
is_map (map k v) = true
is_map (flagged t) = is_map t
is_map _ = false

unfoldable pub base_type : String → List PineType → PineType
base_type n arguments = elim (parse_primitive_kind n) [
  | some k ↦ primitive k
  | none ↦
      if n === "array"
      then array (argument 0 arguments any)
      else if n === "map"
      then map (argument 0 arguments (primitive string)) (argument 1 arguments any)
      else user n
]

unfoldable pub type_from_annotation : String → Annotation → PineType
unfolding base_type
type_from_annotation n options =
    let base = base_type n options.type_arguments in
    let base' = if options.in_array && not (is_array base) then array base else base in
    if options.in_series
    then series base'
    else if options.in_map && not (is_map base')
    then map (primitive string) base'
    else base'

-- An annotation never gives a series of a series.
no_series-base_type :
    (n : String) (arguments : List PineType) → is_series (base_type n arguments) ≡ false
unfolding base_type
no_series-base_type n arguments =
    option-elim (λ t. is_series t ≡ false) (parse_primitive_kind n) _ primitive
      (if-elim (λ t. is_series t ≡ false) (n === "array") _ _ (λ e. refl)
        (λ e.
          if-elim (λ t. is_series t ≡ false) (n === "map") _ (user n) (λ e'. refl) (λ e'. refl)))
      (λ k e. refl)

pub type_from_annotation-is_proper :
    (n : String) (options : Annotation) → is_proper (type_from_annotation n options) ≡ true
unfolding type_from_annotation
type_from_annotation-is_proper n options =
    ground (arith, no_series-base_type n options.type_arguments)

module _ {ℓ} {N : Type ℓ} where
  unfoldable pub na_or : PineValue N → PineValue N → PineValue N
  na_or value fallback = if is_na_value value then fallback else value

  unfoldable pub pine_truthy : Host N → PineValue N → Bool
  pine_truthy host na_value = false
  pine_truthy host (boolean b) = b
  pine_truthy host (number x) = host.is_not_zero x
  pine_truthy host (string_value s) = not (s === "")
  pine_truthy host (object i) = true
  pine_truthy host null = false
