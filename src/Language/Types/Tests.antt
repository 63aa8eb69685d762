-- ===== src/Language/Types/Tests.antt =====
-- Coercions and common types of concrete operands; numbers are whole.
use pine_framework.Prelude.{
  ℕ, ◌≡◌, ◌/◌, ◌*◌, arith, Bool, refl, none, some, false, not, string_eq, ◌===◌, ◌==◌,
  if◌then◌else◌,
}
use pine_framework.Language.Types.{int, float, string, primitive, series, flagged, name, equals}
use pine_framework.Language.Types.Coercion.{
  number, string_value, Host, with_series, is_numeric, promote_numeric, get_common_type,
  coerce_to_int, coerce_to_string, coerce_named, coerce, coerce_binary_operands,
}
use pine_framework.Language.Types.Names.{equals-with_series}
use pine_framework.Language.Types.Common.{IsUpper, get_common_type-IsUpper}
use pine_framework.Language.Types.Values.{GivesWhole, IsTyped, coerce-IsTyped}

-- Numbers in tenths: 120 is twelve, and what is left over ten is a fraction.
abbrev host : Host ℕ
host = record {
  zero = 0;
  one = 10;
  trunc = λ x. x / 10 * 10;
  parse_int = λ s. if s === "12" then some 120 else none;
  parse_float = λ s. none;
  is_not_zero = λ x. not (x == 0);
  clean_number = λ x. "7";
}

abbrev is_whole : ℕ → Bool
is_whole x = x / 10 * 10 == x

trunc_trunc : (x : ℕ) → x / 10 * 10 / 10 * 10 ≡ x / 10 * 10
trunc_trunc x = omega arith

host-GivesWhole : GivesWhole host is_whole
host-GivesWhole = record {
  truncated = λ x. ground (arith, trunc_trunc x);
  parsed_int = λ s x h. ground (arith, h);
  of_zero = refl;
  of_one = refl;
}

-- A series of floats and an int have the series of floats, as a copy.
widened :
    get_common_type (series (primitive float)) (primitive int) ≡ some (flagged (primitive float))
unfolding get_common_type equals name is_numeric promote_numeric with_series
widened = refl

-- With a string, `+` joins texts.
joined :
    coerce_binary_operands host
      (string_value "a")
      (number 70)
      (primitive string)
      (primitive int)
      "+"
    ≡ some (
      record { value = string_value "a"; type = primitive string },
      (record { value = string_value "7"; type = primitive string }, primitive string),
    )
unfolding coerce_binary_operands coerce_to_string name
joined = refl

equals-with_series_example :
    equals (with_series (primitive int)) (with_series (primitive int)) ≡ false
equals-with_series_example = equals-with_series (primitive int) refl

get_common_type-IsUpper_example :
    IsUpper (series (primitive float)) (primitive int) (flagged (primitive float))
unfolding get_common_type equals name is_numeric promote_numeric with_series
get_common_type-IsUpper_example =
    get_common_type-IsUpper (series (primitive float)) (primitive int) (flagged (primitive float))
      refl refl refl

coerce-IsTyped_example : IsTyped is_whole int (record { value = number 120; type = primitive int })
unfolding coerce coerce_named coerce_to_int name
coerce-IsTyped_example =
    coerce-IsTyped host is_whole (number 125) (series (primitive int)) int
      (record { value = number 120; type = primitive int }) host-GivesWhole refl refl
