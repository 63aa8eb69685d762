-- ===== src/Language/Types/Values.antt =====
-- The types of coerced values.
use pine_framework.Prelude.{
  ◌⊎◌, ◌≡◌, ap, sym, ◌∙◌, Option, some, Bool, true, false, string_eq, if-elim, arith, inl, inr,
  String, Option-cases,
}
use pine_framework.Language.Types.{
  PinePrimitiveKind, int, float, bool, string, color, PineType, primitive, na, name,
}
use pine_framework.Language.Types.Coercion.{
  PineValue, number, boolean, string_value, na_value, Host, CoercionResult, unwrap_series,
  parse_primitive_kind, coerce_to_int, coerce_to_float, coerce_to_bool, coerce_to_string,
  coerce_to_color, is_na_value, coerce_named, coerce,
}
use text.Mathlib.Text.{starts_with}

-- Whether a value is one of a primitive kind, by a test whether a number is whole.
abbrev pub is_of_kind {ℓ} : {N : Type ℓ} → (N → Bool) → PinePrimitiveKind → PineValue N → Bool
is_of_kind whole int (number x) = whole x
is_of_kind whole float (number x) = true
is_of_kind whole bool (boolean b) = true
is_of_kind whole string (string_value s) = true
is_of_kind whole color (string_value s) = starts_with s "#"
is_of_kind whole _ _ = false

module _ {N : Type 0} where
  -- The value is NA and has its type, or is one of the kind and has the kind's type.
  abbrev pub IsTyped : (N → Bool) → PinePrimitiveKind → CoercionResult N → Type 0
  IsTyped whole k r =
      ((r.value ≡ na_value) × (r.type ≡ na))
      ⊎ ((is_of_kind whole k r.value ≡ true) × (r.type ≡ primitive k))

  -- What the host's numbers give: `Math.trunc` and `parseInt` return whole numbers, and 0 and 1 are.
  pub record GivesWhole (host : Host N) (whole : N → Bool) : Type 0 where
    pub truncated : (x : N) → whole (host.trunc x) ≡ true
    pub parsed_int : (s : String) (x : N) → host.parse_int s ≡ some x → whole x ≡ true
    pub of_zero : whole host.zero ≡ true
    pub of_one : whole host.one ≡ true

module _ {N : Type 0} (host : Host N) (whole : N → Bool) where
  coerce_to_int-IsTyped :
      (v : PineValue N) (r : CoercionResult N)
      → GivesWhole host whole
      → coerce_to_int host v ≡ some r
      → (is_of_kind whole int r.value ≡ true) × (r.type ≡ primitive int)
  unfolding coerce_to_int
  coerce_to_int-IsTyped (number x) r w h = ground (arith, h, w.truncated x)
  coerce_to_int-IsTyped (boolean true) r w h = ground (arith, h, w.of_one)
  coerce_to_int-IsTyped (boolean false) r w h = ground (arith, h, w.of_zero)
  coerce_to_int-IsTyped (string_value s) r w h = elim (Option-cases (host.parse_int s)) [
    | inl missing ↦ ground (arith, h, missing)
    | inr (x, found) ↦ ground (arith, h, found, w.parsed_int s x found)
  ]
  coerce_to_int-IsTyped v r w h = ground (arith, h)

  coerce_named-IsTyped :
      (k : PinePrimitiveKind) (v : PineValue N) (t : PineType) (r : CoercionResult N)
      → GivesWhole host whole
      → coerce_named host (some k) v t ≡ some r
      → (is_of_kind whole k r.value ≡ true) × (r.type ≡ primitive k)
  unfolding coerce_named coerce_to_int coerce_to_float coerce_to_bool coerce_to_string
      coerce_to_color
  coerce_named-IsTyped int v t r w h = coerce_to_int-IsTyped v r w h
  coerce_named-IsTyped float v t r w h = ground (arith, h)
  coerce_named-IsTyped bool v t r w h = ground (arith, h)
  coerce_named-IsTyped string v t r w h = ground (arith, h)
  coerce_named-IsTyped color v t r w h = ground (arith, h)

  na_typed :
      (v : PineValue N) (r : CoercionResult N)
      → is_na_value v ≡ true
      → some (record { value = v; type = na }) ≡ some r
      → (r.value ≡ na_value) × (r.type ≡ na)
  na_typed v r e h = ground (arith, e, h)

  -- If Math.trunc and parseInt return whole numbers, and 0 and 1 are whole, then a coercion to a type whose
  -- base has the name of a primitive kind, if it succeeds, returns NA with its type, or a value of that kind
  -- with the kind's type; for int, that value is a whole number.
  pub coerce-IsTyped :
      (v : PineValue N) (t : PineType) (k : PinePrimitiveKind) (r : CoercionResult N)
      → GivesWhole host whole
      → parse_primitive_kind (name (unwrap_series t)) ≡ some k
      → coerce host v t ≡ some r
      → IsTyped whole k r
  unfolding coerce
  coerce-IsTyped v t k r w base h =
      if-elim (λ (o : Option (CoercionResult N)). o ≡ some r → IsTyped whole k r) (is_na_value v) _
        _ (λ e found. inl (na_typed v r e found))
        (λ e found. inr (
          coerce_named-IsTyped k v t r w
            (ap (λ (b : Option PinePrimitiveKind). coerce_named host b v t) (sym base) ∙ found)))
        h
