-- ===== src/Language/Types/Common.antt =====
-- The common type of two operands, and what may be assigned to it.
use pine_framework.Prelude.{
  ◌≡◌, refl, sym, subst, ◌∙◌, Option, none, some, Bool, true, false, ◌&&◌, ◌||◌, string_eq, ◌===◌,
  eq_of_===, if◌then◌else◌, if-elim, arith,
}
use pine_framework.Language.Types.{
  int, float, PineType, primitive, series, any, name, is_series, is_any, is_na, equals,
}
use pine_framework.Language.Types.Coercion.{
  unwrap_series, with_series, is_numeric, promote_numeric, get_common_type, is_assignable,
}
use pine_framework.Language.Types.Names.{is_proper, equals-unwrap_series}

-- Whether both operands may be assigned to the type.
abbrev pub IsUpper : PineType → PineType → PineType → Type 0
IsUpper l r t = (is_assignable l t ≡ true) × (is_assignable r t ≡ true)

assignable_by_name :
    (s t : PineType) → name (unwrap_series s) ≡ name (unwrap_series t) → is_assignable s t ≡ true
unfolding is_assignable
assignable_by_name s t h =
    ground (arith, (string_eq.beq_iff (name (unwrap_series s)) (name (unwrap_series t))).1 h)

assignable_na : (s t : PineType) → (is_na s || is_na t) ≡ true → is_assignable s t ≡ true
unfolding is_assignable
assignable_na s t h = ground (arith, h)

assignable_numeric :
    (s t : PineType)
    → is_numeric (unwrap_series s) ≡ true
    → is_numeric (unwrap_series t) ≡ true
    → is_assignable s t ≡ true
unfolding is_assignable
assignable_numeric s t h k = ground (arith, h, k)

-- The series copy of a base type has its name.
name-with_series :
    (t : PineType) → is_proper (series t) ≡ true → name (unwrap_series (with_series t)) ≡ name t
unfolding with_series name
name-with_series t h = ground (arith, h)

is_numeric-promote : (s t : PineType) → is_numeric (unwrap_series (promote_numeric s t)) ≡ true
unfolding is_numeric promote_numeric name
is_numeric-promote s t =
    if-elim (λ u. is_numeric (unwrap_series u) ≡ true) (name s === "float" || name t === "float")
      (primitive float) (primitive int) (λ e. refl) (λ e. refl)

is_numeric-with_series_promote :
    (s t : PineType) → is_numeric (unwrap_series (with_series (promote_numeric s t))) ≡ true
unfolding is_numeric promote_numeric with_series name
is_numeric-with_series_promote s t =
    if-elim (λ u. is_numeric (unwrap_series (with_series u)) ≡ true)
      (name s === "float" || name t === "float") (primitive float) (primitive int) (λ e. refl)
      (λ e. refl)

proper_base : (t : PineType) → is_proper t ≡ true → is_proper (series (unwrap_series t)) ≡ true
proper_base t h = ground (arith, h)

unwrapped_name :
    (t : PineType)
    → is_proper t ≡ true
    → name (unwrap_series t) ≡ name (unwrap_series (unwrap_series t))
unfolding name
unwrapped_name t h = ground (arith, h)

-- Both operands, by the names of their bases.
named-IsUpper :
    (l r t : PineType)
    → name (unwrap_series l) ≡ name (unwrap_series t)
    → name (unwrap_series r) ≡ name (unwrap_series t)
    → IsUpper l r t
named-IsUpper l r t e e' = (assignable_by_name l t e, assignable_by_name r t e')

numeric-IsUpper :
    (l r t : PineType)
    → (is_numeric (unwrap_series l) && is_numeric (unwrap_series r)) ≡ true
    → is_numeric (unwrap_series t) ≡ true
    → IsUpper l r t
numeric-IsUpper l r t h k =
    (assignable_numeric l t (ground (arith, h)) k, assignable_numeric r t (ground (arith, h)) k)

any-IsUpper : (l r : PineType) → IsUpper l r any
unfolding is_assignable
any-IsUpper l r = (refl, refl)

na-IsUpper : (l r : PineType) → (is_na l || is_na r) ≡ true → IsUpper l r (if is_na l then r else l)
na-IsUpper l r h =
    if-elim (IsUpper l r) (is_na l) r l
      (λ e. (assignable_na l r (ground (arith, e)), assignable_by_name r r refl))
      (λ e. (assignable_by_name l l refl, assignable_na r l (ground (arith, e, h))))

same_base-IsUpper :
    (l r t : PineType)
    → name (unwrap_series l) ≡ name (unwrap_series r)
    → name (unwrap_series l) ≡ name (unwrap_series t)
    → IsUpper l r t
same_base-IsUpper l r t e k = named-IsUpper l r t k (sym e ∙ k)

-- The result, if there is one, takes both.
abbrev IsUpperOf : PineType → PineType → Option PineType → Type 0
IsUpperOf l r o = (t : PineType) → o ≡ some t → IsUpper l r t

some_inj : (t u : PineType) → some t ≡ some u → t ≡ u
some_inj t u e = cc

some-IsUpperOf : (l r t : PineType) → IsUpper l r t → IsUpperOf l r (some t)
some-IsUpperOf l r t h u e = subst (IsUpper l r) (some_inj t u e) h

numbers-IsUpperOf :
    (l r : PineType) (in_series : Bool)
    → (is_numeric (unwrap_series l) && is_numeric (unwrap_series r)) ≡ true
    → let promoted = promote_numeric (unwrap_series l) (unwrap_series r) in
      IsUpperOf l r (some (if in_series then with_series promoted else promoted))
numbers-IsUpperOf l r true h =
    some-IsUpperOf l r (with_series (promote_numeric (unwrap_series l) (unwrap_series r)))
      (numeric-IsUpper l r _ h (is_numeric-with_series_promote (unwrap_series l) (unwrap_series r)))
numbers-IsUpperOf l r false h =
    some-IsUpperOf l r (promote_numeric (unwrap_series l) (unwrap_series r))
      (numeric-IsUpper l r _ h (is_numeric-promote (unwrap_series l) (unwrap_series r)))

-- The branches for bases of the same name, and for no common type.
bases-IsUpperOf :
    (l r : PineType)
    → is_proper l ≡ true
    → let base = unwrap_series l in
      IsUpperOf l r (
        if name base === name (unwrap_series r)
        then some (if is_series l || is_series r then with_series base else base)
        else none)
bases-IsUpperOf l r p =
    let base = unwrap_series l in
    if-elim (IsUpperOf l r) (name base === name (unwrap_series r)) _ none
      (λ e.
        let same = eq_of_=== (name base) (name (unwrap_series r)) e in
        some-IsUpperOf l r _ (
          if-elim (IsUpper l r) (is_series l || is_series r) (with_series base) base
            (λ e'.
              same_base-IsUpper l r (with_series base) same
                (sym (name-with_series base (proper_base l p))))
            (λ e'. same_base-IsUpper l r base same (unwrapped_name l p))))
      (λ e t h. ground (arith, h))

-- If getCommonType finds a common type of two types, neither of which is a series of a series or a copy of a
-- series, then both operands may be assigned to it.
pub get_common_type-IsUpper :
    (l r t : PineType)
    → is_proper l ≡ true
    → is_proper r ≡ true
    → get_common_type l r ≡ some t
    → IsUpper l r t
unfolding get_common_type
get_common_type-IsUpper l r t p q =
    let lb = unwrap_series l in
    let rb = unwrap_series r in
    if-elim (IsUpperOf l r) (equals l r) _ _
      (λ e. some-IsUpperOf l r l (named-IsUpper l r l refl (sym (equals-unwrap_series l r p e))))
      (λ e.
        if-elim (IsUpperOf l r) (is_na l || is_na r) _ _
          (λ e1. some-IsUpperOf l r (if is_na l then r else l) (na-IsUpper l r e1))
          (λ e1.
            if-elim (IsUpperOf l r) (is_any l || is_any r) _ _
              (λ e2. some-IsUpperOf l r any (any-IsUpper l r))
              (λ e2.
                if-elim (IsUpperOf l r) (is_numeric lb && is_numeric rb) _ _
                  (λ e3. numbers-IsUpperOf l r (is_series l || is_series r) e3)
                  (λ e3. bases-IsUpperOf l r p))))
      t
