-- ===== src/Trading/Capital/Dust.antt =====
-- Handing out the units that flooring left over.
use pine_framework.Prelude.{
  ℕ, zero, suc, ◌+◌, ◌*◌, ◌≤◌, ◌≡◌, refl, List, [], ◌∷◌, none, some, Bool, true, false, String,
  string_eq, ◌===◌, if◌then◌else◌, length, arith, map,
}
use pine_framework.Prelude.JsMap.{JsMap, get-set, has-set, set_absent, has_of_get}
use pine_framework.Prelude.JsMap
use pine_framework.Trading.Capital.{Share, amount_of, give_dust, set_floors, floor_sum}

abbrev pub ids : List Share → List String
ids = map λ s. s.id

abbrev pub contains : List String → String → Bool
contains [] k = false
contains (x ∷ xs) k = if x === k then true else contains xs k

abbrev pub NoRepeat : List String → Type 0
NoRepeat [] = Unit {0}
NoRepeat (x ∷ xs) = (contains xs x ≡ false) × NoRepeat xs

-- The money in a map.
abbrev pub paid : JsMap String ℕ → ℕ
paid [] = 0
paid ((id, v) ∷ m) = v + paid m

paid-set :
    (m : JsMap String ℕ) (id : String) (v : ℕ)
    → paid (JsMap.set m id v) + amount_of m id ≡ paid m + v
unfolding JsMap.set JsMap.get
paid-set [] id v = omega arith
paid-set ((j, w) ∷ m) id v = ground (arith, paid-set m id v)

amount_none : (m : JsMap String ℕ) (id : String) → JsMap.get m id ≡ none → amount_of m id ≡ 0
amount_none m id e = ground arith

-- Each unit of dust that is handed out is added to what is paid.
pub paid-give_dust :
    (unit n : ℕ) (order : List Share) (m : JsMap String ℕ)
    → n ≤ length order
    → (r : JsMap String ℕ) × (give_dust unit n order m ≡ some r) × (paid r ≡ paid m + n * unit)
unfolding give_dust
paid-give_dust unit zero order m h = (m, refl, omega arith)
paid-give_dust unit (suc n) [] m h = absurd (omega arith)
paid-give_dust unit (suc n) (s ∷ order) m h =
    let m' = JsMap.set m s.id (amount_of m s.id + unit) in
    let (r, e, p) = paid-give_dust unit n order m' (omega arith) in
    (r, e, omega (arith, p, paid-set m s.id (amount_of m s.id + unit)))

-- With distinct names the floors are paid one beside the other.
pub paid-set_floors :
    (unit : ℕ) (ss : List Share) (m : JsMap String ℕ)
    → NoRepeat (ids ss)
    → ((id : String) → contains (ids ss) id ≡ true → JsMap.get m id ≡ none)
    → paid (set_floors unit ss m) ≡ paid m + floor_sum ss * unit
unfolding set_floors
paid-set_floors unit [] m d fresh = omega arith
paid-set_floors unit (s ∷ ss) m d fresh =
    let m' = JsMap.set m s.id (s.floor_units * unit) in
    let later : (id : String) → contains (ids ss) id ≡ true → JsMap.get m' id ≡ none = λ id h.
      ground (
        arith,
        get-set m s.id (s.floor_units * unit) id,
        d.0,
        fresh id,
        string_eq.beq_iff s.id id,
      ) in
    let new : JsMap.get m s.id ≡ none = fresh s.id (ground (arith, string_eq.beq_iff s.id s.id)) in
    let first : paid m' ≡ paid m + s.floor_units * unit =
      omega (arith, paid-set m s.id (s.floor_units * unit), amount_none m s.id new) in
    omega (arith, paid-set_floors unit ss m' d.1 later, first)
