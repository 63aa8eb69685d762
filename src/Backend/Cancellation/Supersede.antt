-- ===== src/Backend/Cancellation/Supersede.antt =====
-- Tokens of the same and of other names.
use pine_framework.Prelude.{
  ℕ, zero, suc, ◌<◌, ◌≡◌, List, [], ◌∷◌, ◌++◌, none, some, Bool, true, false, String, string_eq,
  ◌==◌, if◌then◌else◌, length, set, get_elem?, length-set, arith,
}
use pine_framework.Prelude.JsMap.{JsMap, get-set, get-delete_self, Distinct, Distinct-set}
use pine_framework.Prelude.JsMap
use pine_framework.Backend.Cancellation.{
  CancellationRegistry, is_cancelled, flag_token, create, get, cancel, remove,
}

get_elem-append :
    (xs : List Bool) (v : Bool) (i : ℕ)
    → get_elem? (xs ++ v ∷ []) i ≡ (if i == length xs then some v else get_elem? xs i)
get_elem-append [] v zero = ground arith
get_elem-append [] v (suc i) = ground arith
get_elem-append (x ∷ xs) v zero = ground arith
get_elem-append (x ∷ xs) v (suc i) = ground (arith, get_elem-append xs v i)

get_elem-set :
    (xs : List Bool) (j : ℕ) (v : Bool) (i : ℕ)
    → j < length xs
    → get_elem? (set xs j v) i ≡ (if i == j then some v else get_elem? xs i)
get_elem-set [] j v i h = absurd (omega arith)
get_elem-set (x ∷ xs) zero v zero h = ground arith
get_elem-set (x ∷ xs) zero v (suc i) h = ground arith
get_elem-set (x ∷ xs) (suc j) v zero h = ground arith
get_elem-set (x ∷ xs) (suc j) v (suc i) h = ground (arith, get_elem-set xs j v i)

get_elem-last : (xs : List Bool) (v : Bool) → get_elem? (xs ++ v ∷ []) (length xs) ≡ some v
get_elem-last xs v = ground (arith, get_elem-append xs v (length xs))

get-create :
    (r : CancellationRegistry) (id : String) → get (create r id).0 id ≡ some (create r id).1
unfolding create get
get-create r id = ground (arith, get-set r.tokens id (create r id).1 id, string_eq.beq_iff id id)

create_flags :
    (r : CancellationRegistry) (id : String) (old token : ℕ)
    → JsMap.get r.tokens id ≡ some old
    → old < length r.flags
    → token < length r.flags
    → is_cancelled (create r id).0 token
      ≡ (if token == old then some true else is_cancelled r token)
unfolding create
create_flags r id old token e h k = ground (
  arith,
  e,
  k,
  get_elem-append (set r.flags old true) false token,
  length-set r.flags old true,
  get_elem-set r.flags old true token h,
)

-- If a name has a token that is in the store, then after `create` the name has the new token, which is
-- not cancelled; the old one is cancelled, and no other token in the store changes.
pub create_lem :
    (r : CancellationRegistry) (id : String) (old token : ℕ)
    → JsMap.get r.tokens id ≡ some old
    → old < length r.flags
    → token < length r.flags
    → let (r', new) = create r id in
      (get r' id ≡ some new)
      × (is_cancelled r' new ≡ some false)
      × (is_cancelled r' token ≡ (if token == old then some true else is_cancelled r token))
unfolding create
create_lem r id old token e h k = (
  get-create r id,
  get_elem-last (flag_token (JsMap.get r.tokens id) r.flags) false,
  create_flags r id old token e h k,
)

created :
    (r : CancellationRegistry) (id : String) → Distinct r.tokens → Distinct (create r id).0.tokens
unfolding create
created r id d = Distinct-set r.tokens id (length (flag_token (JsMap.get r.tokens id) r.flags)) d

removed :
    (r : CancellationRegistry) (id : String)
    → Distinct r.tokens
    → get (remove (create r id).0 id) id ≡ none
unfolding get remove
removed r id d = get-delete_self (create r id).0.tokens id (created r id d)

uncancelled :
    (r : CancellationRegistry) (id : String)
    → get (remove (create r id).0 id) id ≡ none
    → is_cancelled (cancel (remove (create r id).0 id) id) (create r id).1 ≡ some false
unfolding get remove cancel create
uncancelled r id e = rw e (get_elem-last (flag_token (JsMap.get r.tokens id) r.flags) false)

-- In a registry with distinct names, if the run that a new one of the same name superseded ends and
-- removes the name, then the token of the new run is found under it no more, and to cancel the name
-- leaves that token as it is, not cancelled.
pub cancel-remove :
    (r : CancellationRegistry) (id : String)
    → Distinct r.tokens
    → let first = (create r id).0 in
      let (second, b) = create first id in
      (get (remove second id) id ≡ none)
      × (is_cancelled (cancel (remove second id) id) b ≡ some false)
cancel-remove r id d = (gone, still)
  where
    first : CancellationRegistry
    first = (create r id).0

    second : CancellationRegistry
    second = (create first id).0

    gone : get (remove second id) id ≡ none
    gone = removed first id (created r id d)

    still : is_cancelled (cancel (remove second id) id) (create first id).1 ≡ some false
    still = uncancelled first id gone
