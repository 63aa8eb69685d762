-- ===== src/Trading/Scheduler/Lock.antt =====
-- src/trading/scheduler.ts, the class Mutex. A waiting caller is named by a number in place of the
-- `resolve` function of its promise.
use pine_framework.Prelude.{
  ℕ, ◌≡◌, refl, sym, ap, ◌∙◌, List, [], ◌∷◌, ◌++◌, Option, none, some, Bool, true, false,
  if◌then◌else◌, arith, append_nil, append_assoc,
}

pub record Mutex : Type 0 where
  pub locked : Bool
  pub queue : List ℕ

abbrev pub new_mutex : Mutex
new_mutex = record { locked = false; queue = [] }

-- True if the caller has the mutex at once.
unfoldable pub acquire : Mutex → ℕ → Mutex × Bool
acquire m caller =
    if m.locked
    then (record m { queue = m.queue ++ caller ∷ [] }, false)
    else (record m { locked = true }, true)

-- The caller that is woken, if one waits; the mutex stays locked for it.
unfoldable pub release : Mutex → Mutex × Option ℕ
release m = elim m.queue [
  | [] ↦ (record m { locked = false }, none)
  | next ∷ rest ↦ (record m { queue = rest }, some next)
]

pub data Event : Type 0 where
  asks : ℕ → Event
  leaves : Event

-- The mutex with its caller inside, and the callers let in so far in order.
pub record Room : Type 0 where
  pub mutex : Mutex
  pub inside : Option ℕ
  pub entered : List ℕ

abbrev pub empty_room : Room
empty_room = record { mutex = new_mutex; inside = none; entered = [] }

abbrev pub let_in : Mutex → ℕ → List ℕ → Room
let_in m caller entered = record {
  mutex = m;
  inside = some caller;
  entered = entered ++ caller ∷ [];
}

abbrev pub ask : Room → Mutex × Bool → ℕ → Room
ask r (m, true) caller = let_in m caller r.entered
ask r (m, false) caller = record r { mutex = m }

abbrev pub wake : Room → Mutex × Option ℕ → Room
wake r (m, some caller) = let_in m caller r.entered
wake r (m, none) = record r { mutex = m; inside = none }

-- `runExclusive`: only the caller inside releases.
unfoldable pub step : Event → Room → Room
step (asks caller) r = ask r (acquire r.mutex caller) caller
step leaves r = elim r.inside [ none ↦ r | some caller ↦ wake r (release r.mutex) ]

unfoldable pub run : List Event → Room → Room
run [] r = r
run (e ∷ es) r = run es (step e r)

abbrev pub is_some : Option ℕ → Bool
is_some none = false
is_some (some caller) = true

abbrev pub asked : List Event → List ℕ
asked [] = []
asked (asks caller ∷ es) = caller ∷ asked es
asked (leaves ∷ es) = asked es

-- Locked exactly while a caller is inside, and nobody waits at an open mutex.
pub record IsFair (r : Room) : Type 0 where
  pub locked_inside : r.mutex.locked ≡ is_some r.inside
  pub no_idle_wait : r.inside ≡ none → r.mutex.queue ≡ []

-- Everybody who asked, in order: first those let in, then those who wait.
abbrev pub line : Room → List ℕ
line r = r.entered ++ r.mutex.queue

abbrev room : Bool → List ℕ → Option ℕ → List ℕ → Room
room locked queue inside entered = record {
  mutex = record { locked = locked; queue = queue };
  inside = inside;
  entered = entered;
}

asks-IsFair :
    (caller : ℕ) (locked : Bool) (queue entered : List ℕ) (inside : Option ℕ)
    → let r = room locked queue inside entered in
      IsFair r
      → IsFair (step (asks caller) r) × (line (step (asks caller) r) ≡ line r ++ caller ∷ [])
unfolding step acquire
asks-IsFair caller true queue entered none h = ground (arith, h.locked_inside)
asks-IsFair caller true queue entered (some c) h = (
  record { locked_inside = refl; no_idle_wait = λ e. ground (arith, e) },
  sym (append_assoc entered queue (caller ∷ [])),
)
asks-IsFair caller false queue entered none h = (
  record { locked_inside = refl; no_idle_wait = λ e. ground (arith, e) },
  ap (λ q. (entered ++ caller ∷ []) ++ q) (h.no_idle_wait refl)
      ∙ append_nil (entered ++ caller ∷ [])
      ∙ ap (λ q. q ++ caller ∷ [])
          (sym (ap (◌++◌ entered) (h.no_idle_wait refl) ∙ append_nil entered)),
)
asks-IsFair caller false queue entered (some c) h = ground (arith, h.locked_inside)

leaves-IsFair :
    (locked : Bool) (queue entered : List ℕ) (inside : Option ℕ)
    → let r = room locked queue inside entered in
      IsFair r → IsFair (step leaves r) × (line (step leaves r) ≡ line r)
unfolding step release
leaves-IsFair locked queue entered none h = (h, refl)
leaves-IsFair locked [] entered (some c) h =
    (record { locked_inside = refl; no_idle_wait = λ e. refl }, refl)
leaves-IsFair locked (next ∷ rest) entered (some c) h = (
  record { locked_inside = h.locked_inside; no_idle_wait = λ e. ground (arith, e) },
  append_assoc entered (next ∷ []) rest,
)

run-IsFair :
    (es : List Event) (r : Room)
    → IsFair r
    → IsFair (run es r) × (line (run es r) ≡ line r ++ asked es)
unfolding run
run-IsFair [] r h = (h, sym (append_nil (line r)))
run-IsFair (asks caller ∷ es) r h =
    let (fair, moved) = asks-IsFair caller r.mutex.locked r.mutex.queue r.entered r.inside h in
    let (k, e) = run-IsFair es (step (asks caller) r) fair in
    (k, e ∙ ap (λ q. q ++ asked es) moved ∙ append_assoc (line r) (caller ∷ []) (asked es))
run-IsFair (leaves ∷ es) r h =
    let (fair, moved) = leaves-IsFair r.mutex.locked r.mutex.queue r.entered r.inside h in
    let (k, e) = run-IsFair es (step leaves r) fair in (k, e ∙ ap (λ q. q ++ asked es) moved)

nobody_waits :
    (r : Room) → IsFair r → r.mutex.queue ≡ (if is_some r.inside then r.mutex.queue else [])
nobody_waits r h = elim-inside r.inside refl
  where
    elim-inside :
        (inside : Option ℕ)
        → r.inside ≡ inside
        → r.mutex.queue ≡ (if is_some inside then r.mutex.queue else [])
    elim-inside none e = h.no_idle_wait e
    elim-inside (some c) e = refl

-- Along every run of callers that ask and leave, the mutex is locked exactly while a caller is inside,
-- nobody waits for it while nobody is inside, and the callers are let in in the order they asked.
pub run_lem :
    (es : List Event)
    → let r = run es empty_room in
      (r.mutex.locked ≡ is_some r.inside)
      × (r.mutex.queue ≡ (if is_some r.inside then r.mutex.queue else []))
      × (r.entered ++ r.mutex.queue ≡ asked es)
run_lem es =
    let (k, e) =
      run-IsFair es empty_room (record { locked_inside = refl; no_idle_wait = λ e. refl }) in
    (k.locked_inside, nobody_waits (run es empty_room) k, e)
