-- ===== src/Trading/StateMachine.antt =====
-- src/trading/state-machine.ts and the bot's states of src/trading/types.ts. `Date.now()` is an
-- argument. A guard is read once for each transition. `transition` is the call that no other call
-- interrupts, in one step, its awaits included; `Overlap` has the parts of the source's asynchronous
-- function before its guards are awaited and after, between which other calls may run.
pub mod History
pub mod Moves
pub mod Bot
pub mod Overlap
pub mod Tests
use pine_framework.Prelude.{
  ℕ, ◌+◌, ◌-◌, List, [], ◌∷◌, ◌++◌, Option, none, some, Bool, true, false, String, Eq, ◌===◌, ltb,
  leb, if◌then◌else◌, length, drop,
}

pub record StateTransition {ℓ} (S : Type ℓ) : Type ℓ where
  pub from : S
  pub to : S
  pub reason : String
  pub timestamp : ℕ

pub record Change {ℓ} (S : Type ℓ) : Type ℓ where
  pub from : S
  pub to : S
  pub reason : String

-- What a guard returns: a Boolean, or a promise of one.
pub data GuardResult : Type 0 where
  settled : Bool → GuardResult
  promise : Bool → GuardResult

abbrev pub verdict : GuardResult → Bool
verdict (settled b) = b
verdict (promise b) = b

abbrev pub Guard {ℓ} : Type ℓ → Type ℓ
Guard S = S → S → GuardResult

-- `transitions` gives the allowed set of a state, if it has one; `observed` says that there is an
-- `onChange`; the history's oldest entry is first.
pub record StateMachine {ℓ} (S : Type ℓ) : Type ℓ where
  pub state : S
  pub transitions : S → Option (List S)
  pub guards : List (Guard S)
  pub observed : Bool
  pub history : List (StateTransition S)
  pub max_history : ℕ

pub data Answer : Type 0 where
  moved : Answer
  vetoed : Answer
  invalid_transition : Answer
  async_guard : Answer

-- The machine after a call, the call's answer, and what `onChange` was told.
pub record Outcome {ℓ} (S : Type ℓ) : Type ℓ where
  pub machine : StateMachine S
  pub answer : Answer
  pub told : List (Change S)

module _ {ℓ} {S : Type ℓ} where
  abbrev pub told_of : Bool → S → S → String → List (Change S)
  told_of true from to reason = record { from = from; to = to; reason = reason } ∷ []
  told_of false from to reason = []

  -- `splice(0, length - max)` on a history that is too long.
  unfoldable pub trim : ℕ → List (StateTransition S) → List (StateTransition S)
  trim most history =
      if ltb most (length history) then drop (length history - most) history else history

  unfoldable pub record_move : StateMachine S → S → String → ℕ → List (StateTransition S)
  record_move m to reason now =
      m.history ++ record { from = m.state; to = to; reason = reason; timestamp = now } ∷ []

  -- The end of `transition`, and of `transitionSync`, which does not trim.
  unfoldable pub commit : StateMachine S → S → String → ℕ → Outcome S
  unfolding trim record_move
  commit m to reason now = record {
    machine = record m { state = to; history = trim m.max_history (record_move m to reason now) };
    answer = moved;
    told = told_of m.observed m.state to reason;
  }

  unfoldable pub commit_sync : StateMachine S → S → String → ℕ → Outcome S
  unfolding record_move
  commit_sync m to reason now = record {
    machine = record m { state = to; history = record_move m to reason now };
    answer = moved;
    told = told_of m.observed m.state to reason;
  }

  abbrev pub refused : StateMachine S → Answer → Outcome S
  refused m a = record { machine = m; answer = a; told = [] }

  -- `await guard(from, to)` for each guard; the first that says no ends the loop.
  unfoldable pub guards_allow : List (Guard S) → S → S → Bool
  guards_allow [] from to = true
  guards_allow (g ∷ gs) from to = if verdict (g from to) then guards_allow gs from to else false

  -- The loop of `transitionSync`: `none` when every guard agreed.
  unfoldable pub guards_sync : List (Guard S) → S → S → Option Answer
  guards_sync [] from to = none
  guards_sync (g ∷ gs) from to = elim (g from to) [
    | promise b ↦ some async_guard
    | settled true ↦ guards_sync gs from to
    | settled false ↦ some vetoed
  ]

module _ {ℓ} {S : Type ℓ} ⦃e : Eq S⦄ where
  abbrev pub contains : List S → S → Bool
  contains [] x = false
  contains (y ∷ ys) x = if y === x then true else contains ys x

  -- `allowed && allowed.has(to)`.
  abbrev pub allows : Option (List S) → S → Bool
  allows none to = false
  allows (some allowed) to = contains allowed to

  unfoldable pub can_transition_to : StateMachine S → S → Bool
  can_transition_to m to = allows (m.transitions m.state) to

  unfoldable pub is_in : StateMachine S → S → Bool
  is_in m state = m.state === state

  -- `await this.transition(...)` while no other call of the machine runs.
  unfoldable pub transition : StateMachine S → S → String → ℕ → Outcome S
  unfolding commit guards_allow
  transition m to reason now =
      if allows (m.transitions m.state) to
      then (if guards_allow m.guards m.state to then commit m to reason now else refused m vetoed)
      else refused m invalid_transition

  unfoldable pub after_guards : StateMachine S → S → String → ℕ → Option Answer → Outcome S
  unfolding commit_sync
  after_guards m to reason now none = commit_sync m to reason now
  after_guards m to reason now (some a) = refused m a

  unfoldable pub transition_sync : StateMachine S → S → String → ℕ → Outcome S
  unfolding after_guards guards_sync
  transition_sync m to reason now =
      if allows (m.transitions m.state) to
      then after_guards m to reason now (guards_sync m.guards m.state to)
      else refused m invalid_transition

module _ {ℓ} {S : Type ℓ} where
  -- Sets the state whatever the transition map says, and neither trims nor tells anyone.
  unfoldable pub reset : StateMachine S → S → String → ℕ → StateMachine S
  unfolding record_move
  reset m new_state reason now = record m {
    state = new_state;
    history = record_move m new_state reason now;
  }

  abbrev pub last_of : List (StateTransition S) → Option (StateTransition S)
  last_of [] = none
  last_of (t ∷ []) = some t
  last_of (t ∷ u ∷ rest) = last_of (u ∷ rest)

  unfoldable pub last_transition : StateMachine S → Option (StateTransition S)
  last_transition m = last_of m.history
