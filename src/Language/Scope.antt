-- ===== src/Language/Scope.antt =====
-- src/language/runtime/scope.ts. A scope is a frame of bindings and its parents, innermost first; the
-- series objects that the bindings share stand on a heap, by address.
pub mod Checkpoint
pub mod Clone
pub mod Growth
pub mod Steps
mod Names
pub mod Rollback
pub mod Tests
use pine_framework.Prelude.{
  ℕ, zero, suc, ◌+◌, ◌-◌, List, [], ◌∷◌, ◌++◌, map, Option, none, some, Bool, true, false, ◌||◌,
  ◌&&◌, String, string_eq, length, get_or, set, ltb, ◌==◌, if◌then◌else◌,
}
use pine_framework.Prelude.Int.{ℤ}
use pine_framework.Prelude.JsMap.{JsMap}
use pine_framework.Prelude.JsMap
use pine_framework.Language.Series.{Series}
use pine_framework.Language.Series

-- `T` is the type of `PineType` values, which this file only carries.
pub record VariableBinding {ℓ} (T : Type ℓ) : Type ℓ where
  pub name : String
  pub kind : T
  pub series : ℕ
  pub is_var : Bool
  pub is_varip : Bool
  pub is_const : Bool

abbrev pub Frame {ℓ} : Type ℓ → Type ℓ
Frame T = JsMap String (VariableBinding T)

abbrev pub Heap {ℓ} : Type ℓ → Type ℓ
Heap V = List (Series V)

-- The scope chain that a run works on, and the heap.
pub record Scopes {ℓ κ} (T : Type ℓ) (V : Type κ) : Type (ℓ ⊔ κ) where
  pub frames : List (Frame T)
  pub heap : Heap V

abbrev pub empty_series {ℓ} : {V : Type ℓ} → Series V
empty_series = record { values = [] }

module _ {ℓ} {V : Type ℓ} where
  abbrev pub at : Heap V → ℕ → Series V
  at heap a = get_or heap a empty_series

  abbrev pub push_at : Heap V → ℕ → V → Heap V
  push_at heap a v = set heap a (Series.push (at heap a) v)

module _ {ℓ} {T : Type ℓ} where
  -- The frame `depth` steps up the chain, and a chain with that frame replaced.
  abbrev pub frame_at : List (Frame T) → ℕ → Frame T
  frame_at frames depth = get_or frames depth []

  -- The innermost binding of the name, from a chain on.
  unfoldable pub resolve_variable : List (Frame T) → String → Option (VariableBinding T)
  resolve_variable [] name = none
  resolve_variable (frame ∷ parents) name = elim (JsMap.get frame name) [
    | none ↦ resolve_variable parents name
    | some binding ↦ some binding
  ]

module _ {ℓ κ} {T : Type ℓ} {V : Type κ} where
  -- `createRuntimeScope(parent)`.
  unfoldable pub create_scope : Scopes T V → Scopes T V
  create_scope s = record s { frames = [] ∷ s.frames }

  -- Declares in the frame at `depth`, with a new series.
  unfoldable pub declare_variable : Scopes T V → ℕ → String → T → Bool → Bool → Bool → Scopes T V
  declare_variable s depth name kind is_var is_varip is_const = record {
    frames = set s.frames depth (
        JsMap.set (frame_at s.frames depth) name (record {
          name = name;
          kind = kind;
          series = length s.heap;
          is_var = is_var;
          is_varip = is_varip;
          is_const = is_const;
        }));
    heap = s.heap ++ Series.create_series [] ∷ [];
  }

  -- `none` is the error that the variable is not defined.
  unfoldable pub set_variable_value : Scopes T V → String → V → Option (Scopes T V)
  set_variable_value s name v = elim (resolve_variable s.frames name) [
    | none ↦ none
    | some binding ↦ some (record s { heap = push_at s.heap binding.series v })
  ]

  unfoldable pub get_variable_value : V → Scopes T V → String → ℤ → Option V
  get_variable_value na s name offset = elim (resolve_variable s.frames name) [
    | none ↦ none
    | some binding ↦ some (Series.get_relative na (at s.heap binding.series) offset)
  ]

  -- `var` and `varip` variables start a bar with their last value.
  unfoldable pub push_binding : V → Heap V → VariableBinding T → Heap V
  push_binding na heap b =
      if (b.is_var || b.is_varip) && ltb 0 (length (at heap b.series).values)
      then push_at heap b.series (Series.last na (at heap b.series))
      else heap

  unfoldable pub push_bindings : V → Heap V → Frame T → Heap V
  push_bindings na heap [] = heap
  push_bindings na heap ((name, b) ∷ rest) = push_bindings na (push_binding na heap b) rest

  unfoldable pub push_bar_values : V → Scopes T V → ℕ → Scopes T V
  push_bar_values na s depth = record s { heap = push_bindings na s.heap (frame_at s.frames depth) }
