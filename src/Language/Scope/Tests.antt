-- ===== src/Language/Scope/Tests.antt =====
-- Runs of checkpoints and rollbacks at concrete inputs.
use pine_framework.Prelude.{
  ℕ, ◌≡◌, refl, [], ◌∷◌, Option, none, some, arith, true, false, String, string_eq,
}
use pine_framework.Prelude.Int.{ℤ, pos}
use pine_framework.Prelude.JsMap
use pine_framework.Language.Series
use pine_framework.Language.Scope.{
  Scopes, declare_variable, resolve_variable, set_variable_value, get_variable_value, push_binding,
  push_bindings, push_bar_values,
}
use pine_framework.Language.Scope.Checkpoint.{
  checkpoint_scope, checkpoint_frames, frame_entries, restore_scope_checkpoint, restore_frames,
  restore_frame, restore_entries, drop_unknown,
}
use pine_framework.Language.Scope.Steps.{Steps, here, next, declares, assigns, starts_bar}
use pine_framework.Language.Scope.Rollback
use pine_framework.Language.Scope.Clone.{
  clone_binding, clone_frame, clone_frames, clone_runtime_scope,
}
use pine_framework.Language.Scope.Clone.Copies

abbrev empty : Scopes (Unit {0}) ℕ
empty = record { frames = [] ∷ []; heap = [] }

-- `var count = 4` in the global scope.
abbrev counted : Scopes (Unit {0}) ℕ
counted = record {
  frames =
      JsMap.set [] "count" (record {
        name = "count";
        kind = tt;
        series = 0;
        is_var = true;
        is_varip = false;
        is_const = false;
      })
      ∷ [];
  heap = record { values = 4 ∷ [] } ∷ [];
}

-- A bar starts, `count` is set to 5, and `fresh` is declared.
abbrev later : Scopes (Unit {0}) ℕ
later =
    declare_variable
      (record (push_bar_values 0 counted 0) { heap = record { values = 4 ∷ 4 ∷ 5 ∷ [] } ∷ [] }) 0
      "fresh" tt false false false

counted-Steps : Steps 0 counted later
unfolding push_bar_values push_bindings push_binding Series.last Series.last_or_default
    set_variable_value resolve_variable JsMap.get JsMap.set JsMap.has Series.push
counted-Steps =
    next (next (next here (starts_bar 0)) (assigns "count" 5 refl))
      (declares 0 "fresh" tt false false false refl)

restore-checkpoint_example :
    (r : Scopes (Unit {0}) ℕ) × (restore_scope_checkpoint (checkpoint_scope counted) later ≡ some r)
    × (r.frames ≡ counted.frames)
    × ((name : String) (offset : ℤ)
        → get_variable_value 0 r name offset ≡ get_variable_value 0 counted name offset)
unfolding JsMap.set JsMap.has
restore-checkpoint_example = Rollback.restore-checkpoint 0 ((refl, tt), tt) counted-Steps

-- A name that is declared a second time after the checkpoint keeps its new series.
abbrev redeclared : Scopes (Unit {0}) ℕ
redeclared = declare_variable counted 0 "count" tt true false false

abbrev read_back : Option (Scopes (Unit {0}) ℕ) → Option ℕ
read_back none = none
read_back (some s) = get_variable_value 0 s "count" (pos 0)

redeclared_lost :
    (read_back (some counted) ≡ some 4)
    × (read_back (restore_scope_checkpoint (checkpoint_scope counted) redeclared) ≡ some 0)
unfolding declare_variable get_variable_value resolve_variable JsMap.get JsMap.set JsMap.delete
    JsMap.has restore_scope_checkpoint restore_frames restore_frame restore_entries drop_unknown
    checkpoint_scope checkpoint_frames frame_entries Series.get_relative Series.create_series
redeclared_lost = (refl, refl)

-- An assignment of 9 in a copy.
abbrev assigned : Scopes (Unit {0}) ℕ
assigned = record (clone_runtime_scope counted) {
  heap = record { values = 4 ∷ [] } ∷ record { values = 4 ∷ 9 ∷ [] } ∷ [];
}

clone_runtime_scope-reads_example :
    (get_variable_value 0 (clone_runtime_scope counted) "count" (pos 0)
      ≡ get_variable_value 0 counted "count" (pos 0))
    × (get_variable_value 0
          (record { frames = counted.frames; heap = assigned.heap })
          "count"
          (pos 0)
        ≡ get_variable_value 0 counted "count" (pos 0))
unfolding clone_runtime_scope clone_frames clone_frame clone_binding Series.create_series JsMap.set
    JsMap.has JsMap.get resolve_variable set_variable_value Series.push
clone_runtime_scope-reads_example =
    Copies.clone_runtime_scope-reads 0 counted "count" 9 assigned "count" (pos 0)
      ((omega arith, tt), tt) refl
