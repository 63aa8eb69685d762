-- ===== src/Language/Scope/Clone.antt =====
-- `cloneRuntimeScope` of src/language/runtime/scope.ts: a copy of a scope with its parents and series.
pub mod Heaps
pub mod Copies
use pine_framework.Prelude.{List, [], ◌∷◌, ◌++◌, String, length}
use pine_framework.Language.Series
use pine_framework.Language.Scope.{Scopes, Frame, Heap, VariableBinding, at}

module _ {ℓ κ} {T : Type ℓ} {V : Type κ} where
  -- The binding with a new series of the same values.
  unfoldable pub clone_binding : Heap V → VariableBinding T → VariableBinding T × Heap V
  clone_binding heap b = (
    record b { series = length heap },
    heap ++ Series.create_series (at heap b.series).values ∷ [],
  )

  -- The names of a frame are distinct, so that each is new to the copy.
  unfoldable pub clone_frame : Heap V → Frame T → Frame T × Heap V
  unfolding clone_binding
  clone_frame heap [] = ([], heap)
  clone_frame heap ((name, b) ∷ rest) =
      let (b', heap') = clone_binding heap b in
      let (rest', heap'') = clone_frame heap' rest in ((name, b') ∷ rest', heap'')

  -- The parents are copied first.
  unfoldable pub clone_frames : Heap V → List (Frame T) → List (Frame T) × Heap V
  unfolding clone_frame
  clone_frames heap [] = ([], heap)
  clone_frames heap (frame ∷ parents) =
      let (parents', heap') = clone_frames heap parents in
      let (frame', heap'') = clone_frame heap' frame in (frame' ∷ parents', heap'')

  -- The copy; the original stays on the heap.
  unfoldable pub clone_runtime_scope : Scopes T V → Scopes T V
  unfolding clone_frames
  clone_runtime_scope s =
      let (frames', heap') = clone_frames s.heap s.frames in
      record { frames = frames'; heap = heap' }
