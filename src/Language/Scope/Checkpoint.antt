-- ===== src/Language/Scope/Checkpoint.antt =====
-- The length-based checkpoints of scope.ts: for scope chains and for maps of named series.
use pine_framework.Prelude.{
  ℕ, List, [], ◌∷◌, map, Option, none, some, Bool, true, false, String, string_eq, length, take,
  set, ltb, if◌then◌else◌, ◌===◌,
}
use pine_framework.Prelude.JsMap.{JsMap, keys}
use pine_framework.Prelude.JsMap
use pine_framework.Language.Series.{Series}
use pine_framework.Language.Scope.{Frame, Heap, Scopes, at}

pub record CheckpointEntry : Type 0 where
  pub name : String
  pub series : ℕ
  pub len : ℕ

-- The entries of each frame of the chain. The scope objects that the code's checkpoint points to are
-- the frames of the state that is restored.
abbrev pub ScopeCheckpoint : Type 0
ScopeCheckpoint = List (List CheckpointEntry)

module _ {ℓ} {V : Type ℓ} where
  abbrev pub truncated : Series V → ℕ → Series V
  truncated s n = record { values = take n s.values }

  -- `series.values.length = entry.length`.
  abbrev pub truncate_at : Heap V → ℕ → ℕ → Heap V
  truncate_at heap a n = set heap a (truncated (at heap a) n)

  -- The loop over a frame's entries; `none` is the error of the grow-only check.
  unfoldable pub restore_entries : List CheckpointEntry → Heap V → Option (Heap V)
  restore_entries [] heap = some heap
  restore_entries (entry ∷ entries) heap =
      let now = length (at heap entry.series).values in
      let restored =
        restore_entries entries
          (if ltb entry.len now then truncate_at heap entry.series entry.len else heap) in
      if ltb now entry.len then none else restored

  -- The same loop for a map of series, which has no check.
  unfoldable pub truncate_entries : List CheckpointEntry → Heap V → Heap V
  truncate_entries [] heap = heap
  truncate_entries (entry ∷ entries) heap = truncate_entries entries (
      if ltb entry.len (length (at heap entry.series).values)
      then truncate_at heap entry.series entry.len
      else heap)

abbrev pub entry_names : List CheckpointEntry → List String
entry_names = map λ e. e.name

abbrev pub contains : List String → String → Bool
contains [] k = false
contains (x ∷ xs) k = if x === k then true else contains xs k

-- `for (const name of [...map.keys()]) if (!known.has(name)) map.delete(name)`.
unfoldable pub drop_unknown {ℓ} :
    {A : Type ℓ} → List String → List String → JsMap String A → JsMap String A
drop_unknown known [] m = m
drop_unknown known (name ∷ names) m =
    drop_unknown known names (if contains known name then m else JsMap.delete m name)

module _ {ℓ κ} {T : Type ℓ} {V : Type κ} where
  unfoldable pub frame_entries : Heap V → Frame T → List CheckpointEntry
  frame_entries heap [] = []
  frame_entries heap ((name, b) ∷ rest) =
      record { name = name; series = b.series; len = length (at heap b.series).values }
      ∷ frame_entries heap rest

  unfoldable pub checkpoint_frames : Heap V → List (Frame T) → ScopeCheckpoint
  checkpoint_frames heap [] = []
  checkpoint_frames heap (frame ∷ parents) =
      frame_entries heap frame ∷ checkpoint_frames heap parents

  unfoldable pub checkpoint_scope : Scopes T V → ScopeCheckpoint
  checkpoint_scope s = checkpoint_frames s.heap s.frames

  unfoldable pub restore_frame : List CheckpointEntry → Frame T → Heap V → Option (Frame T × Heap V)
  restore_frame entries frame heap = elim (restore_entries entries heap) [
    | none ↦ none
    | some restored ↦ some (drop_unknown (entry_names entries) (keys frame) frame, restored)
  ]

  -- The parents are restored after the frame.
  abbrev pub restore_rest :
      Frame T → Option (List (Frame T) × Heap V) → Option (List (Frame T) × Heap V)
  restore_rest frame none = none
  restore_rest frame (some (parents, heap)) = some (frame ∷ parents, heap)

  unfoldable pub restore_frames :
      ScopeCheckpoint → List (Frame T) → Heap V → Option (List (Frame T) × Heap V)
  restore_frames [] frames heap = some (frames, heap)
  restore_frames (entries ∷ rest) [] heap = some ([], heap)
  restore_frames (entries ∷ rest) (frame ∷ parents) heap = elim (restore_frame entries frame heap) [
    | none ↦ none
    | some (restored, heap') ↦ restore_rest restored (restore_frames rest parents heap')
  ]

  unfoldable pub restore_scope_checkpoint : ScopeCheckpoint → Scopes T V → Option (Scopes T V)
  restore_scope_checkpoint checkpoint s = elim (restore_frames checkpoint s.frames s.heap) [
    | none ↦ none
    | some (frames, heap) ↦ some (record { frames = frames; heap = heap })
  ]

module _ {ℓ} {V : Type ℓ} where
  unfoldable pub checkpoint_series_map : Heap V → JsMap String ℕ → List CheckpointEntry
  checkpoint_series_map heap [] = []
  checkpoint_series_map heap ((name, a) ∷ rest) =
      record { name = name; series = a; len = length (at heap a).values }
      ∷ checkpoint_series_map heap rest

  unfoldable pub restore_series_map_checkpoint :
      List CheckpointEntry → JsMap String ℕ → Heap V → JsMap String ℕ × Heap V
  restore_series_map_checkpoint entries m heap =
      (drop_unknown (entry_names entries) (keys m) m, truncate_entries entries heap)
