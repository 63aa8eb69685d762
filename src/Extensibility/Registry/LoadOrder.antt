-- ===== src/Extensibility/Registry/LoadOrder.antt =====
-- `getDependencyGraph` and `getLoadOrder` of src/extensibility/plugin-registry.ts. The recursion of `visit` is
-- on fuel.
pub mod Names
pub mod Visits
pub mod Loads
pub mod Tests
use pine_framework.Prelude.{
  ℕ, zero, suc, List, [], ◌∷◌, ◌++◌, Option, none, some, Bool, true, false, ◌||◌, String, string_eq,
  ◌===◌, length, if◌then◌else◌,
}
use pine_framework.Prelude.JsMap.{JsMap, keys}
use pine_framework.Prelude.JsMap
use pine_framework.Extensibility.Registry.{PluginRegistry, PluginEntry, dependencies_of}

abbrev pub Graph : Type 0
Graph = JsMap String (List String)

-- One entry for each plugin, whose names are distinct.
unfoldable pub graph_of : JsMap String PluginEntry → Graph
graph_of [] = []
graph_of ((name, entry) ∷ plugins) = (name, dependencies_of entry.plugin) ∷ graph_of plugins

unfoldable pub get_dependency_graph : PluginRegistry → Graph
unfolding graph_of
get_dependency_graph r = graph_of r.plugins

abbrev pub contains : String → List String → Bool
contains x [] = false
contains x (y ∷ ys) = y === x || contains x ys

-- The variables `visited` and `order`.
pub record Walk : Type 0 where
  pub visited : List String
  pub order : List String

abbrev pub edges : Graph → String → List String
edges g name = elim (JsMap.get g name) [ none ↦ [] | some deps ↦ deps ]

abbrev pub mark_visited : String → Walk → Walk
mark_visited name w = record w { visited = w.visited ++ name ∷ [] }

abbrev pub push_name : String → Walk → Walk
push_name name w = record w { order = w.order ++ name ∷ [] }

-- The loops that call `visit` for one name after the other.
unfoldable pub visit_each : (String → Walk → Option Walk) → List String → Walk → Option Walk
visit_each visit [] w = some w
visit_each visit (name ∷ names) w = elim (visit name w) [
  | none ↦ none
  | some w' ↦ visit_each visit names w'
]

unfoldable pub visit : ℕ → Graph → String → Walk → Option Walk
unfolding visit_each
visit zero g name w = none
visit (suc n) g name w =
    let pushed : Option Walk = elim (visit_each (visit n g) (edges g name) (mark_visited name w)) [
      | none ↦ none
      | some w' ↦ some (push_name name w')
    ] in
    if contains name w.visited then some w else pushed

-- The fuel is one more than the number of plugins.
unfoldable pub get_load_order : PluginRegistry → Option (List String)
unfolding visit_each visit get_dependency_graph
get_load_order r =
    let g = get_dependency_graph r in
    elim (visit_each (visit (suc (length g)) g) (keys g) (record { visited = []; order = [] })) [
      | none ↦ none
      | some w ↦ some w.order
    ]
