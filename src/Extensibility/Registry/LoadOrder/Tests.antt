-- ===== src/Extensibility/Registry/LoadOrder/Tests.antt =====
-- A load order of three plugins.
use pine_framework.Prelude.{
  ℕ, ◌<◌, ◌≡◌, refl, subst, Bool-cases, inl, inr, eq_of_===, List, [], ◌∷◌, Option, none, some,
  true, String, string_eq, ◌===◌, if◌then◌else◌, arith,
}
use pine_framework.Prelude.JsMap
use pine_framework.Extensibility.Registry.{
  Plugin, function_plugin, PluginRegistry, default_registry_config, fresh_entry,
}
use pine_framework.Extensibility.Registry.LoadOrder.{
  contains, graph_of, get_dependency_graph, visit, visit_each, get_load_order,
}
use pine_framework.Extensibility.Registry.LoadOrder.Names.{InOrder}
use pine_framework.Extensibility.Registry.LoadOrder.Visits.{Ranked}
use pine_framework.Extensibility.Registry.LoadOrder.Loads.{
  IsComplete, get_load_order-IsComplete, get_load_order-InOrder,
}

abbrev plugin : String → Option (List String) → Plugin
plugin name deps = record {
  name = name;
  version = "1.0.0";
  dependencies = deps;
  kind = function_plugin;
  is_compatible = λ version. true;
}

abbrev registry : PluginRegistry
registry = record {
  plugins =
      ("chart", fresh_entry (plugin "chart" (some ("data" ∷ "math" ∷ []))) 1)
      ∷ ("math", fresh_entry (plugin "math" none) 2)
      ∷ ("data", fresh_entry (plugin "data" (some ("math" ∷ []))) 3)
      ∷ [];
  config = default_registry_config;
  engine_version = "1.0.0";
}

loads : get_load_order registry ≡ some ("math" ∷ "data" ∷ "chart" ∷ [])
unfolding get_load_order visit_each visit get_dependency_graph graph_of JsMap.get
loads = refl

abbrev rank : String → ℕ
rank x = if "chart" === x then 2 else if "data" === x then 1 else 0

chart_below : (d : String) → contains d ("data" ∷ "math" ∷ []) ≡ true → rank d < 2
chart_below d e = elim (Bool-cases ("data" === d)) [
  | inl same ↦ subst (λ y. rank y < 2) (eq_of_=== "data" d same) (omega arith)
  | inr other ↦
      subst (λ y. rank y < 2) (eq_of_=== "math" d (ground (arith, e, other))) (omega arith)
]

data_below : (d : String) → contains d ("math" ∷ []) ≡ true → rank d < 1
data_below d e = subst (λ y. rank y < 1) (eq_of_=== "math" d (ground (arith, e))) (omega arith)

registry-Ranked : Ranked (get_dependency_graph registry) rank
unfolding get_dependency_graph graph_of JsMap.get
registry-Ranked x d e =
    ground (
      arith,
      e,
      chart_below d,
      data_below d,
      string_eq.beq_iff "chart" x,
      string_eq.beq_iff "data" x,
    )

get_load_order-IsComplete_example :
    (order : List String) × ((get_load_order registry ≡ some order) × IsComplete registry order)
get_load_order-IsComplete_example = get_load_order-IsComplete registry

get_load_order-InOrder_example :
    (order : List String) × ((get_load_order registry ≡ some order)
      × InOrder (get_dependency_graph registry) [] order)
get_load_order-InOrder_example = get_load_order-InOrder registry rank registry-Ranked
