-- ===== src/Extensibility/Registry/LoadOrder/Loads.antt =====
-- What `getLoadOrder` returns.
use pine_framework.Prelude.{
  ℕ, suc, ◌≤◌, ◌≡◌, ap, List, [], ◌∷◌, Option, none, some, true, String, string_eq, arith, length,
  length-map,
}
use pine_framework.Prelude.JsMap.{JsMap, keys}
use pine_framework.Prelude.JsMap
use pine_framework.Extensibility.Registry.{PluginRegistry, PluginEntry}
use pine_framework.Extensibility.Registry.LoadOrder.{
  Graph, Walk, contains, graph_of, get_dependency_graph, visit_each, visit, get_load_order,
}
use pine_framework.Extensibility.Registry.LoadOrder.Names.{bit, occurrences, left-length, InOrder}
use pine_framework.Extensibility.Registry.LoadOrder.Visits.{
  Ranked, Outcome, visit_each_went, visit_went,
}

abbrev start : Walk
start = record { visited = []; order = [] }

length-keys : (g : Graph) → length (keys g) ≡ length g
length-keys g = length-map g _

contains-graph_of :
    (plugins : JsMap String PluginEntry) (name : String)
    → JsMap.has plugins name ≡ true
    → contains name (keys (graph_of plugins)) ≡ true
unfolding graph_of JsMap.has
contains-graph_of [] name h = cc
contains-graph_of ((k, entry) ∷ plugins) name h = ground (arith, h, contains-graph_of plugins name)

walked :
    (g : Graph) (rank : String → ℕ)
    → Outcome g rank [] (keys g) start (visit_each (visit (suc (length g)) g) (keys g) start)
walked g rank =
    visit_each_went g rank (visit (suc (length g)) g) (suc (length g)) []
      (visit_went g rank (suc (length g)) []) (keys g) start (λ x. omega arith)
      (omega (arith, left-length (keys g) [], length-keys g))

returned_order :
    (o : Option Walk) (w : Walk)
    → o ≡ some w
    → (elim o [ none ↦ none | some w' ↦ some w'.order ]) ≡ some w.order
returned_order o w e = ap (λ (o : Option Walk). elim o [ none ↦ none | some w' ↦ some w'.order ]) e

-- Every registered name stands in the list once, and no name stands there twice.
pub record IsComplete (r : PluginRegistry) (order : List String) : Type 0 where
  pub registered : (name : String) → JsMap.has r.plugins name ≡ true → occurrences name order ≡ 1
  pub distinct : (name : String) → occurrences name order ≤ 1

-- Whatever the plugins name as their dependencies, cycles and names that are not registered included,
-- getLoadOrder ends, and its list is complete.
pub get_load_order-IsComplete :
    (r : PluginRegistry)
    → (order : List String) × ((get_load_order r ≡ some order) × IsComplete r order)
unfolding get_load_order
get_load_order-IsComplete r =
    let (w, (found, went)) = walked (get_dependency_graph r) (λ x. 0) in
    (
      w.order,
      (
        returned_order _ w found,
        record {
          registered = λ name h.
              omega (
                arith,
                went.once name,
                ap bit (went.seen name (contains-graph_of r.plugins name h)),
              );
          distinct = λ name. ground (arith, went.once name);
        },
      ),
    )

-- If the dependencies have no cycle, so that each has a smaller rank than the plugin that needs it, then the
-- list that getLoadOrder returns has every name behind its dependencies.
pub get_load_order-InOrder :
    (r : PluginRegistry) (rank : String → ℕ)
    → Ranked (get_dependency_graph r) rank
    → (order : List String) × ((get_load_order r ≡ some order)
        × InOrder (get_dependency_graph r) [] order)
unfolding get_load_order
get_load_order-InOrder r rank ranked =
    let (w, (found, went)) = walked (get_dependency_graph r) rank in
    (w.order, (returned_order _ w found, went.in_order ranked (λ s d e e'. ground (arith, e)) tt))
