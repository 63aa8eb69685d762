-- ===== src/Extensibility/Registry/Queries.antt =====
-- The queries of src/extensibility/plugin-registry.ts.
use pine_framework.Prelude.{
  ℕ, List, [], ◌∷◌, Option, none, some, Bool, true, false, String, string_eq, if◌then◌else◌, length,
}
use pine_framework.Prelude.JsMap.{JsMap, keys, values}
use pine_framework.Prelude.JsMap
use pine_framework.Extensibility.Registry.{
  Plugin, PluginType, function_plugin, type_plugin, renderer_plugin, data_source_plugin,
  PluginEntry, PluginRegistry,
}

unfoldable pub get : PluginRegistry → String → Option Plugin
get r name = elim (JsMap.get r.plugins name) [ none ↦ none | some entry ↦ some entry.plugin ]

unfoldable pub active_plugins : List PluginEntry → List Plugin
active_plugins [] = []
active_plugins (entry ∷ entries) =
    let rest = active_plugins entries in if entry.is_active then entry.plugin ∷ rest else rest

unfoldable pub get_active : PluginRegistry → List Plugin
unfolding active_plugins
get_active r = active_plugins (values r.plugins)

abbrev pub get_registered : PluginRegistry → List String
get_registered r = keys r.plugins

unfoldable pub is_active : PluginRegistry → String → Bool
is_active r name = elim (JsMap.get r.plugins name) [ none ↦ false | some entry ↦ entry.is_active ]

abbrev pub count : PluginRegistry → ℕ
count r = length r.plugins

abbrev pub get_entry : PluginRegistry → String → Option PluginEntry
get_entry r name = JsMap.get r.plugins name

abbrev pub has : PluginRegistry → String → Bool
has r name = JsMap.has r.plugins name

abbrev pub is_kind : PluginType → PluginType → Bool
is_kind function_plugin function_plugin = true
is_kind type_plugin type_plugin = true
is_kind renderer_plugin renderer_plugin = true
is_kind data_source_plugin data_source_plugin = true
is_kind _ _ = false

unfoldable pub plugins_of_kind : PluginType → List PluginEntry → List Plugin
plugins_of_kind kind [] = []
plugins_of_kind kind (entry ∷ entries) =
    let rest = plugins_of_kind kind entries in
    if is_kind entry.plugin.kind kind then entry.plugin ∷ rest else rest

unfoldable pub get_by_type : PluginRegistry → PluginType → List Plugin
unfolding plugins_of_kind
get_by_type r kind = plugins_of_kind kind (values r.plugins)
