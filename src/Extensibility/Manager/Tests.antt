-- ===== src/Extensibility/Manager/Tests.antt =====
-- A plugin that fails when it is loaded.
use pine_framework.Prelude.{ℕ, ◌+◌, ◌≡◌, refl, Option, none, some, true, false, String, string_eq}
use pine_framework.Prelude.JsMap
use pine_framework.Extensibility.Registry.{
  Plugin, function_plugin, default_registry_config, register, register_checked, register_after,
  unregister, unmet, add_plugin, missing,
}
use pine_framework.Extensibility.Registry
use pine_framework.Extensibility.Manager.{PluginManager, create, load_plugin, is_plugin_active}
use pine_framework.Extensibility.Manager.Loading.{load_plugin_lem}

abbrev chart : Plugin
chart = record {
  name = "chart";
  version = "1.0.0";
  dependencies = none;
  kind = function_plugin;
  is_compatible = λ version. true;
}

-- The world counts the calls; every activation throws.
abbrev failing : Plugin → ℕ → ℕ × Option String
failing p w = (w + 1, some "no data")

abbrev stopping : Plugin → ℕ → ℕ × Option String
stopping p w = (w + 1, none)

abbrev manager : PluginManager
manager = create default_registry_config "0.1.0"

load_plugin_example :
    ((load_plugin failing stopping stopping manager chart 1 0).answer ≡ false)
    × (is_plugin_active (load_plugin failing stopping stopping manager chart 1 0).manager "chart"
        ≡ false)
    × (JsMap.get (load_plugin failing stopping stopping manager chart 1 0).manager.plugins "chart"
        ≡ some chart)
unfolding register register_checked register_after unregister unmet add_plugin missing create
    Registry.create JsMap.has
load_plugin_example = load_plugin_lem failing stopping stopping manager chart 1 0 refl
