-- ===== src/Extensibility/Manager.antt =====
-- src/extensibility/plugin-manager.ts, the class PluginManager: the registry and the plugins that were loaded.
-- Errors of the registry and of the plugins become the answer false. The makers of plugins are not here.
pub mod Loading
pub mod Tests
use pine_framework.Prelude.{
  ℕ, List, [], ◌∷◌, Option, none, some, Bool, true, false, String, string_eq,
}
use pine_framework.Prelude.JsMap.{JsMap, values}
use pine_framework.Prelude.JsMap
use pine_framework.Extensibility.Registry.{
  Plugin, PluginType, PluginRegistry, PluginRegistryConfig, Result, returned, thrown, Done,
  register, unregister, activate, deactivate,
}
use pine_framework.Extensibility.Registry
use pine_framework.Extensibility.Registry.Queries

pub record PluginManager : Type 0 where
  pub registry : PluginRegistry
  pub plugins : JsMap String Plugin

unfoldable pub create : PluginRegistryConfig → String → PluginManager
create config engine_version = record {
  registry = Registry.create config engine_version;
  plugins = [];
}

-- The manager after a call, the world and the answer.
pub record Called {ℓ} (W : Type ℓ) : Type ℓ where
  pub manager : PluginManager
  pub world : W
  pub answer : Bool

abbrev pub is_returned : Result → Bool
is_returned (returned b) = true
is_returned (thrown e) = false

module _ {ℓ} {W : Type ℓ}
    (activate_plugin deactivate_plugin begin_deactivate : Plugin → W → W × Option String) where
  -- After `register`: a plugin that is registered is held, and then activated.
  unfoldable pub load_registered : PluginManager → Plugin → ℕ → Done W → Called W
  load_registered m p now d =
      let a = activate activate_plugin d.registry p.name now d.world in
      elim d.result [
        | thrown e ↦ record {
          manager = record m { registry = d.registry };
          world = d.world;
          answer = false;
        }
        | returned b ↦ record {
          manager = record { registry = a.registry; plugins = JsMap.set m.plugins p.name p };
          world = a.world;
          answer = is_returned a.result;
        }
      ]

  unfoldable pub load_plugin : PluginManager → Plugin → ℕ → W → Called W
  unfolding load_registered
  load_plugin m p now w = load_registered m p now (register begin_deactivate m.registry p now w)

  unfoldable pub unload_plugin : PluginManager → String → ℕ → W → Called W
  unload_plugin m name now w =
      let d = deactivate deactivate_plugin m.registry name now w in
      let u = unregister begin_deactivate d.registry name d.world in
      elim d.result [
        | thrown e ↦ record {
          manager = record m { registry = d.registry };
          world = d.world;
          answer = false;
        }
        | returned b ↦ record {
          manager = record {
            registry = u.registry;
            plugins = elim u.result [
              | returned b ↦ JsMap.delete m.plugins name
              | thrown e ↦ m.plugins
            ];
          };
          world = u.world;
          answer = is_returned u.result;
        }
      ]

  -- The plugin is loaded again, whatever unloading it answered.
  unfoldable pub reload_plugin : PluginManager → String → ℕ → W → Called W
  unfolding load_plugin unload_plugin
  reload_plugin m name now w = elim (JsMap.get m.plugins name) [
    | none ↦ record { manager = m; world = w; answer = false }
    | some p ↦ let u = unload_plugin m name now w in load_plugin u.manager p now u.world
  ]

  unfoldable pub reload_each : List Plugin → PluginManager → ℕ → W → PluginManager × W
  unfolding reload_plugin
  reload_each [] m now w = (m, w)
  reload_each (p ∷ ps) m now w =
      let c = reload_plugin m p.name now w in reload_each ps c.manager now c.world

  unfoldable pub reload_all : PluginManager → ℕ → W → PluginManager × W
  unfolding reload_each
  reload_all m now w = reload_each (values m.plugins) m now w

abbrev pub get_plugin : PluginManager → String → Option Plugin
get_plugin m name = Queries.get m.registry name

abbrev pub get_plugins_by_type : PluginManager → PluginType → List Plugin
get_plugins_by_type m kind = Queries.get_by_type m.registry kind

abbrev pub is_plugin_loaded : PluginManager → String → Bool
is_plugin_loaded m name = Queries.has m.registry name

abbrev pub is_plugin_active : PluginManager → String → Bool
is_plugin_active m name = Queries.is_active m.registry name
