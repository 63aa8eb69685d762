-- ===== src/Extensibility/Registry.antt =====
-- src/extensibility/plugin-registry.ts. `W` is the world that the plugins' own code changes: `activate`
-- and `deactivate` are theirs, with the error they throw. A call of the registry runs to its end.
-- `unregister` and `clear` do not await a plugin's `deactivate`: `begin_deactivate` is what it does before
-- its first await, with an error thrown there. What it does later, a rejection of its promise included,
-- stops neither and is not modelled.
pub mod Queries
pub mod Bound
pub mod Swap
pub mod LoadOrder
pub mod Tests
use pine_framework.Prelude.{
  ℕ, List, [], ◌∷◌, Option, none, some, Bool, true, false, ◌&&◌, not, String, string_eq, leb,
  if◌then◌else◌, length,
}
use pine_framework.Prelude.JsMap.{JsMap, keys, values}
use pine_framework.Prelude.JsMap

pub data PluginType : Type 0 where
  function_plugin type_plugin renderer_plugin data_source_plugin : PluginType

pub record Plugin : Type 0 where
  pub name : String
  pub version : String
  pub dependencies : Option (List String)
  pub kind : PluginType
  pub is_compatible : String → Bool

pub record PluginRegistryConfig : Type 0 where
  pub max_plugins : ℕ
  pub enable_hot_swap : Bool
  pub validate_dependencies : Bool
  pub check_version_compatibility : Bool

pub record PluginEntry : Type 0 where
  pub plugin : Plugin
  pub registered_at : ℕ
  pub activated_at : Option ℕ
  pub deactivated_at : Option ℕ
  pub is_active : Bool

pub record PluginRegistry : Type 0 where
  pub plugins : JsMap String PluginEntry
  pub config : PluginRegistryConfig
  pub engine_version : String

abbrev pub default_registry_config : PluginRegistryConfig
default_registry_config = record {
  max_plugins = 100;
  enable_hot_swap = true;
  validate_dependencies = true;
  check_version_compatibility = true;
}

unfoldable pub create : PluginRegistryConfig → String → PluginRegistry
create config engine_version = record {
  plugins = [];
  config = config;
  engine_version = engine_version;
}

pub data Thrown : Type 0 where
  limit_reached already_registered not_compatible : Thrown
  missing_dependency : String → Thrown
  plugin_failed : String → Thrown

pub data Result : Type 0 where
  returned : Bool → Result
  thrown : Thrown → Result

pub record Done {ℓ} (W : Type ℓ) : Type ℓ where
  pub registry : PluginRegistry
  pub world : W
  pub result : Result

-- The first dependency that is not registered.
unfoldable pub missing : JsMap String PluginEntry → List String → Option String
missing plugins [] = none
missing plugins (dep ∷ deps) =
    let rest = missing plugins deps in if JsMap.has plugins dep then rest else some dep

abbrev pub dependencies_of : Plugin → List String
dependencies_of p = elim p.dependencies [ none ↦ [] | some deps ↦ deps ]

-- `validateDependencies`, if the configuration asks for it.
unfoldable pub unmet : PluginRegistry → Plugin → Option String
unfolding missing
unmet r p = if r.config.validate_dependencies then missing r.plugins (dependencies_of p) else none

abbrev pub fresh_entry : Plugin → ℕ → PluginEntry
fresh_entry p now = record {
  plugin = p;
  registered_at = now;
  activated_at = none;
  deactivated_at = none;
  is_active = false;
}

module _ {ℓ} {W : Type ℓ} where
  unfoldable pub add_plugin : PluginRegistry → Plugin → ℕ → W → Option String → Done W
  add_plugin r p now w none = record {
    registry = record r { plugins = JsMap.set r.plugins p.name (fresh_entry p now) };
    world = w;
    result = returned true;
  }
  add_plugin r p now w (some dep) = record {
    registry = r;
    world = w;
    result = thrown (missing_dependency dep);
  }

  -- The checks of `register` that follow the removal of a plugin of the same name.
  unfoldable pub register_checked : PluginRegistry → Plugin → ℕ → W → Done W
  unfolding unmet add_plugin
  register_checked r p now w =
      let added = add_plugin r p now w (unmet r p) in
      if r.config.check_version_compatibility && not (p.is_compatible r.engine_version)
      then record { registry = r; world = w; result = thrown not_compatible }
      else added

  unfoldable pub remove_entry : PluginRegistry → String → W × Option String → Done W
  remove_entry r name (w, none) = record {
    registry = record r { plugins = JsMap.delete r.plugins name };
    world = w;
    result = returned true;
  }
  remove_entry r name (w, some message) = record {
    registry = r;
    world = w;
    result = thrown (plugin_failed message);
  }

  unfoldable pub mark : PluginRegistry → String → PluginEntry → W × Option String → Done W
  mark r name entry (w, none) = record {
    registry = record r { plugins = JsMap.set r.plugins name entry };
    world = w;
    result = returned true;
  }
  mark r name entry (w, some message) = record {
    registry = r;
    world = w;
    result = thrown (plugin_failed message);
  }

  unfoldable pub register_after : Plugin → ℕ → Done W → Done W
  unfolding register_checked
  register_after p now d = elim d.result [
    | returned b ↦ register_checked d.registry p now d.world
    | thrown e ↦ d
  ]

module _ {ℓ} {W : Type ℓ} (begin_deactivate : Plugin → W → W × Option String) where
  -- An active plugin is deactivated before it goes.
  unfoldable pub unregister : PluginRegistry → String → W → Done W
  unfolding remove_entry
  unregister r name w = elim (JsMap.get r.plugins name) [
    | none ↦ record { registry = r; world = w; result = returned false }
    | some entry ↦
        remove_entry r name (if entry.is_active then begin_deactivate entry.plugin w else (w, none))
  ]

  unfoldable pub register : PluginRegistry → Plugin → ℕ → W → Done W
  unfolding register_checked register_after unregister
  register r p now w =
      let swapped = register_after p now (unregister r p.name w) in
      let checked = register_checked r p now w in
      if leb r.config.max_plugins (length r.plugins)
      then record { registry = r; world = w; result = thrown limit_reached }
      else if JsMap.has r.plugins p.name
      then (if r.config.enable_hot_swap
          then swapped
          else record { registry = r; world = w; result = thrown already_registered })
      else checked

module _ {ℓ} {W : Type ℓ} (deactivate_plugin : Plugin → W → W × Option String) where
  unfoldable pub deactivate : PluginRegistry → String → ℕ → W → Done W
  unfolding mark
  deactivate r name now w = elim (JsMap.get r.plugins name) [
    | none ↦ record { registry = r; world = w; result = returned false }
    | some entry ↦
        let marked =
          mark r name (record entry { is_active = false; deactivated_at = some now })
            (deactivate_plugin entry.plugin w) in
        if entry.is_active
        then marked
        else record { registry = r; world = w; result = returned true }
  ]

  -- The loop of `deactivateAll` over the names; an error ends it.
  unfoldable pub deactivate_names : List String → PluginRegistry → ℕ → W → Done W
  unfolding deactivate
  deactivate_names [] r now w = record { registry = r; world = w; result = returned true }
  deactivate_names (name ∷ names) r now w =
      let d = deactivate r name now w in
      let rest = deactivate_names names d.registry now d.world in
      elim d.result [ returned b ↦ rest | thrown e ↦ d ]

  unfoldable pub deactivate_all : PluginRegistry → ℕ → W → Done W
  unfolding deactivate_names
  deactivate_all r now w = deactivate_names (keys r.plugins) r now w

module _ {ℓ} {W : Type ℓ} (begin_deactivate : Plugin → W → W × Option String) where
  -- The loop of `clear`, and the error that ends it.
  unfoldable pub stop_entries : List PluginEntry → W → W × Option String
  stop_entries [] w = (w, none)
  stop_entries (entry ∷ entries) w =
      let (w', error) = begin_deactivate entry.plugin w in
      let skipped = stop_entries entries w in
      let rest = stop_entries entries w' in
      let stopped : W × Option String = elim error [
        | none ↦ rest
        | some message ↦ (w', some message)
      ] in
      if entry.is_active then stopped else skipped

  unfoldable pub clear : PluginRegistry → W → Done W
  unfolding stop_entries
  clear r w =
      let (w', error) = stop_entries (values r.plugins) w in
      elim error [
        | none ↦ record { registry = record r { plugins = [] }; world = w'; result = returned true }
        | some message ↦ record {
          registry = r;
          world = w';
          result = thrown (plugin_failed message);
        }
      ]

module _ {ℓ} {W : Type ℓ} (activate_plugin : Plugin → W → W × Option String) where
  unfoldable pub activate : PluginRegistry → String → ℕ → W → Done W
  unfolding mark
  activate r name now w = elim (JsMap.get r.plugins name) [
    | none ↦ record { registry = r; world = w; result = returned false }
    | some entry ↦
        let marked =
          mark r name (record entry { is_active = true; activated_at = some now })
            (activate_plugin entry.plugin w) in
        if entry.is_active
        then record { registry = r; world = w; result = returned true }
        else marked
  ]

  -- The loop of `activateAll` over the names; an error ends it.
  unfoldable pub activate_names : List String → PluginRegistry → ℕ → W → Done W
  unfolding activate
  activate_names [] r now w = record { registry = r; world = w; result = returned true }
  activate_names (name ∷ names) r now w =
      let d = activate r name now w in
      let rest = activate_names names d.registry now d.world in
      elim d.result [ returned b ↦ rest | thrown e ↦ d ]

  unfoldable pub activate_all : PluginRegistry → ℕ → W → Done W
  unfolding activate_names
  activate_all r now w = activate_names (keys r.plugins) r now w
