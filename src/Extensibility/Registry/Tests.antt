-- ===== src/Extensibility/Registry/Tests.antt =====
-- Registrations of concrete plugins.
use pine_framework.Prelude.{
  ℕ, ◌+◌, ◌≡◌, refl, List, [], ◌∷◌, Option, none, some, Bool, true, false, String, string_eq, arith,
}
use pine_framework.Prelude.JsMap.{JsMap}
use pine_framework.Prelude.JsMap
use pine_framework.Extensibility.Registry.{
  Plugin, function_plugin, PluginRegistry, default_registry_config, not_compatible,
  missing_dependency, thrown, fresh_entry, missing, unmet, add_plugin, register_checked, unregister,
  register_after, register, activate, deactivate, activate_all, deactivate_all, clear,
}
use pine_framework.Extensibility.Registry.Bound.{IsValid}
use pine_framework.Extensibility.Registry.Bound
use pine_framework.Extensibility.Registry.Swap

abbrev plugin : String → Option (List String) → Bool → Plugin
plugin name deps fits = record {
  name = name;
  version = "1.0";
  dependencies = deps;
  kind = function_plugin;
  is_compatible = λ v. fits;
}

-- The world counts the calls; none fails.
abbrev hook : Plugin → ℕ → ℕ × Option String
hook p w = (w + 1, none)

abbrev new : PluginRegistry
new = record { plugins = []; config = default_registry_config; engine_version = "0.1.0" }

abbrev one : PluginRegistry
one = record new { plugins = ("ta", fresh_entry (plugin "ta" none true) 1) ∷ [] }

unmet_dependency :
    (register hook new (plugin "ta" (some ("math" ∷ [])) true) 1 0).result
    ≡ thrown (missing_dependency "math")
unfolding register register_checked register_after unregister unmet add_plugin missing JsMap.has
unmet_dependency = refl

one-IsValid : IsValid one
unfolding JsMap.has
one-IsValid = record { distinct = (refl, tt); bounded = omega arith }

operations-IsValid_example :
    IsValid (register hook one (plugin "ta" none true) 2 0).registry
    × IsValid (unregister hook one "ta" 0).registry
    × IsValid (activate hook one "ta" 2 0).registry
    × IsValid (deactivate hook one "ta" 2 0).registry
    × IsValid (activate_all hook one 2 0).registry
    × IsValid (deactivate_all hook one 2 0).registry
    × IsValid (clear hook one 0).registry
operations-IsValid_example =
    Bound.operations-IsValid hook hook hook one (plugin "ta" none true) "ta" 2 0 one-IsValid

register_example :
    JsMap.get (register hook one (plugin "ma" none true) 2 0).registry.plugins "ma"
    ≡ some (fresh_entry (plugin "ma" none true) 2)
unfolding register register_checked register_after unregister unmet add_plugin missing JsMap.has
register_example = Swap.register_lem hook one (plugin "ma" none true) 2 0 "ma" refl

register_loses_example :
    ((register hook one (plugin "ta" none false) 2 0).result ≡ thrown not_compatible)
    × (JsMap.has (register hook one (plugin "ta" none false) 2 0).registry.plugins "ta" ≡ false)
unfolding JsMap.get JsMap.has
register_loses_example =
    Swap.register_loses hook one (plugin "ta" none false) (fresh_entry (plugin "ta" none true) 1) 2
      0 (refl, tt) (omega arith) refl refl refl refl refl
