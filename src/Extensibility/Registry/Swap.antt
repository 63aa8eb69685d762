-- ===== src/Extensibility/Registry/Swap.antt =====
-- What `register` puts under a name, and what a failed hot swap takes away.
use pine_framework.Prelude.{
  ℕ, ◌<◌, ◌≡◌, refl, Option, none, some, true, false, ◌&&◌, not, String, string_eq, ◌===◌, leb,
  if◌then◌else◌, length, arith, if-elim, option-elim,
}
use pine_framework.Prelude.JsMap.{
  JsMap, Distinct, has_of_get, get-set, get-delete_ne, has-delete_self,
}
use pine_framework.Prelude.JsMap
use pine_framework.Extensibility.Registry.{
  Plugin, PluginEntry, PluginRegistry, not_compatible, Result, returned, thrown, Done, fresh_entry,
  unmet, add_plugin, register_checked, remove_entry, unregister, register_after, register,
}

-- Under other names nothing has changed.
Near : String → PluginRegistry → String → PluginRegistry → Type 0
Near j r name s = (name === j) ≡ false → JsMap.get s.plugins j ≡ JsMap.get r.plugins j

module _ {W : Type 0} (j : String) where
  -- If the call succeeds, the plugin stands under its name and nothing else has changed.
  Puts : PluginRegistry → Plugin → ℕ → Done W → Type 0
  Puts r p now o =
      o.result ≡ returned true
      → JsMap.get o.registry.plugins j
        ≡ (if p.name === j then some (fresh_entry p now) else JsMap.get r.plugins j)

  add_plugin-Puts :
      (r s : PluginRegistry) (p : Plugin) (now : ℕ) (w : W) (dep : Option String)
      → Near j r p.name s
      → Puts r p now (add_plugin s p now w dep)
  unfolding add_plugin Puts Near
  add_plugin-Puts r s p now w none near h =
      ground (arith, get-set s.plugins p.name (fresh_entry p now) j, near)
  add_plugin-Puts r s p now w (some dep) near h = ground (arith, h)

  register_checked-Puts :
      (r s : PluginRegistry) (p : Plugin) (now : ℕ) (w : W)
      → Near j r p.name s
      → Puts r p now (register_checked s p now w)
  unfolding register_checked Puts
  register_checked-Puts r s p now w near =
      if-elim (Puts r p now)
        (s.config.check_version_compatibility && not (p.is_compatible s.engine_version))
        (record { registry = s; world = w; result = thrown not_compatible })
        (add_plugin s p now w (unmet s p)) (λ e h. ground (arith, h))
        (λ e. add_plugin-Puts r s p now w (unmet s p) near)

  register_after-Puts :
      (r : PluginRegistry) (p : Plugin) (now : ℕ) (s : PluginRegistry) (w : W) (res : Result)
      → Near j r p.name s
      → Puts r p now (register_after p now (record { registry = s; world = w; result = res }))
  unfolding register_after Puts
  register_after-Puts r p now s w (returned b) near = register_checked-Puts r s p now w near
  register_after-Puts r p now s w (thrown e) near = λ h. ground (arith, h)

  remove_entry-Near :
      (r : PluginRegistry) (name : String) (o : W × Option String)
      → Near j r name (remove_entry r name o).registry
  unfolding remove_entry Near
  remove_entry-Near r name (w, none) = get-delete_ne r.plugins name j
  remove_entry-Near r name (w, some e) = λ h. refl

module _ {W : Type 0} (begin_deactivate : Plugin → W → W × Option String) where
  unregister-Near :
      (r : PluginRegistry) (name : String) (w : W) (j : String)
      → Near j r name (unregister begin_deactivate r name w).registry
  unfolding unregister Near
  unregister-Near r name w j =
      option-elim (λ (o : Done W). Near j r name o.registry) (JsMap.get r.plugins name) _ _
        (λ h. refl) (λ entry e. remove_entry-Near j r name _)

  -- If `register` succeeds, the new plugin stands under its name, not active, and every other name has
  -- the entry that it had.
  pub register_lem :
      (r : PluginRegistry) (p : Plugin) (now : ℕ) (w : W) (j : String)
      → (register begin_deactivate r p now w).result ≡ returned true
      → JsMap.get (register begin_deactivate r p now w).registry.plugins j
        ≡ (if p.name === j then some (fresh_entry p now) else JsMap.get r.plugins j)
  unfolding register Puts Near
  register_lem r p now w j =
      if-elim (Puts j r p now) (leb r.config.max_plugins (length r.plugins)) _ _
        (λ e h. ground (arith, h))
        (λ e.
          if-elim (Puts j r p now) (JsMap.has r.plugins p.name) _ _
            (λ e'.
              if-elim (Puts j r p now) r.config.enable_hot_swap _ _
                (λ e''.
                  let u = unregister begin_deactivate r p.name w in
                  register_after-Puts j r p now u.registry u.world u.result
                    (unregister-Near r p.name w j))
                (λ e'' h. ground (arith, h)))
            (λ e'. register_checked-Puts j r r p now w (λ h. refl)))

  -- If the checks of compatibility and hot swaps are on, there is room, and an inactive plugin stands
  -- under the name, then registering an incompatible plugin of that name fails and the old one is gone.
  pub register_loses :
      (r : PluginRegistry) (p : Plugin) (entry : PluginEntry) (now : ℕ) (w : W)
      → Distinct r.plugins
      → length r.plugins < r.config.max_plugins
      → r.config.enable_hot_swap ≡ true
      → r.config.check_version_compatibility ≡ true
      → JsMap.get r.plugins p.name ≡ some entry
      → entry.is_active ≡ false
      → p.is_compatible r.engine_version ≡ false
      → let o = register begin_deactivate r p now w in
        (o.result ≡ thrown not_compatible) × (JsMap.has o.registry.plugins p.name ≡ false)
  unfolding register register_after register_checked unregister remove_entry
  register_loses r p entry now w d room swap check there idle bad = ground (
    arith,
    room,
    has_of_get r.plugins p.name entry there,
    there,
    idle,
    swap,
    check,
    bad,
    has-delete_self r.plugins p.name d,
  )
