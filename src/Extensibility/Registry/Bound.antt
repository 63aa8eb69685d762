-- ===== src/Extensibility/Registry/Bound.antt =====
-- The registry's bound and names.
use pine_framework.Prelude.{
  ℕ, List, [], ◌∷◌, ◌≤◌, ◌<◌, ◌≡◌, refl, ap, Option, none, some, String, string_eq, leb, length,
  arith, if-elim, option-elim,
}
use pine_framework.Prelude.JsMap.{
  JsMap, keys, values, Distinct, Distinct-set, Distinct-delete, length-set, length-delete,
  has_of_get, get-set, get-delete_ne,
}
use pine_framework.Prelude.JsMap
use pine_framework.Extensibility.Registry.{
  Plugin, PluginEntry, PluginRegistry, Result, returned, thrown, Done, fresh_entry, unmet,
  add_plugin, register_checked, remove_entry, mark, unregister, register_after, register, activate,
  deactivate, activate_names, activate_all, deactivate_names, deactivate_all, stop_entries, clear,
}

-- Names are distinct and the plugins within their bound.
pub record IsValid (r : PluginRegistry) : Type 0 where
  pub distinct : Distinct r.plugins
  pub bounded : length r.plugins ≤ r.config.max_plugins

module _ {W : Type 0} where
  add_plugin-IsValid :
      (r : PluginRegistry) (p : Plugin) (now : ℕ) (w : W) (dep : Option String)
      → Distinct r.plugins
      → length r.plugins < r.config.max_plugins
      → IsValid (add_plugin r p now w dep).registry
  unfolding add_plugin
  add_plugin-IsValid r p now w none d h = record {
    distinct = Distinct-set r.plugins p.name (fresh_entry p now) d;
    bounded = ground (arith, length-set r.plugins p.name (fresh_entry p now));
  }
  add_plugin-IsValid r p now w (some dep) d h = record { distinct = d; bounded = omega arith }

  register_checked-IsValid :
      (r : PluginRegistry) (p : Plugin) (now : ℕ) (w : W)
      → Distinct r.plugins
      → length r.plugins < r.config.max_plugins
      → IsValid (register_checked r p now w).registry
  unfolding register_checked unmet
  register_checked-IsValid r p now w d h =
      if-elim (λ (o : Done W). IsValid o.registry) _ _ _
        (λ e. record { distinct = d; bounded = omega arith })
        (λ e. add_plugin-IsValid r p now w (unmet r p) d h)

  remove_entry-IsValid :
      (r : PluginRegistry) (name : String) (o : W × Option String)
      → Distinct r.plugins
      → Distinct (remove_entry r name o).registry.plugins
        × (length (remove_entry r name o).registry.plugins ≤ length r.plugins)
        × ((remove_entry r name o).registry.config ≡ r.config)
  unfolding remove_entry
  remove_entry-IsValid r name (w, none) d =
      (Distinct-delete r.plugins name d, ground (arith, length-delete r.plugins name), refl)
  remove_entry-IsValid r name (w, some e) d = (d, omega arith, refl)

  mark-IsValid :
      (r : PluginRegistry) (name : String) (old entry : PluginEntry) (o : W × Option String)
      → JsMap.get r.plugins name ≡ some old
      → IsValid r
      → IsValid (mark r name entry o).registry
  unfolding mark
  mark-IsValid r name old entry (w, none) h v = record {
    distinct = Distinct-set r.plugins name entry v.distinct;
    bounded =
        ground (arith, length-set r.plugins name entry, has_of_get r.plugins name old h, v.bounded);
  }
  mark-IsValid r name old entry (w, some e) h v = v

  -- What a removal leaves has room for one more plugin.
  Leaves : PluginRegistry → Done W → Type 0
  Leaves r d =
      Distinct d.registry.plugins
      × (length d.registry.plugins ≤ length r.plugins)
      × (d.registry.config ≡ r.config)

  register_after-IsValid :
      (r : PluginRegistry) (p : Plugin) (now : ℕ) (s : PluginRegistry) (w : W) (res : Result)
      → length r.plugins < r.config.max_plugins
      → Leaves r (record { registry = s; world = w; result = res })
      → IsValid (register_after p now (record { registry = s; world = w; result = res })).registry
  unfolding register_after Leaves
  register_after-IsValid r p now s w (returned b) h (d, l, c) =
      register_checked-IsValid s p now w d (omega (arith, l, h, ap (λ k. k.max_plugins) c))
  register_after-IsValid r p now s w (thrown e) h (d, l, c) = record {
    distinct = d;
    bounded = omega (arith, l, h, ap (λ k. k.max_plugins) c);
  }

module _ {W : Type 0}
    (activate_plugin deactivate_plugin begin_deactivate : Plugin → W → W × Option String) where
  unregister-Leaves :
      (r : PluginRegistry) (name : String) (w : W)
      → Distinct r.plugins
      → Leaves r (unregister begin_deactivate r name w)
  unfolding unregister Leaves
  unregister-Leaves r name w d =
      option-elim (Leaves r) (JsMap.get r.plugins name) _ _ (d, omega arith, refl)
        (λ entry e. remove_entry-IsValid r name _ d)

  unregister-IsValid :
      (r : PluginRegistry) (name : String) (w : W)
      → IsValid r
      → IsValid (unregister begin_deactivate r name w).registry
  unfolding Leaves
  unregister-IsValid r name w v =
      let (d, l, c) = unregister-Leaves r name w v.distinct in
      record { distinct = d; bounded = omega (arith, l, v.bounded, ap (λ k. k.max_plugins) c) }

  register-IsValid :
      (r : PluginRegistry) (p : Plugin) (now : ℕ) (w : W)
      → IsValid r
      → IsValid (register begin_deactivate r p now w).registry
  unfolding register
  register-IsValid r p now w v =
      if-elim valid (leb r.config.max_plugins (length r.plugins)) _ _ (λ e. v)
        (λ e.
          let room : length r.plugins < r.config.max_plugins = ground (arith, e) in
          if-elim valid (JsMap.has r.plugins p.name) _ _
            (λ e'.
              if-elim valid r.config.enable_hot_swap _ _
                (λ e''.
                  let u = unregister begin_deactivate r p.name w in
                  register_after-IsValid r p now u.registry u.world u.result room
                    (unregister-Leaves r p.name w v.distinct))
                (λ e''. v))
            (λ e'. register_checked-IsValid r p now w v.distinct room))
    where
      valid : Done W → Type 0
      valid o = IsValid o.registry

  activate-IsValid :
      (r : PluginRegistry) (name : String) (now : ℕ) (w : W)
      → IsValid r
      → IsValid (activate activate_plugin r name now w).registry
  unfolding activate
  activate-IsValid r name now w v =
      option-elim (λ (o : Done W). IsValid o.registry) (JsMap.get r.plugins name) _ _ v
        (λ entry e.
          if-elim (λ (o : Done W). IsValid o.registry) entry.is_active _ _ (λ e'. v)
            (λ e'. mark-IsValid r name entry _ _ e v))

  deactivate-IsValid :
      (r : PluginRegistry) (name : String) (now : ℕ) (w : W)
      → IsValid r
      → IsValid (deactivate deactivate_plugin r name now w).registry
  unfolding deactivate
  deactivate-IsValid r name now w v =
      option-elim (λ (o : Done W). IsValid o.registry) (JsMap.get r.plugins name) _ _ v
        (λ entry e.
          if-elim (λ (o : Done W). IsValid o.registry) entry.is_active _ _
            (λ e'. mark-IsValid r name entry _ _ e v) (λ e'. v))

  either-IsValid :
      (res : Result) (rest d : Done W)
      → IsValid rest.registry
      → IsValid d.registry
      → IsValid (elim res as (λ x. Done W) [ returned b ↦ rest | thrown e ↦ d ]).registry
  either-IsValid (returned b) rest d v v' = v
  either-IsValid (thrown e) rest d v v' = v'

  activate_names-IsValid :
      (names : List String) (r : PluginRegistry) (now : ℕ) (w : W)
      → IsValid r
      → IsValid (activate_names activate_plugin names r now w).registry
  unfolding activate_names
  activate_names-IsValid [] r now w v = v
  activate_names-IsValid (name ∷ names) r now w v =
      let d = activate activate_plugin r name now w in
      let once = activate-IsValid r name now w v in
      either-IsValid d.result (activate_names activate_plugin names d.registry now d.world) d
        (activate_names-IsValid names d.registry now d.world once) once

  deactivate_names-IsValid :
      (names : List String) (r : PluginRegistry) (now : ℕ) (w : W)
      → IsValid r
      → IsValid (deactivate_names deactivate_plugin names r now w).registry
  unfolding deactivate_names
  deactivate_names-IsValid [] r now w v = v
  deactivate_names-IsValid (name ∷ names) r now w v =
      let d = deactivate deactivate_plugin r name now w in
      let once = deactivate-IsValid r name now w v in
      either-IsValid d.result (deactivate_names deactivate_plugin names d.registry now d.world) d
        (deactivate_names-IsValid names d.registry now d.world once) once

  clear-IsValid :
      (r : PluginRegistry) (w : W) → IsValid r → IsValid (clear begin_deactivate r w).registry
  unfolding clear
  clear-IsValid r w v =
      option-elim (λ (o : Done W). IsValid o.registry)
        (stop_entries begin_deactivate (values r.plugins) w).1 _ _
        (record { distinct = tt; bounded = omega arith }) (λ message e. v)

  -- Whatever the plugins' own code does or throws, and whatever it does before its first await where
  -- it is not awaited, registering, removing, activating and deactivating a plugin, activating and
  -- deactivating all of them and clearing the registry keep the names distinct and the plugins within
  -- their bound.
  pub operations-IsValid :
      (r : PluginRegistry) (p : Plugin) (name : String) (now : ℕ) (w : W)
      → IsValid r
      → IsValid (register begin_deactivate r p now w).registry
        × IsValid (unregister begin_deactivate r name w).registry
        × IsValid (activate activate_plugin r name now w).registry
        × IsValid (deactivate deactivate_plugin r name now w).registry
        × IsValid (activate_all activate_plugin r now w).registry
        × IsValid (deactivate_all deactivate_plugin r now w).registry
        × IsValid (clear begin_deactivate r w).registry
  unfolding activate_all deactivate_all
  operations-IsValid r p name now w v = (
    register-IsValid r p now w v,
    unregister-IsValid r name w v,
    activate-IsValid r name now w v,
    deactivate-IsValid r name now w v,
    activate_names-IsValid (keys r.plugins) r now w v,
    deactivate_names-IsValid (keys r.plugins) r now w v,
    clear-IsValid r w v,
  )
