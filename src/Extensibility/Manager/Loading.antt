-- ===== src/Extensibility/Manager/Loading.antt =====
-- What loading a plugin leaves.
use pine_framework.Prelude.{
  ℕ, ◌≡◌, refl, ap, sym, subst, ◌∙◌, Option, none, some, Bool, true, false, String, string_eq,
  ===-refl, if◌then◌else◌, arith,
}
use pine_framework.Prelude.JsMap.{JsMap, get-set, has_of_get}
use pine_framework.Prelude.JsMap
use pine_framework.Extensibility.Registry.{
  Plugin, PluginEntry, PluginRegistry, Result, returned, thrown, Done, fresh_entry, mark, register,
  activate,
}
use pine_framework.Extensibility.Registry.Queries.{is_active}
use pine_framework.Extensibility.Registry.Swap.{register_lem}
use pine_framework.Extensibility.Manager.{
  PluginManager, is_returned, load_registered, load_plugin, is_plugin_active,
}

abbrev pub is_none {ℓ} : {A : Type ℓ} → Option A → Bool
is_none none = true
is_none (some x) = false

module _ {W : Type 0}
    (activate_plugin deactivate_plugin begin_deactivate : Plugin → W → W × Option String) where
  -- An entry that is marked active, if its plugin's own code did not throw.
  mark-is_active :
      (r : PluginRegistry) (name : String) (old new : PluginEntry) (x : W × Option String)
      → JsMap.get r.plugins name ≡ some old
      → old.is_active ≡ false
      → new.is_active ≡ true
      → (is_active (mark r name new x).registry name ≡ is_none x.1)
        × (is_returned (mark r name new x).result ≡ is_none x.1)
  unfolding mark is_active
  mark-is_active r name old new (w, none) found off on =
      ground (arith, on, get-set r.plugins name new name, ===-refl name)
  mark-is_active r name old new (w, some message) found off on = ground (arith, found, off)

  -- `activate` of an entry that is registered and not active yet.
  activate-mark :
      (r : PluginRegistry) (p : Plugin) (since now : ℕ) (w : W)
      → JsMap.get r.plugins p.name ≡ some (fresh_entry p since)
      → activate activate_plugin r p.name now w
        ≡ mark r p.name
            (record (fresh_entry p since) { is_active = true; activated_at = some now })
            (activate_plugin p w)
  unfolding activate
  activate-mark r p since now w found =
      ap
        (λ (o : Option PluginEntry). elim o as (λ x. Done W) [
          | none ↦ record { registry = r; world = w; result = returned false }
          | some entry ↦
              if entry.is_active
              then record { registry = r; world = w; result = returned true }
              else mark r p.name (record entry { is_active = true; activated_at = some now })
                  (activate_plugin entry.plugin w)
        ])
        found

  activate_fresh :
      (r : PluginRegistry) (p : Plugin) (since now : ℕ) (w : W)
      → JsMap.get r.plugins p.name ≡ some (fresh_entry p since)
      → (is_active (activate activate_plugin r p.name now w).registry p.name
          ≡ is_none (activate_plugin p w).1)
        × (is_returned (activate activate_plugin r p.name now w).result
            ≡ is_none (activate_plugin p w).1)
  activate_fresh r p since now w found =
      subst
        (λ (d : Done W).
          (is_active d.registry p.name ≡ is_none (activate_plugin p w).1)
          × (is_returned d.result ≡ is_none (activate_plugin p w).1))
        (sym (activate-mark r p since now w found))
        (mark-is_active r p.name (fresh_entry p since)
          (record (fresh_entry p since) { is_active = true; activated_at = some now })
          (activate_plugin p w) found refl refl)

  -- What `load_registered` makes of a registration that succeeded.
  Loaded : PluginManager → Plugin → ℕ → Done W → Type 0
  Loaded m p now d =
      let error = (activate_plugin p d.world).1 in
      let c = load_registered activate_plugin deactivate_plugin begin_deactivate m p now d in
      (c.answer ≡ is_none error)
      × (is_plugin_active c.manager p.name ≡ is_none error)
      × (JsMap.get c.manager.plugins p.name ≡ some p)

  load_registered-Loaded :
      (m : PluginManager) (p : Plugin) (now : ℕ) (r : PluginRegistry) (w : W) (res : Result)
      → res ≡ returned true
      → JsMap.get r.plugins p.name ≡ some (fresh_entry p now)
      → Loaded m p now (record { registry = r; world = w; result = res })
  unfolding Loaded load_registered
  load_registered-Loaded m p now r w (returned b) e found =
      let (active, answered) = activate_fresh r p now now w found in
      (answered, active, ground (arith, get-set m.plugins p.name p p.name, ===-refl p.name))
  load_registered-Loaded m p now r w (thrown t) e found = ground (arith, e)

  -- If the registry accepts a plugin, then loadPlugin holds it, answers true exactly if the plugin's own
  -- activation does not throw, and leaves it active exactly then: a plugin that fails stays, not active.
  pub load_plugin_lem :
      (m : PluginManager) (p : Plugin) (now : ℕ) (w : W)
      → (register begin_deactivate m.registry p now w).result ≡ returned true
      → let error = (activate_plugin p (register begin_deactivate m.registry p now w).world).1 in
        let c = load_plugin activate_plugin deactivate_plugin begin_deactivate m p now w in
        (c.answer ≡ is_none error)
        × (is_plugin_active c.manager p.name ≡ is_none error)
        × (JsMap.get c.manager.plugins p.name ≡ some p)
  unfolding load_plugin Loaded
  load_plugin_lem m p now w h =
      let d = register begin_deactivate m.registry p now w in
      load_registered-Loaded m p now d.registry d.world d.result h (
        register_lem begin_deactivate m.registry p now w p.name h
        ∙ ap (λ b. if b then some (fresh_entry p now) else JsMap.get m.registry.plugins p.name)
            (===-refl p.name))
