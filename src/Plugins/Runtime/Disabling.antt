-- ===== src/Plugins/Runtime/Disabling.antt =====
-- What `disable` and `failPlugin` leave of a plugin.
use y5fgb.Plugins.Store
use y5fgb.Common.{
  lookup, none, Text, eq_text_refl, ◌≡◌, refl, [], some, ◌∙◌, update_first, find, option_cases,
  lookup-remove, filter, ap, lookup-insert, eq_text, false,
}
use y5fgb.Plugins.Host.{Host, teardown_plugin, Instance, fail_plugin}
use y5fgb.Plugins.Runtime.{put_status, disable}
use y5fgb.Plugins.Store.{PluginState, RegistryItem, PluginStatus}
use y5fgb.Plugins.Store.Frame.{commands_of, panels_of, clear_plugin_runtime_state_lem}

-- The plugin has no active instance, and the store shows no command and no panel of it.
pub record IsDown (plugin_id : Text) (host : Host) : Type 0 where
  pub instance : lookup plugin_id host.instances ≡ none
  pub commands : commands_of plugin_id host.plugins ≡ []
  pub panels : panels_of plugin_id host.plugins ≡ []

-- `teardownPlugin` takes an active plugin down.
teardown_plugin-IsDown :
    (p : Text) (host : Host) (instance : Instance)
    → lookup p host.instances ≡ some instance
    → IsDown p (teardown_plugin p host)
unfolding teardown_plugin
teardown_plugin-IsDown p host instance active =
    let (commands, panels, _) = clear_plugin_runtime_state_lem p p host.plugins in
    rw (teardown_plugin, active)
      (record {
        instance = lookup-remove p p host.instances ∙ rw (eq_text_refl p) refl;
        commands = commands ∙ rw (eq_text_refl p) refl;
        panels = panels ∙ rw (eq_text_refl p) refl;
      })

-- The store keeps its commands, its panels and what the user wants enabled.
IsSame : PluginState → PluginState → Type 0
IsSame s s' =
    (s'.commands ≡ s.commands) × (s'.panels ≡ s.panels) × (s'.desired_enabled ≡ s.desired_enabled)

upsert_registry_item-IsSame :
    (item : RegistryItem) (s : PluginState) → IsSame s (Store.upsert_registry_item item s)
unfolding Store.upsert_registry_item IsSame
upsert_registry_item-IsSame item s =
    option_cases (IsSame s) (update_first (Store.is_same_item item) (λ _. item) s.registry)
      (λ _. (refl, refl, refl)) (λ _ _. (refl, refl, refl))

put_status-IsSame :
    (now sought p : Text) (change : RegistryItem → RegistryItem) (status : PluginStatus)
    (s : PluginState)
    → IsSame s (put_status now sought p change status s)
unfolding put_status IsSame Store.update_plugin_status
put_status-IsSame now sought p change status s =
    option_cases (IsSame s) (find (Store.has_id sought) s.registry) (λ _. (refl, refl, refl))
      (λ current _. upsert_registry_item-IsSame (change current) s)

IsSame-IsDown :
    (p : Text) (host : Host) (plugins : PluginState)
    → IsSame host.plugins plugins
    → IsDown p host
    → IsDown p (record host { plugins = plugins })
unfolding IsSame
IsSame-IsDown p host plugins (commands, panels, _) down = record {
  instance = down.instance;
  commands = ap (filter (λ c. eq_text c.plugin_id p)) commands ∙ down.commands;
  panels = ap (filter (λ c. eq_text c.plugin_id p)) panels ∙ down.panels;
}

teardown_plugin-desired_enabled :
    (p : Text) (host : Host)
    → (teardown_plugin p host).plugins.desired_enabled ≡ host.plugins.desired_enabled
unfolding teardown_plugin Store.clear_plugin_runtime_state
teardown_plugin-desired_enabled p host =
    option_cases (λ (h : Host). h.plugins.desired_enabled ≡ host.plugins.desired_enabled)
      (lookup p host.instances) (λ _. refl) (λ _ _. refl)

-- After `disable` of an active plugin, it has no instance, no command and no panel, and it is recorded
-- as not wanted.
pub disable-IsDown :
    (now p : Text) (host : Host) (instance : Instance)
    → lookup p host.instances ≡ some instance
    → IsDown p (disable now p host)
      × (lookup p (disable now p host).plugins.desired_enabled ≡ some false)
unfolding disable Store.set_desired_enabled IsSame
disable-IsDown now p host instance active =
    let unwanted = record host { plugins = Store.set_desired_enabled p false host.plugins } in
    let down = teardown_plugin p unwanted in
    let change : RegistryItem → RegistryItem = λ current. record current {
      status = PluginStatus.disabled;
      granted_permissions = [];
      last_error = none;
      updated_at = now;
    } in
    let same = put_status-IsSame now p p change PluginStatus.disabled down.plugins in
    (
      IsSame-IsDown p down _ same (teardown_plugin-IsDown p unwanted instance active),
      ap (lookup p) (same.2 ∙ teardown_plugin-desired_enabled p unwanted)
          ∙ lookup-insert p p false host.plugins.desired_enabled
          ∙ rw (eq_text_refl p) refl,
    )

-- After `failPlugin` on an active plugin, it has no instance, no command and no panel.
pub fail_plugin-IsDown :
    (fresh now p message : Text) (host : Host) (instance : Instance)
    → lookup p host.instances ≡ some instance
    → IsDown p (fail_plugin fresh now p message host)
unfolding fail_plugin Store.update_plugin_status Store.add_notice IsSame
fail_plugin-IsDown fresh now p message host instance active =
    IsSame-IsDown p (teardown_plugin p host) _ (refl, refl, refl)
      (teardown_plugin-IsDown p host instance active)
