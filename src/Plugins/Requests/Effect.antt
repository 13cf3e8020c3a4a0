-- ===== src/Plugins/Requests/Effect.antt =====
-- What one bridge request can do to the host, as a step relation.
use y5fgb.Plugins.Store
use y5fgb.Common.{
  Text, is_empty, ◌&&◌, remove, true, length, IsDistinctBy, false, insert, All, ◌≤◌, has_text, ◌≡◌,
}
use y5fgb.Plugins.Store.{PluginCommand, PluginPanel}
use y5fgb.Plugins.Host.{
  Instance, Host, sync_plugin_runtime_collections, put_instance, allowed_event_types,
}
use y5fgb.Plugins.Bridge.{is_bad_id, plugin_storage_key}

pub record IsValidCommand (plugin_id : Text) (command : PluginCommand) : Type 0 where
  pub owner : command.plugin_id ≡ plugin_id
  pub id : is_bad_id command.id ≡ false
  pub title : is_empty command.title ≡ false

pub record IsValidPanel (plugin_id : Text) (panel : PluginPanel) : Type 0 where
  pub owner : panel.plugin_id ≡ plugin_id
  pub id : is_bad_id panel.id ≡ false
  pub content : length panel.content ≤ 5000

-- What holds of every active instance: its contributions are its own, under distinct ids of the
-- form that `runtimeIDPattern` asks for, and it follows only events that its manifest declares.
pub record IsValidInstance (instance : Instance) : Type 0 where
  pub commands : All (IsValidCommand instance.manifest.id) instance.commands
  pub commands_distinct : IsDistinctBy (λ (c : PluginCommand). c.id) instance.commands
  pub panels : All (IsValidPanel instance.manifest.id) instance.panels
  pub panels_distinct : IsDistinctBy (λ (p : PluginPanel). p.id) instance.panels
  pub subscriptions :
      All
        (λ t.
          (has_text t allowed_event_types && has_text t instance.manifest.declared_hooks) ≡ true)
        instance.subscriptions

-- An instance that a request may leave behind: with the manifest, the window, the tokens and the
-- permissions that it had.
pub record IsNext (instance next : Instance) : Type 0 where
  pub manifest : next.manifest ≡ instance.manifest
  pub window : next.window ≡ instance.window
  pub bootstrap_token : next.bootstrap_token ≡ instance.bootstrap_token
  pub runtime_token : next.runtime_token ≡ instance.runtime_token
  pub granted_permissions : next.granted_permissions ≡ instance.granted_permissions
  pub is_valid : IsValidInstance next

-- The changes of one request.
pub data Effect (instance : Instance) (host : Host) : Host → Type 0 where
  unchanged : Effect instance host host
  contributed :
      (now : Text) (next : Instance)
      → IsNext instance next
      → Effect instance host
          (sync_plugin_runtime_collections now instance.manifest.id (put_instance next host))
  shown :
      (now : Text) (next : Instance) (panel : PluginPanel)
      → IsNext instance next
      → IsValidPanel instance.manifest.id panel
      → Effect instance host (record (put_instance next host) {
        plugins = Store.upsert_plugin_panel now panel host.plugins;
      })
  followed :
      (next : Instance) → IsNext instance next → Effect instance host (put_instance next host)
  stored :
      (key value : Text)
      → length value ≤ 20000
      → Effect instance host (record host {
        storage = insert (plugin_storage_key instance.manifest.id key) value host.storage;
      })
  deleted :
      (key : Text)
      → Effect instance host (record host {
        storage = remove (plugin_storage_key instance.manifest.id key) host.storage;
      })
  noticed :
      (fresh now message : Text)
      → length message ≤ 280
      → Effect instance host (record host {
        plugins = Store.add_notice fresh now instance.manifest.id message host.plugins;
      })
