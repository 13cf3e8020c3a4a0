-- ===== src/Plugins/Runtime.antt =====
-- The operations of `PluginRuntime` in apps/client-desktop/src/services/plugins/runtime.ts that the
-- views call and that do not wait: disable, install, executeCommand; and emitEvent.
pub mod Events
pub mod Disabling
use y5fgb.Plugins.Store
use y5fgb.Common.{
  lookup, map, some, ◌∷◌, Dict, List, [], codes, false, none, if◌then◌else◌, find, has_text, Text,
  not,
}
use y5fgb.Plugins.Store.{manifest_id, RegistryItem, PluginStatus, PluginState}
use y5fgb.Plugins.Host.{Instance, Host, teardown_plugin, post_to_plugin, HostMessage}
use y5fgb.Plugins.Manifest.{Manifest}

-- The loop of `emitEvent` over the active instances. The payload of an event is left out.
unfoldable pub emit_to : Text → List Instance → Host → Host
emit_to event_type [] host = host
emit_to event_type (i ∷ is) host =
    let posted = post_to_plugin i (HostMessage.event i.runtime_token event_type) host in
    emit_to event_type is (if has_text event_type i.subscriptions then posted else host)

-- `emitEvent`
unfoldable pub emit_event : Text → Host → Host
unfolding emit_to
emit_event event_type host = emit_to event_type (map (λ e. e.1) host.instances) host

-- `executeCommand`
unfoldable pub execute_command : Text → Text → Text → Text → Host → Host
unfolding emit_event
execute_command fresh now plugin_id command_id host = elim (lookup plugin_id host.instances) [
  | none ↦ record host {
    plugins = Store.add_notice fresh now plugin_id (codes "Plugin is not enabled.") host.plugins;
  }
  | some instance ↦ emit_event (codes "command.executed") (
      post_to_plugin instance
        (HostMessage.command_execute plugin_id instance.runtime_token command_id) host)
]

-- Change the first registry item whose id is `sought`; where there is none, set the status of the
-- plugin.
unfoldable pub put_status :
    Text → Text → Text → (RegistryItem → RegistryItem) → PluginStatus → PluginState → PluginState
put_status now sought plugin_id change status plugins =
    elim (find (Store.has_id sought) plugins.registry) [
      | none ↦ Store.update_plugin_status now plugin_id status none plugins
      | some current ↦ Store.upsert_registry_item (change current) plugins
    ]

-- `disable`
unfoldable pub disable : Text → Text → Host → Host
unfolding put_status
disable now plugin_id host =
    let unwanted = record host {
      plugins = Store.set_desired_enabled plugin_id false host.plugins;
    } in
    let down = teardown_plugin plugin_id unwanted in
    let change : RegistryItem → RegistryItem = λ current. record current {
      status = PluginStatus.disabled;
      granted_permissions = [];
      last_error = none;
      updated_at = now;
    } in
    record down {
      plugins = put_status now plugin_id plugin_id change PluginStatus.disabled down.plugins;
    }

-- `install`, with the descriptors that discovery found.
unfoldable pub install : Text → Dict Manifest → Text → Host → Host
unfolding put_status
install now descriptors plugin_id host =
    let change : RegistryItem → RegistryItem = λ current. record current {
      status = PluginStatus.installed;
      last_error = none;
      updated_at = now;
    } in
    elim (lookup plugin_id descriptors) [
      | none ↦ record host {
        plugins =
            Store.update_plugin_status now plugin_id PluginStatus.failed
              (some (codes "plugin descriptor not found")) host.plugins;
      }
      | some manifest ↦ record host {
        plugins = put_status now manifest.id plugin_id change PluginStatus.installed host.plugins;
      }
    ]
