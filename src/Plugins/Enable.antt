-- ===== src/Plugins/Enable.antt =====
-- `enable` and `createActiveInstance` of apps/client-desktop/src/services/plugins/runtime.ts. `enable`
-- waits twice, so it is three functions: up to the first wait, after the plugin is ready, and after
-- it is initialised; where a wait times out, `failPlugin` follows. `bootstrap_token` and
-- `runtime_token` are what `randomID()` returns, `window` is the window of the new frame.
pub mod Launch
use y5fgb.Plugins.Store
use y5fgb.Common.{
  lookup, find, some, Text, ℕ, not, none, true, insert, false, Option, codes, ◌++◌, Dict, [],
}
use y5fgb.Plugins.Store.{manifest_id, PluginStatus, RegistryItem}
use y5fgb.Plugins.Manifest.{Manifest}
use y5fgb.Plugins.Host.{
  Instance, Host, post_to_plugin, HostMessage, sync_plugin_runtime_collections,
}
use y5fgb.Plugins.Capability.{is_capability_allowed_in_v1}
use y5fgb.Plugins.Runtime.{put_status}

-- `createActiveInstance`
unfoldable pub create_active_instance : Manifest → ℕ → Text → Text → Instance
create_active_instance manifest window bootstrap_token runtime_token = record {
  manifest = manifest;
  window = window;
  bootstrap_token = bootstrap_token;
  runtime_token = runtime_token;
  granted_permissions = manifest.requested_permissions;
  subscriptions = [];
  commands = [];
  panels = [];
  is_ready = false;
  is_initialized = false;
}

-- The host and, where a frame was started, the instance to wait for.
unfoldable pub begin_enable :
    Text → Text → Text → ℕ → Dict Manifest → Text → Host → Host × Option Instance
unfolding create_active_instance
begin_enable now bootstrap_token runtime_token window descriptors plugin_id host =
    elim (lookup plugin_id descriptors) [
      | none ↦ (
        record host {
          plugins =
              Store.update_plugin_status now plugin_id PluginStatus.failed
                (some (codes "plugin descriptor not found")) host.plugins;
        },
        none,
      )
      | some manifest ↦
          let wanted = Store.set_desired_enabled plugin_id true host.plugins in
          let instance = create_active_instance manifest window bootstrap_token runtime_token in
          elim (find (λ c. not (is_capability_allowed_in_v1 c)) manifest.requested_permissions) [
            | some capability ↦ (
              record host {
                plugins =
                    Store.update_plugin_status now plugin_id PluginStatus.disabled
                      (some (codes "permission denied for capability: " ++ capability)) wanted;
              },
              none,
            )
            | none ↦ elim (lookup plugin_id host.instances) [
              | some active ↦ (
                record host {
                  plugins =
                      Store.update_plugin_status now plugin_id PluginStatus.enabled none wanted;
                },
                none,
              )
              | none ↦ (
                record host {
                  plugins = wanted;
                  instances = insert plugin_id instance host.instances;
                },
                some instance,
              )
            ]
          ]
    ]

unfoldable pub after_ready : Text → Instance → Host → Host
after_ready plugin_id instance host =
    post_to_plugin instance
      (HostMessage.init plugin_id instance.runtime_token instance.manifest.requested_permissions)
      host

unfoldable pub after_initialized : Text → Text → Instance → Host → Host
after_initialized now plugin_id instance host =
    let change : RegistryItem → RegistryItem = λ existing. record existing {
      status = PluginStatus.enabled;
      granted_permissions = instance.manifest.requested_permissions;
      last_error = none;
      updated_at = now;
    } in
    sync_plugin_runtime_collections now plugin_id (record host {
      plugins =
          put_status now instance.manifest.id plugin_id change PluginStatus.enabled host.plugins;
    })
