-- ===== src/Plugins/Host.antt =====
-- The state that apps/client-desktop/src/services/plugins/runtime.ts works on: the active plugin
-- instances, the stores, `localStorage`, and what was posted to the sandbox windows.
use y5fgb.Plugins.Store
use y5fgb.Messaging.Model.{ConversationType, DeliveryState, Lifecycle}
use y5fgb.Messaging.Store.{MessagingState}
use y5fgb.Plugins.Manifest.{Manifest}
use y5fgb.Plugins.Store.{PluginState, PluginCommand, PluginPanel, PluginStatus}
use y5fgb.Common.{
  insert, List, ◌++◌, remove, lookup, [], Bool, codes, ℕ, Text, none, ◌∷◌, some, Dict, Option,
}

-- `ActivePluginInstance`. A window is named by a number; a resolver that is still to be called is a
-- flag that is false.
pub record Instance : Type 0 where
  pub manifest : Manifest
  pub window : ℕ
  pub bootstrap_token : Text
  pub runtime_token : Text
  pub granted_permissions : List Text
  pub subscriptions : List Text
  pub commands : List PluginCommand
  pub panels : List PluginPanel
  pub is_ready : Bool
  pub is_initialized : Bool

pub record ConversationSummary : Type 0 where
  pub id : Text
  pub title : Option Text
  pub type : ConversationType
  pub member_count : ℕ
  pub last_server_sequence : ℕ
  pub updated_at : Text

pub record SanitizedAttachment : Type 0 where
  pub attachment_id : Text
  pub file_name : Text
  pub mime_type : Text
  pub size_bytes : ℕ

pub record SanitizedMessage : Type 0 where
  pub id : Text
  pub conversation_id : Text
  pub sender_account_id : Text
  pub sender_device_id : Text
  pub client_message_id : Text
  pub created_at : Text
  pub expires_at : Option Text
  pub server_sequence : ℕ
  pub delivery_state : DeliveryState
  pub lifecycle : Option Lifecycle
  pub is_expired : Bool
  pub text : Option Text
  pub attachments : List SanitizedAttachment

-- The results of the bridge methods.
pub data BridgeResult : Type 0 where
  registered updated stored deleted subscribed unsubscribed shown : BridgeResult
  value : Option Text → BridgeResult
  keys : List Text → BridgeResult
  summary : Option ConversationSummary → BridgeResult
  messages : List SanitizedMessage → BridgeResult

pub data BridgeErrorCode : Type 0 where
  plugin_permission_denied plugin_bridge_violation plugin_storage_unavailable : BridgeErrorCode

-- `PluginBridgeResponse`, without the two ids that it repeats from the request.
pub data Response : Type 0 where
  success : BridgeResult → Response
  failure : BridgeErrorCode → Text → Response

-- What the host posts to a plugin's window.
pub data HostMessage : Type 0 where
  init : (plugin_id runtime_token : Text) (granted_permissions : List Text) → HostMessage
  bridge_response : (runtime_token : Text) (request_id : Option Text) → Response → HostMessage
  event : (runtime_token event_type : Text) → HostMessage
  command_execute : (plugin_id runtime_token command_id : Text) → HostMessage

pub record Host : Type 0 where
  pub plugins : PluginState
  pub messaging : MessagingState
  pub storage : Dict Text
  pub instances : Dict Instance
  pub posted : List (ℕ × HostMessage)

abbrev pub allowed_event_types : List Text
allowed_event_types =
    codes "conversation.changed"
    ∷ codes "transport.state.changed"
    ∷ codes "message.visible"
    ∷ codes "command.executed"
    ∷ []

unfoldable pub put_instance : Instance → Host → Host
put_instance instance host = record host {
  instances = insert instance.manifest.id instance host.instances;
}

-- `postToPlugin`
unfoldable pub post_to_plugin : Instance → HostMessage → Host → Host
post_to_plugin instance payload host = record host {
  posted = host.posted ++ (instance.window, payload) ∷ [];
}

unfoldable pub sync_plugin_runtime_collections : Text → Text → Host → Host
sync_plugin_runtime_collections now plugin_id host = elim (lookup plugin_id host.instances) [
  | none ↦ host
  | some instance ↦ record host {
    plugins =
        Store.replace_plugin_panels now plugin_id instance.panels
          (Store.replace_plugin_commands now plugin_id instance.commands host.plugins);
  }
]

unfoldable pub teardown_plugin : Text → Host → Host
teardown_plugin plugin_id host = elim (lookup plugin_id host.instances) [
  | none ↦ host
  | some instance ↦ record host {
    instances = remove plugin_id host.instances;
    plugins = Store.clear_plugin_runtime_state plugin_id host.plugins;
  }
]

unfoldable pub fail_plugin : Text → Text → Text → Text → Host → Host
unfolding teardown_plugin
fail_plugin fresh now plugin_id message host =
    let down = teardown_plugin plugin_id host in
    record down {
      plugins = Store.add_notice fresh now plugin_id (codes "Plugin failed: " ++ message) (
          Store.update_plugin_status now plugin_id PluginStatus.failed (some message) down.plugins);
    }
