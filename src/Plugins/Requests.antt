-- ===== src/Plugins/Requests.antt =====
-- `processBridgeRequest` of apps/client-desktop/src/services/plugins/runtime.ts: the cases that list
-- keys, read messages, follow events and show notices, and the checks before the switch.
pub mod Guard
pub mod Effect
pub mod Handled
pub mod Steps
pub mod StorageKeys
pub mod Untouched
pub mod Isolation
pub mod Instances
pub mod Storage
pub mod Listing
pub mod Listed
pub mod Panels
use mathlib.Core.Option
use y5fgb.Plugins.Store
use y5fgb.Plugins.Bridge.{
  storage_get, storage_set, storage_delete, Platform, BridgeRequest, Answer, register_command,
  plugin_storage_prefix, param, violation, register_panel, set_panel_content,
}
use y5fgb.Common.{
  codes, Dict, trim, List, Text, or_default, not, ◌||◌, Option, Json, find, eq_text, ltb, filter,
  has_text, some, none, ◌+◌, length, starts_with, take, lookup, ℕ, drop, if◌then◌else◌, ◌==◌,
  is_empty, ◌++◌, true, [], leb, map, ◌∷◌, false, Bool,
}
use y5fgb.Messaging.Model.{LocalMessage, Conversation, AttachmentSecret}
use y5fgb.Plugins.Pattern.{storage_key_pattern}
use y5fgb.Plugins.Host.{
  Host, Instance, SanitizedMessage, ConversationSummary, failure, success, BridgeResult,
  BridgeErrorCode, put_instance, allowed_event_types,
}
use y5fgb.Plugins.Capability.{Method, plugin_capability_by_method}

-- `pluginStorage.list`: the keys of `localStorage` in its order, `count` of them pushed before.
unfoldable pub listed_key : Text → Text → Option Text
listed_key prefix full_key =
    let key = drop (length prefix) full_key in
    if is_empty full_key || not (starts_with prefix full_key)
    then none
    else if not (storage_key_pattern key)
    then none
    else some key

unfoldable pub list_keys : Text → ℕ → Dict Text → List Text
list_keys prefix count [] = []
list_keys prefix count ((full_key, v) ∷ entries) = elim (listed_key prefix full_key) [
  | none ↦ list_keys prefix count entries
  | some key ↦
      key ∷ elim (leb 512 (count + 1)) [ true ↦ [] | false ↦ list_keys prefix (count + 1) entries ]
]

unfoldable pub storage_list : Instance → Host → Answer
unfolding list_keys
storage_list instance host =
    let prefix = plugin_storage_prefix instance.manifest.id in
    (host, success (BridgeResult.keys (list_keys prefix 0 host.storage)))

abbrev summary_of : Conversation → ConversationSummary
summary_of c = record {
  id = c.id;
  title = c.title;
  type = c.type;
  member_count = length c.members;
  last_server_sequence = c.last_server_sequence;
  updated_at = c.updated_at;
}

unfoldable pub get_active_conversation_summary : Host → Answer
get_active_conversation_summary host =
    let state = host.messaging in
    let active : Option Conversation = elim state.active_conversation_id [
      | none ↦ none
      | some id ↦ find (λ (c : Conversation). eq_text c.id id) state.conversations
    ] in
    (host, success (BridgeResult.summary (Option.map summary_of active)))

unfoldable pub sanitized : LocalMessage → SanitizedMessage
sanitized message = record {
  id = message.envelope.id;
  conversation_id = message.envelope.conversation_id;
  sender_account_id = message.envelope.sender_account_id;
  sender_device_id = message.envelope.sender_device_id;
  client_message_id = message.envelope.client_message_id;
  created_at = message.envelope.created_at;
  expires_at = message.envelope.expires_at;
  server_sequence = message.envelope.server_sequence;
  delivery_state = message.delivery_state;
  lifecycle = message.lifecycle;
  is_expired = or_default message.is_expired false;
  text = Option.map (λ p. p.text) message.plaintext;
  attachments = elim message.plaintext [
    | none ↦ []
    | some p ↦
        map
          (λ (a : AttachmentSecret). record {
            attachment_id = a.attachment_id;
            file_name = a.file_name;
            mime_type = a.mime_type;
            size_bytes = a.size_bytes;
          })
          p.attachments
  ];
}

-- An active conversation whose id is empty counts as none.
unfoldable pub get_visible_messages_sanitized : Host → Answer
unfolding sanitized
get_visible_messages_sanitized host =
    let state = host.messaging in
    let id = or_default state.active_conversation_id [] in
    let messages = or_default (lookup id state.messages_by_conversation) [] in
    (host, success (BridgeResult.messages (if is_empty id then [] else map sanitized messages)))

-- `Set.add`
unfoldable pub add_text : Text → List Text → List Text
add_text t ts = if has_text t ts then ts else ts ++ t ∷ []

unfoldable pub events_subscribe : Instance → Json → Host → Answer
unfolding add_text
events_subscribe instance params host =
    let event_type = param "eventType" params in
    let instance' = record instance {
      subscriptions = add_text event_type instance.subscriptions;
    } in
    if not (has_text event_type allowed_event_types)
    then violation host "unsupported event type"
    else if not (has_text event_type instance.manifest.declared_hooks)
    then (
      host,
      failure BridgeErrorCode.plugin_permission_denied
          (codes "event '" ++ (event_type ++ codes "' is not declared in manifest")),
    )
    else (put_instance instance' host, success BridgeResult.subscribed)

unfoldable pub events_unsubscribe : Instance → Json → Host → Answer
events_unsubscribe instance params host =
    let event_type = param "eventType" params in
    let instance' = record instance {
      subscriptions = filter (λ t. not (eq_text t event_type)) instance.subscriptions;
    } in
    if not (has_text event_type allowed_event_types)
    then violation host "unsupported event type"
    else (put_instance instance' host, success BridgeResult.unsubscribed)

unfoldable pub show_local : Text → Text → Instance → Json → Host → Answer
show_local fresh now instance params host =
    let message = trim (param "message" params) in
    if is_empty message then violation host "notification message is required" else (
      record host {
        plugins = Store.add_notice fresh now instance.manifest.id (take 280 message) host.plugins;
      },
      success BridgeResult.shown,
    )

-- The switch over the methods.
unfoldable pub perform : Platform → Text → Text → Instance → Method → Json → Host → Answer
perform platform fresh now instance Method.register_command params host =
    register_command now instance params host
perform platform fresh now instance Method.register_panel params host =
    register_panel now instance params host
perform platform fresh now instance Method.set_panel_content params host =
    set_panel_content now instance params host
perform platform fresh now instance Method.storage_get params host =
    storage_get instance params host
perform platform fresh now instance Method.storage_set params host =
    storage_set platform instance params host
perform platform fresh now instance Method.storage_delete params host =
    storage_delete instance params host
perform platform fresh now instance Method.storage_list params host = storage_list instance host
perform platform fresh now instance Method.get_active_conversation_summary params host =
    get_active_conversation_summary host
perform platform fresh now instance Method.get_visible_messages_sanitized params host =
    get_visible_messages_sanitized host
perform platform fresh now instance Method.events_subscribe params host =
    events_subscribe instance params host
perform platform fresh now instance Method.events_unsubscribe params host =
    events_unsubscribe instance params host
perform platform fresh now instance Method.show_local params host =
    show_local fresh now instance params host
perform platform fresh now instance (Method.unknown name) params host =
    violation host "unsupported bridge method"

abbrev missing_capability : Host → Text → Answer
missing_capability host capability = (
  host,
  failure BridgeErrorCode.plugin_permission_denied
      (codes "missing capability '" ++ (capability ++ codes "'")),
)

unfoldable pub is_bad_request_id : Option Text → Bool
is_bad_request_id none = true
is_bad_request_id (some id) = length id == 0 || ltb 128 (length id)

-- `processBridgeRequest`
unfoldable pub process_bridge_request :
    Platform → Text → Text → Instance → BridgeRequest → Host → Answer
process_bridge_request platform fresh now instance request host =
    let required = plugin_capability_by_method request.method in
    if not (eq_text request.plugin_id instance.manifest.id)
    then violation host "plugin id mismatch"
    else if is_bad_request_id request.request_id
    then violation host "invalid request id"
    else elim request.encoded_bytes [
      | none ↦ violation host "invalid bridge payload"
      | some size ↦
          if ltb 65536 size then violation host "bridge payload too large" else elim required [
            | none ↦ missing_capability host (codes "unknown")
            | some capability ↦
                if not (has_text capability instance.granted_permissions)
                then missing_capability host capability
                else perform platform fresh now instance request.method request.params host
          ]
    ]
