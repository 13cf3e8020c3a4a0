-- ===== src/Plugins/Window.antt =====
-- `handleWindowMessage` and `findInstanceForMessage` of
-- apps/client-desktop/src/services/plugins/runtime.ts: the messages that come from the windows.
pub mod Tokens
pub mod Instances
use y5fgb.Plugins.Bridge.{Platform, BridgeRequest}
use y5fgb.Common.{
  eq_text, ◌==◌, lookup, is_empty, Bool, map, ◌&&◌, or_default, ℕ, not, Option, Text, if◌then◌else◌,
  none, false, find, codes, true, [], some,
}
use y5fgb.Plugins.Host.{Host, Instance, fail_plugin, put_instance, post_to_plugin, HostMessage}
use y5fgb.Plugins.Requests.{process_bridge_request}

pub data MessageKind : Type 0 where
  ready initialized error bridge_request unknown_kind : MessageKind

-- `PluginRuntimeMessage`, with a field for each property that some kind has. An id and a token are
-- texts where they are present. `request` is the message read as a bridge request.
pub record RuntimeMessage : Type 0 where
  pub kind : MessageKind
  pub plugin_id : Option Text
  pub bootstrap_token : Option Text
  pub runtime_token : Option Text
  pub message : Text
  pub request : BridgeRequest

-- `MessageEvent`, whose data is an object. `source` is the window, where it is one.
pub record WindowEvent : Type 0 where
  pub source : Option ℕ
  pub origin : Text
  pub payload : RuntimeMessage

-- `token === expected`
unfoldable pub is_token : Option Text → Text → Bool
is_token none expected = false
is_token (some t) expected = eq_text t expected

-- `token && token !== expected`
unfoldable pub is_other_token : Option Text → Text → Bool
is_other_token none expected = false
is_other_token (some t) expected = not (is_empty t) && not (eq_text t expected)

-- The lookup by the plugin id that the message names.
unfoldable pub find_by_plugin_id : RuntimeMessage → Host → Option Instance
unfolding is_other_token
find_by_plugin_id payload host =
    let plugin_id = or_default payload.plugin_id [] in
    if is_empty plugin_id then none else elim (lookup plugin_id host.instances) [
      | none ↦ none
      | some candidate ↦
          if is_other_token payload.bootstrap_token candidate.bootstrap_token
          then none
          else some candidate
    ]

-- The lookup by the window that sent the message.
unfoldable pub find_by_window : Option ℕ → Host → Option Instance
find_by_window none host = none
find_by_window (some source) host =
    find (λ (i : Instance). i.window == source) (map (λ e. e.1) host.instances)

-- `findInstanceForMessage`
unfoldable pub find_instance_for_message : WindowEvent → Host → Option Instance
unfolding find_by_plugin_id
find_instance_for_message event host = elim (find_by_window event.source host) [
  | none ↦ find_by_plugin_id event.payload host
  | some i ↦ some i
]

unfoldable pub handle_bridge_request :
    Platform → Text → Text → RuntimeMessage → Instance → Host → Host
handle_bridge_request platform fresh now payload instance host =
    let answer = process_bridge_request platform fresh now instance payload.request host in
    post_to_plugin instance
      (HostMessage.bridge_response instance.runtime_token payload.request.request_id answer.1)
      answer.0

-- What follows the checks of the origin and the plugin id, for each kind.
unfoldable pub handle_kind :
    Platform → Text → Text → MessageKind → RuntimeMessage → Instance → Host → Host
unfolding is_token is_other_token handle_bridge_request
handle_kind platform fresh now MessageKind.ready payload instance host =
    if not (is_token payload.bootstrap_token instance.bootstrap_token)
    then fail_plugin fresh now instance.manifest.id (codes "plugin bootstrap token mismatch") host
    else put_instance (record instance { is_ready = true }) host
handle_kind platform fresh now MessageKind.initialized payload instance host =
    if not (is_token payload.bootstrap_token instance.bootstrap_token)
    then fail_plugin fresh now instance.manifest.id (codes "plugin bootstrap token mismatch") host
    else if not (is_token payload.runtime_token instance.runtime_token)
    then fail_plugin fresh now instance.manifest.id (codes "plugin runtime token mismatch") host
    else put_instance (record instance { is_initialized = true }) host
handle_kind platform fresh now MessageKind.error payload instance host =
    let message =
      if is_empty payload.message then codes "plugin runtime error" else payload.message in
    if not (is_token payload.bootstrap_token instance.bootstrap_token)
    then fail_plugin fresh now instance.manifest.id (codes "plugin bootstrap token mismatch") host
    else if is_other_token payload.runtime_token instance.runtime_token
    then fail_plugin fresh now instance.manifest.id (codes "plugin runtime token mismatch") host
    else fail_plugin fresh now instance.manifest.id message host
handle_kind platform fresh now MessageKind.bridge_request payload instance host =
    if not (is_token payload.runtime_token instance.runtime_token)
    then fail_plugin fresh now instance.manifest.id (codes "plugin bridge token mismatch") host
    else handle_bridge_request platform fresh now payload instance host
handle_kind platform fresh now MessageKind.unknown_kind payload instance host = host

-- `handleWindowMessage`, in a page whose origin is `own_origin`.
unfoldable pub handle_window_message : Platform → Text → Text → Text → WindowEvent → Host → Host
unfolding find_instance_for_message handle_kind
handle_window_message platform fresh now own_origin event host =
    elim (find_instance_for_message event host) [
      | none ↦ host
      | some instance ↦
          if not (eq_text event.origin (codes "null")) && not (eq_text event.origin own_origin)
          then fail_plugin fresh now instance.manifest.id (codes "plugin origin violation") host
          else if is_other_token event.payload.plugin_id instance.manifest.id
          then fail_plugin fresh now instance.manifest.id (codes "plugin id mismatch") host
          else handle_kind platform fresh now event.payload.kind event.payload instance host
    ]
