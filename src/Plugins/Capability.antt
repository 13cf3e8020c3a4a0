-- ===== src/Plugins/Capability.antt =====
-- apps/client-desktop/src/services/plugins/capabilities.ts. A capability is the text that a manifest
-- asks for, which need not be a member of the union type.
use y5fgb.Common.{
  Option, List, false, has_text, Bool, none, ◌≡◌, [], ◌∷◌, if◌then◌else◌, Text, true, some, codes,
  eq_text, refl, any, is_some,
}

abbrev pub allowed_v1_capabilities : List Text
allowed_v1_capabilities =
    codes "ui.render"
    ∷ codes "commands.register"
    ∷ codes "storage.plugin_local"
    ∷ codes "notifications.local"
    ∷ codes "messages.read_active_conversation_summary"
    ∷ codes "messages.read_visible_messages"
    ∷ codes "events.subscribe"
    ∷ []

abbrev pub denied_by_default_capabilities : List Text
denied_by_default_capabilities =
    codes "network.outbound"
    ∷ codes "filesystem.read"
    ∷ codes "filesystem.write"
    ∷ codes "transport.control"
    ∷ codes "auth.session"
    ∷ codes "crypto.keys"
    ∷ codes "identity.material"
    ∷ []

-- `PluginBridgeMethod`; any other text that a request may carry is `unknown`.
pub data Method : Type 0 where
  register_command register_panel set_panel_content : Method
  storage_get storage_set storage_delete storage_list : Method
  get_active_conversation_summary get_visible_messages_sanitized : Method
  events_subscribe events_unsubscribe show_local : Method
  unknown : Text → Method

unfoldable pub plugin_capability_by_method : Method → Option Text
plugin_capability_by_method Method.register_command = some (codes "commands.register")
plugin_capability_by_method Method.register_panel = some (codes "ui.render")
plugin_capability_by_method Method.set_panel_content = some (codes "ui.render")
plugin_capability_by_method Method.storage_get = some (codes "storage.plugin_local")
plugin_capability_by_method Method.storage_set = some (codes "storage.plugin_local")
plugin_capability_by_method Method.storage_delete = some (codes "storage.plugin_local")
plugin_capability_by_method Method.storage_list = some (codes "storage.plugin_local")
plugin_capability_by_method Method.get_active_conversation_summary =
    some (codes "messages.read_active_conversation_summary")
plugin_capability_by_method Method.get_visible_messages_sanitized =
    some (codes "messages.read_visible_messages")
plugin_capability_by_method Method.events_subscribe = some (codes "events.subscribe")
plugin_capability_by_method Method.events_unsubscribe = some (codes "events.subscribe")
plugin_capability_by_method Method.show_local = some (codes "notifications.local")
plugin_capability_by_method (Method.unknown name) = none

unfoldable pub is_capability_allowed_in_v1 : Text → Bool
is_capability_allowed_in_v1 capability =
    if has_text capability denied_by_default_capabilities
    then false
    else has_text capability allowed_v1_capabilities

-- The texts that are a `PluginBridgeMethod`.
abbrev pub is_bridge_method : Method → Bool
is_bridge_method (Method.unknown name) = false
is_bridge_method _ = true

-- A manifest may ask for the capability, by the tables and by `isCapabilityAllowedInV1`.
abbrev pub IsGrantable : Option Text → Type 0
IsGrantable none = Unit
IsGrantable (some c) =
    (has_text c allowed_v1_capabilities ≡ true)
    × (has_text c denied_by_default_capabilities ≡ false)
    × (is_capability_allowed_in_v1 c ≡ true)

-- Every bridge method, and no other text, has a capability; that capability is among those of v1, it is
-- not denied by default, and `isCapabilityAllowedInV1` allows it.
pub plugin_capability_by_method-IsGrantable :
    (m : Method)
    → (is_some (plugin_capability_by_method m) ≡ is_bridge_method m)
      × IsGrantable (plugin_capability_by_method m)
unfolding plugin_capability_by_method is_capability_allowed_in_v1 has_text eq_text any
plugin_capability_by_method-IsGrantable (Method.unknown name) = (refl, tt)
plugin_capability_by_method-IsGrantable _ = (refl, (refl, refl, refl))
