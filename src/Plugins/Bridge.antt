-- ===== src/Plugins/Bridge.antt =====
-- `processBridgeRequest` of apps/client-desktop/src/services/plugins/runtime.ts: one function for
-- each case of the switch, then the checks before it.
use y5fgb.Plugins.Store
use y5fgb.Plugins.Capability.{Method}
use y5fgb.Plugins.Pattern.{storage_key_pattern, runtime_id_pattern}
use y5fgb.Plugins.Store.{PluginCommand, PluginPanel}
use y5fgb.Plugins.Host.{
  Host, Instance, BridgeResult, BridgeErrorCode, Response, success, failure, put_instance,
  sync_plugin_runtime_collections,
}
use y5fgb.Common.{
  ltb, leb, length, Option, Json, filter, ◌||◌, not, none, string_of, ◌∷◌, ℕ, is_empty, ◌&&◌,
  insert, eq_text, trim, get_field, ◌+◌, Bool, remove, Text, or_default, lookup, find, Dict, some,
  codes, ◌++◌, [], if◌then◌else◌, take,
}
use Prim.Native.String.{String}

-- What the platform decides: whether `localStorage.setItem` has room, and `String(value)`.
pub record Platform : Type 0 where
  pub accepts : Dict Text → Text → Text → Bool
  pub text_of : Json → Text

-- `PluginBridgeRequest`. `encoded_bytes` is the length of the UTF-8 of `JSON.stringify(request)`,
-- `none` where that throws; `request_id` is `none` where it is no string.
pub record BridgeRequest : Type 0 where
  pub plugin_id : Text
  pub request_id : Option Text
  pub method : Method
  pub params : Json
  pub encoded_bytes : Option ℕ

abbrev pub Answer : Type 0
Answer = Host × Response

abbrev pub violation : Host → String → Answer
violation host message = (host, failure BridgeErrorCode.plugin_bridge_violation (codes message))

-- `typeof params.k === "string" ? params.k : ""`
unfoldable pub param : String → Json → Text
param k params = or_default (string_of (get_field (codes k) params)) []

-- The test of the command and panel registrations.
unfoldable pub is_bad_id : Text → Bool
is_bad_id id = is_empty id || ltb 96 (length id) || not (runtime_id_pattern id)

unfoldable pub is_bad_key : Text → Bool
is_bad_key key = is_empty key || not (storage_key_pattern key)

-- `pluginStorageKey`; its first part is the prefix that `pluginStorage.list` looks for.
unfoldable pub plugin_storage_prefix : Text → Text
plugin_storage_prefix plugin_id = codes "plugin-local:" ++ (plugin_id ++ codes ":")

unfoldable pub plugin_storage_key : Text → Text → Text
plugin_storage_key plugin_id key = plugin_storage_prefix plugin_id ++ key

unfoldable pub register_command : Text → Instance → Json → Host → Answer
register_command now instance params host =
    let plugin_id = instance.manifest.id in
    let id = trim (param "id" params) in
    let title = trim (param "title" params) in
    let command : PluginCommand = record { plugin_id = plugin_id; id = id; title = title } in
    let instance' = record instance {
      commands = filter (λ c. not (eq_text c.id id)) instance.commands ++ command ∷ [];
    } in
    if is_bad_id id || is_empty title
    then violation host "invalid command registration payload"
    else (
      sync_plugin_runtime_collections now plugin_id (put_instance instance' host),
      success BridgeResult.registered,
    )

unfoldable pub register_panel : Text → Instance → Json → Host → Answer
register_panel now instance params host =
    let plugin_id = instance.manifest.id in
    let id = trim (param "id" params) in
    let title = trim (param "title" params) in
    let panel : PluginPanel = record {
      plugin_id = plugin_id;
      id = id;
      title = title;
      content = [];
    } in
    let instance' = record instance {
      panels = filter (λ p. not (eq_text p.id id)) instance.panels ++ panel ∷ [];
    } in
    if is_bad_id id || is_empty title
    then violation host "invalid panel registration payload"
    else (
      sync_plugin_runtime_collections now plugin_id (put_instance instance' host),
      success BridgeResult.registered,
    )

-- The length of `new TextEncoder().encode(text)`: a surrogate pair takes four bytes, and a lone
-- surrogate is replaced by a character of three.
abbrev is_high : ℕ → Bool
is_high c = leb 0xd800 c && leb c 0xdbff

abbrev is_low : ℕ → Bool
is_low c = leb 0xdc00 c && leb c 0xdfff

unfoldable pub utf8_bytes : Text → ℕ
utf8_bytes [] = 0
utf8_bytes (c ∷ []) = if ltb c 0x80 then 1 else if ltb c 0x800 then 2 else 3
utf8_bytes (c ∷ d ∷ s) =
    let pair = 4 + utf8_bytes s in
    let single = utf8_bytes (d ∷ s) in
    if is_high c && is_low d
    then pair
    else (if ltb c 0x80 then 1 else if ltb c 0x800 then 2 else 3) + single

unfoldable pub set_panel_content : Text → Instance → Json → Host → Answer
set_panel_content now instance params host =
    let id = trim (param "id" params) in
    let content = take 5000 (param "content" params) in
    if is_bad_id id
    then violation host "panel id is required"
    else elim (find (λ p. eq_text p.id id) instance.panels) [
      | none ↦ violation host "panel not registered"
      | some existing ↦
          let panel : PluginPanel = record existing { content = content } in
          let instance' = record instance {
            panels = filter (λ p. not (eq_text p.id id)) instance.panels ++ panel ∷ [];
          } in
          let host' = put_instance instance' host in
          if ltb 65536 (utf8_bytes content) then violation host "panel content is too large" else (
            record host' { plugins = Store.upsert_plugin_panel now panel host'.plugins },
            success BridgeResult.updated,
          )
    ]

unfoldable pub storage_get : Instance → Json → Host → Answer
storage_get instance params host =
    let key = trim (param "key" params) in
    if is_bad_key key then violation host "storage key is required" else (
      host,
      success
          (BridgeResult.value (lookup (plugin_storage_key instance.manifest.id key) host.storage)),
    )

-- `typeof params.value === "string" ? params.value : String(params.value ?? "")`
unfoldable pub value_param : Platform → Json → Text
value_param platform params = elim (get_field (codes "value") params) [
  | none ↦ []
  | some v ↦ elim v [ Json.string s ↦ s | Json.null ↦ [] | other ↦ platform.text_of other ]
]

unfoldable pub storage_set : Platform → Instance → Json → Host → Answer
storage_set platform instance params host =
    let key = trim (param "key" params) in
    let full_key = plugin_storage_key instance.manifest.id key in
    let value = take 20000 (value_param platform params) in
    if is_bad_key key
    then violation host "storage key is required"
    else if platform.accepts host.storage full_key value
    then (record host { storage = insert full_key value host.storage }, success BridgeResult.stored)
    else (host, failure BridgeErrorCode.plugin_storage_unavailable (codes "bridge request failed"))

unfoldable pub storage_delete : Instance → Json → Host → Answer
storage_delete instance params host =
    let key = trim (param "key" params) in
    if is_bad_key key then violation host "storage key is required" else (
      record host { storage = remove (plugin_storage_key instance.manifest.id key) host.storage },
      success BridgeResult.deleted,
    )
