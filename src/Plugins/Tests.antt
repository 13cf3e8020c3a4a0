-- ===== src/Plugins/Tests.antt =====
-- Runs of the plugin bridge on small inputs, and instances of the theorems.
use y5fgb.Messaging.Store
use y5fgb.Plugins.Store.{
  StoredManifest, PluginStatus, PluginCommand, clear_plugin_runtime_state, PluginState,
  replace_plugin_commands, no_plugins, PluginPanel, has_id, RegistryItem,
}
use y5fgb.Plugins.Manifest.{
  PluginSource, validate_plugin_descriptor, Manifest, Validation, RawDescriptor, normalize_manifest,
  check_manifest, is_escaping, check_lists,
}
use y5fgb.Plugins.Store.Frame.{
  panels_of, commands_of, clear_plugin_runtime_state_lem, replace_plugin_commands_lem, IsCleared,
}
use y5fgb.Common.{
  ◌≡◌, refl, ◌∷◌, [], codes, Fields, Json, field, cons, nil, end, All, ◌≤◌, find, eq_text, any,
  length, Dict, string_of, has_text, ◌↔◌, if◌then◌else◌, false, trim, none, true, is_empty, arith,
  some, lookup, List, ◌⊎◌, get_field, Text, starts_with, includes, is_some, ◌&&◌,
}
use Prim.Native.String.{String}
use y5fgb.Plugins.Manifest.Conforms.{Conforms, validate_plugin_descriptor_iff}
use y5fgb.Plugins.Bridge.{
  is_bad_key, storage_delete, is_bad_id, set_panel_content, BridgeRequest, Platform, storage_set,
  plugin_storage_key, storage_get, param, plugin_storage_prefix,
}
use y5fgb.Plugins.Capability.{
  is_capability_allowed_in_v1, Method, plugin_capability_by_method, IsGrantable,
  plugin_capability_by_method-IsGrantable,
}
use y5fgb.Plugins.Requests.{
  is_bad_request_id, storage_list, process_bridge_request, perform, listed_key,
}
use y5fgb.Plugins.Host.{Host, Instance, success, BridgeResult}
use y5fgb.Plugins.Pattern.{id_pattern, semver_pattern, runtime_id_pattern, storage_key_pattern}
use y5fgb.Plugins.Requests.Untouched.{IsUntouched}
use y5fgb.Plugins.Requests.Instances.{IsValidHost, process_bridge_request-IsValidHost}
use y5fgb.Plugins.Requests.Effect.{IsValidInstance, Effect}
use y5fgb.Plugins.Requests.Isolation.{
  process_bridge_request-IsUntouched, process_bridge_request-storage,
}
use y5fgb.Plugins.Requests.Guard.{IsRefused, Authorized, process_bridge_request_guard}
use y5fgb.Plugins.Requests.Storage.{storage_get-storage_delete, request_key}
use y5fgb.Plugins.Requests.Listing.{storage_list-bound, IsGettable}
use y5fgb.Plugins.Requests.Steps.{process_bridge_request-Effect}
use y5fgb.Plugins.Requests.Panels.{set_panel_content-success}
use y5fgb.Plugins.Requests.Listed.{is_found, key_params}

abbrev pub manifest : Manifest
manifest = record {
  api_version = codes "v1";
  id = codes "notes";
  name = codes "Notes";
  version = codes "1.0.0";
  entrypoint = codes "main.js";
  requested_permissions = codes "storage.plugin_local" ∷ codes "ui.render" ∷ [];
  declared_hooks = codes "message.visible" ∷ [];
  panels = [];
}

abbrev text_field : String → String → Fields → Fields
text_field name value rest = field (codes name) (Json.string (codes value)) rest

abbrev raw_manifest : Json
raw_manifest = Json.object (
    text_field "apiVersion" "v1" (
      text_field "id" "notes" (
        text_field "name" "Notes" (
          text_field "version" "1.0.0" (
            text_field "entrypoint" "main.js" (
              field (codes "requestedPermissions")
                (Json.array (
                  cons (Json.string (codes "storage.plugin_local"))
                    (cons (Json.string (codes "ui.render")) nil)))
                (field (codes "declaredHooks")
                  (Json.array (cons (Json.string (codes "message.visible")) nil)) end)))))))

abbrev descriptor : RawDescriptor
descriptor = record {
  manifest = raw_manifest;
  source = PluginSource.local;
  source_ref = codes "notes";
  entrypoint_code = codes "main()";
}

checks : Unit {0}
unfolding validate_plugin_descriptor normalize_manifest string_of get_field eq_text is_empty trim
    check_manifest id_pattern semver_pattern is_escaping check_lists find
    is_capability_allowed_in_v1 has_text includes plugin_capability_by_method runtime_id_pattern
    param listed_key starts_with plugin_storage_prefix storage_key_pattern
checks = tt

descriptor_accepted : validate_plugin_descriptor descriptor ≡ Validation.ok manifest
unfolding checks
descriptor_accepted = refl

validate_plugin_descriptor_iff_example : Conforms descriptor manifest
validate_plugin_descriptor_iff_example =
    (validate_plugin_descriptor_iff descriptor manifest).0 descriptor_accepted

abbrev capability : Text
capability = codes "storage.plugin_local"

plugin_capability_by_method-IsGrantable_example :
    (is_some (plugin_capability_by_method Method.storage_set) ≡ true)
    × IsGrantable (plugin_capability_by_method Method.storage_set)
plugin_capability_by_method-IsGrantable_example =
    plugin_capability_by_method-IsGrantable Method.storage_set

abbrev instance_of : Manifest → Instance
instance_of m = record {
  manifest = m;
  window = 1;
  bootstrap_token = codes "boot";
  runtime_token = codes "run";
  granted_permissions = m.requested_permissions;
  subscriptions = [];
  commands = [];
  panels = record { plugin_id = m.id; id = codes "main"; title = codes "Main"; content = [] } ∷ [];
  is_ready = true;
  is_initialized = true;
}

abbrev pub notes : Instance
notes = instance_of manifest

abbrev stored_state : Dict Text
stored_state =
    (codes "plugin-local:other:k", codes "x") ∷ (codes "plugin-local:notes:a", codes "1") ∷ []

abbrev pub host : Host
host = record {
  plugins = no_plugins;
  messaging = Store.initial_state;
  storage = stored_state;
  instances = (codes "notes", notes) ∷ [];
  posted = [];
}

abbrev pub platform : Platform
platform = record { accepts = λ storage key value. true; text_of = λ v. codes "?" }

abbrev params : Json
params = Json.object (text_field "key" "draft" (text_field "value" "hello" end))

abbrev pub request : BridgeRequest
request = record {
  plugin_id = codes "notes";
  request_id = some (codes "1-1");
  method = Method.storage_set;
  params = params;
  encoded_bytes = some 120;
}

abbrev pub now : Text
now = codes "2024-01-01"

pub notes_valid : IsValidInstance notes
unfolding checks is_bad_id
notes_valid = record {
  commands = tt;
  commands_distinct = tt;
  panels = (record { owner = refl; id = refl; content = omega arith }, tt);
  panels_distinct = (refl, tt);
  subscriptions = tt;
}

request-Authorized : Authorized notes request
unfolding checks is_bad_request_id
request-Authorized = record {
  plugin = refl;
  request_id = refl;
  size = 120;
  encoded = refl;
  fits = omega arith;
  capability = capability;
  required = refl;
  is_granted = refl;
}

process_bridge_request_guard_example :
    process_bridge_request platform now now notes request host
    ≡ perform platform now now notes Method.storage_set params host
process_bridge_request_guard_example =
    (process_bridge_request_guard platform now now notes request host).0 request-Authorized

process_bridge_request-Effect_example :
    let a = process_bridge_request platform now now notes request host in
    IsRefused host a
    ⊎ (Authorized notes request × (r : BridgeResult) × (a.1 ≡ success r) × Effect notes host a.0)
process_bridge_request-Effect_example =
    process_bridge_request-Effect platform now now notes request host notes_valid

notes_id : id_pattern (codes "notes") ≡ true
unfolding checks
notes_id = refl

other_id : id_pattern (codes "other") ≡ true
unfolding checks
other_id = refl

notes_not_other : ¬ (codes "notes" ≡ codes "other")
notes_not_other e = ground arith

process_bridge_request-storage_example :
    let host' = (process_bridge_request platform now now notes request host).0 in
    lookup (plugin_storage_key (codes "other") (codes "k")) host'.storage
    ≡ lookup (plugin_storage_key (codes "other") (codes "k")) host.storage
process_bridge_request-storage_example =
    process_bridge_request-storage platform now now notes request host (codes "other") (codes "k")
      notes_valid notes_id other_id notes_not_other

process_bridge_request-IsUntouched_example :
    IsUntouched notes host (process_bridge_request platform now now notes request host).0
process_bridge_request-IsUntouched_example =
    process_bridge_request-IsUntouched platform now now notes request host notes_valid

process_bridge_request-IsValidHost_example :
    IsValidHost (process_bridge_request platform now now notes request host).0
process_bridge_request-IsValidHost_example =
    process_bridge_request-IsValidHost platform now now notes request host notes_valid
      ((refl, notes_valid), tt)

key_good : is_bad_key (request_key notes params) ≡ false
unfolding checks is_bad_key
key_good = refl

storage_get-storage_delete_example :
    let host' = (storage_delete notes params host).0 in
    storage_get notes params host' ≡ (host', success (BridgeResult.value none))
storage_get-storage_delete_example = storage_get-storage_delete notes params host key_good

storage_list-bound_example :
    (keys : List Text) × (storage_list notes host ≡ (host, success (BridgeResult.keys keys)))
    × (length keys ≤ 512)
    × All (IsGettable notes host) keys
    × ((has_text (codes "a") keys ≡ (
          storage_key_pattern (codes "a")
          && is_found (storage_get notes (key_params (codes "a")) host).1))
        ⊎ (length keys ≡ 512))
storage_list-bound_example = storage_list-bound notes host (codes "a")

-- Only the plugin's own key is listed.
storage_list_runs : storage_list notes host ≡ (host, success (BridgeResult.keys (codes "a" ∷ [])))
unfolding checks storage_list
storage_list_runs = refl

abbrev panel_params : Json
panel_params = Json.object (text_field "id" "main" (text_field "content" "text" end))

set_panel_content-success_example :
    ((set_panel_content now notes panel_params host).1 ≡ success BridgeResult.updated) ↔ (
      (is_bad_id (trim (param "id" panel_params)) ≡ false)
      × (any (λ (p : PluginPanel). eq_text p.id (trim (param "id" panel_params))) notes.panels
          ≡ true))
set_panel_content-success_example = set_panel_content-success now notes panel_params host

abbrev command : Text → PluginCommand
command owner = record { plugin_id = owner; id = codes "run"; title = codes "Run" }

abbrev registered : RegistryItem
registered = record {
  manifest = StoredManifest.checked notes.manifest;
  status = PluginStatus.enabled;
  source = PluginSource.bundled;
  source_ref = [];
  granted_permissions = [];
  last_error = none;
  discovered_at = now;
  updated_at = now;
  commands = command (codes "notes") ∷ [];
  panels = [];
}

abbrev plugin_state : PluginState
plugin_state = record no_plugins {
  registry = registered ∷ [];
  commands = command (codes "notes") ∷ command (codes "other") ∷ [];
}

clear_plugin_runtime_state_lem_example :
    let s' = clear_plugin_runtime_state (codes "notes") plugin_state in
    (commands_of (codes "notes") s' ≡ (
      if eq_text (codes "notes") (codes "notes")
      then []
      else commands_of (codes "notes") plugin_state))
    × (panels_of (codes "notes") s' ≡ (
        if eq_text (codes "notes") (codes "notes")
        then []
        else panels_of (codes "notes") plugin_state))
    × IsCleared
        (eq_text (codes "notes") (codes "notes"))
        (find (has_id (codes "notes")) plugin_state.registry)
        (find (has_id (codes "notes")) s'.registry)
clear_plugin_runtime_state_lem_example =
    clear_plugin_runtime_state_lem (codes "notes") (codes "notes") plugin_state

replace_plugin_commands_lem_example :
    commands_of
      (codes "other")
      (replace_plugin_commands now (codes "notes") (command (codes "notes") ∷ []) plugin_state)
    ≡ (if eq_text (codes "notes") (codes "other")
        then command (codes "notes") ∷ []
        else commands_of (codes "other") plugin_state)
replace_plugin_commands_lem_example =
    replace_plugin_commands_lem now (codes "notes") (codes "other") (command (codes "notes") ∷ [])
      plugin_state (refl, tt)
