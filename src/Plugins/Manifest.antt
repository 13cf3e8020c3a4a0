-- ===== src/Plugins/Manifest.antt =====
-- apps/client-desktop/src/services/plugins/manifest.ts: a manifest of unknown shape is normalised
-- and checked.
pub mod Conforms
use y5fgb.Plugins.Capability.{is_capability_allowed_in_v1}
use y5fgb.Plugins.Pattern.{id_pattern, semver_pattern}
use y5fgb.Common.{
  Json, Option, eq_text, length, is_empty, ◌++◌, trim, get_field, Text, ◌||◌, or_default, find, [],
  string_of, not, List, ◌∷◌, has_text, elements, if◌then◌else◌, ltb, starts_with, Bool, codes,
  includes, some, none,
}
use Prim.Native.String.{String}

pub data PluginSource : Type 0 where
  bundled local : PluginSource

pub record PanelInfo : Type 0 where
  pub id : Text
  pub title : Text

-- `PluginManifest`
pub record Manifest : Type 0 where
  pub api_version : Text
  pub id : Text
  pub name : Text
  pub version : Text
  pub entrypoint : Text
  pub requested_permissions : List Text
  pub declared_hooks : List Text
  pub panels : List PanelInfo

-- `LoadedPluginDescriptor`, before validation.
pub record RawDescriptor : Type 0 where
  pub manifest : Json
  pub source : PluginSource
  pub source_ref : Text
  pub entrypoint_code : Text

pub data ErrorCode : Type 0 where
  plugin_manifest_invalid plugin_permission_denied plugin_load_failed : ErrorCode

pub record PluginValidationError : Type 0 where
  pub code : ErrorCode
  pub message : Text

-- `err` is the returned error; `ok` is the returned null, with the manifest that the descriptor gets.
pub data Validation : Type 0 where
  ok : Manifest → Validation
  err : PluginValidationError → Validation

abbrev pub allowed_hooks : List Text
allowed_hooks =
    codes "conversation.changed"
    ∷ codes "transport.state.changed"
    ∷ codes "message.visible"
    ∷ codes "command.executed"
    ∷ []

-- `asString`: a string with something left after `trim`, trimmed.
unfoldable pub as_string : Option Json → Option Text
as_string value = elim (string_of value) [
  | none ↦ none
  | some s ↦ let trimmed = trim s in if is_empty trimmed then none else some trimmed
]

unfoldable pub trimmed_strings : List Json → List Text
unfolding as_string
trimmed_strings [] = []
trimmed_strings (v ∷ vs) =
    let rest = trimmed_strings vs in elim (as_string (some v)) [ none ↦ rest | some s ↦ s ∷ rest ]

-- `Array.isArray(value) ? value : []`
unfoldable pub items_of : Option Json → List Json
items_of (some (Json.array vs)) = elements vs
items_of _ = []

unfoldable pub as_string_array : Option Json → List Text
unfolding trimmed_strings items_of
as_string_array value = trimmed_strings (items_of value)

unfoldable pub panel_of : Json → Option PanelInfo
unfolding as_string
panel_of panel = elim (as_string (get_field (codes "id") panel)) [
  | none ↦ none
  | some panel_id ↦ elim (as_string (get_field (codes "title") panel)) [
    | none ↦ none
    | some panel_title ↦ some (record { id = panel_id; title = panel_title })
  ]
]

unfoldable pub panels_of : List Json → List PanelInfo
unfolding panel_of
panels_of [] = []
panels_of (v ∷ vs) =
    let rest = panels_of vs in elim (panel_of v) [ none ↦ rest | some p ↦ p ∷ rest ]

infixl 5 ◌>>=◌
abbrev ◌>>=◌ {ℓ κ} : {A : Type ℓ} {B : Type κ} → Option A → (A → Option B) → Option B
none >>= f = none
some a >>= f = f a

unfoldable pub normalize_manifest : Json → Option Manifest
unfolding as_string as_string_array panels_of
normalize_manifest raw = do
  api_version ← as_string (get_field (codes "apiVersion") raw)
  id ← as_string (get_field (codes "id") raw)
  name ← as_string (get_field (codes "name") raw)
  version ← as_string (get_field (codes "version") raw)
  entrypoint ← as_string (get_field (codes "entrypoint") raw)
  let ui_contributions = or_default (get_field (codes "uiContributions") raw) Json.null
  some (record {
    api_version = api_version;
    id = id;
    name = name;
    version = version;
    entrypoint = entrypoint;
    requested_permissions = as_string_array (get_field (codes "requestedPermissions") raw);
    declared_hooks = as_string_array (get_field (codes "declaredHooks") raw);
    panels = panels_of (items_of (get_field (codes "panels") ui_contributions));
  })

-- The test of `entrypoint must be a relative path`.
unfoldable pub is_escaping : Text → Bool
is_escaping entrypoint =
    includes (codes "..") entrypoint
    || starts_with (codes "/") entrypoint
    || starts_with (b'\\' ∷ []) entrypoint

abbrev invalid : String → Validation
invalid message = err (record { code = plugin_manifest_invalid; message = codes message })

abbrev not_loaded : String → Validation
not_loaded message = err (record { code = plugin_load_failed; message = codes message })

-- The two loops at the end, each over what it refuses first.
unfoldable pub check_lists : Manifest → Validation
check_lists m = elim (find (λ c. not (is_capability_allowed_in_v1 c)) m.requested_permissions) [
  | some capability ↦ err (record {
    code = plugin_permission_denied;
    message = codes "capability '" ++ (capability ++ codes "' is denied by default in v1");
  })
  | none ↦ elim (find (λ h. not (has_text h allowed_hooks)) m.declared_hooks) [
    | some hook ↦ err (record {
      code = plugin_manifest_invalid;
      message = codes "declared hook '" ++ (hook ++ codes "' is not supported");
    })
    | none ↦ ok m
  ]
]

unfoldable pub check_manifest : Text → Manifest → Validation
check_manifest entrypoint_code m =
    if not (eq_text m.api_version (codes "v1"))
    then invalid "unsupported plugin apiVersion"
    else if not (id_pattern m.id)
    then invalid "plugin id must match /^[a-z0-9._-]{3,64}$/"
    else if not (semver_pattern m.version)
    then invalid "plugin version must be semver-like"
    else if is_escaping m.entrypoint
    then invalid "entrypoint must be a relative path"
    else if is_empty (trim entrypoint_code)
    then not_loaded "plugin entrypoint code is empty"
    else if ltb 512000 (length entrypoint_code)
    then not_loaded "plugin entrypoint exceeds maximum size"
    else check_lists m

unfoldable pub validate_plugin_descriptor : RawDescriptor → Validation
validate_plugin_descriptor descriptor = elim (normalize_manifest descriptor.manifest) [
  | none ↦ invalid "manifest shape is invalid"
  | some m ↦ check_manifest descriptor.entrypoint_code m
]
