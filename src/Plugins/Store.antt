-- ===== src/Plugins/Store.antt =====
-- `usePluginStore` of apps/client-desktop/src/state/pluginStore.ts. `now` is what
-- `new Date().toISOString()` returns during the action, `fresh` what `randomID()` returns.
use y5fgb.Plugins.Manifest.{Manifest, PluginSource}
use y5fgb.Common.{
  take, Dict, ◌∷◌, codes, false, map, string_of, update_first, find, some, Text, none, Json, filter,
  List, if◌then◌else◌, insert, eq_text, Bool, Option, [], get_field, ◌++◌, not, ◌&&◌,
}
pub mod Frame

pub data PluginStatus : Type 0 where
  discovered installed enabled disabled failed : PluginStatus

pub record PluginCommand : Type 0 where
  pub plugin_id : Text
  pub id : Text
  pub title : Text

pub record PluginPanel : Type 0 where
  pub plugin_id : Text
  pub id : Text
  pub title : Text
  pub content : Text

-- The manifest of a registry item: normalised, or as it came where validation failed.
pub data StoredManifest : Type 0 where
  checked : Manifest → StoredManifest
  unchecked : Json → StoredManifest

pub record RegistryItem : Type 0 where
  pub manifest : StoredManifest
  pub status : PluginStatus
  pub source : PluginSource
  pub source_ref : Text
  pub granted_permissions : List Text
  pub last_error : Option Text
  pub discovered_at : Text
  pub updated_at : Text
  pub commands : List PluginCommand
  pub panels : List PluginPanel

pub record Notice : Type 0 where
  pub id : Text
  pub plugin_id : Text
  pub message : Text
  pub created_at : Text

pub record PluginState : Type 0 where
  pub registry : List RegistryItem
  pub commands : List PluginCommand
  pub panels : List PluginPanel
  pub notices : List Notice
  pub desired_enabled : Dict Bool

abbrev pub no_plugins : PluginState
no_plugins = record {
  registry = [];
  commands = [];
  panels = [];
  notices = [];
  desired_enabled = [];
}

-- `manifest.id`, where it is a string.
unfoldable pub manifest_id : StoredManifest → Option Text
manifest_id (checked m) = some m.id
manifest_id (unchecked raw) = string_of (get_field (codes "id") raw)

-- `item.manifest.id === pluginId`
unfoldable pub has_id : Text → RegistryItem → Bool
unfolding manifest_id
has_id plugin_id item = elim (manifest_id item.manifest) [
  | none ↦ false
  | some id ↦ eq_text id plugin_id
]

pub set_registry : List RegistryItem → PluginState → PluginState
set_registry items state = record state { registry = items }

-- `current.manifest.id === item.manifest.id`, for an item whose id is a string.
unfoldable pub is_same_item : RegistryItem → RegistryItem → Bool
unfolding has_id
is_same_item item current = elim (manifest_id item.manifest) [
  | none ↦ false
  | some id ↦ has_id id current
]

unfoldable pub upsert_registry_item : RegistryItem → PluginState → PluginState
unfolding is_same_item
upsert_registry_item item state =
    elim (update_first (is_same_item item) (λ _. item) state.registry) [
      | none ↦ record state { registry = state.registry ++ item ∷ [] }
      | some next ↦ record state { registry = next }
    ]

-- `registry.map((item) => item.manifest.id === pluginId ? change(item) : item)`
unfoldable pub map_registry :
    Text → (RegistryItem → RegistryItem) → List RegistryItem → List RegistryItem
map_registry plugin_id change = map (λ item. if has_id plugin_id item then change item else item)

unfoldable pub update_plugin_status :
    Text → Text → PluginStatus → Option Text → PluginState → PluginState
unfolding map_registry
update_plugin_status now plugin_id status last_error state = record state {
  registry =
      map_registry plugin_id
        (λ item. record item { status = status; last_error = last_error; updated_at = now })
        state.registry;
}

unfoldable pub set_desired_enabled : Text → Bool → PluginState → PluginState
set_desired_enabled plugin_id wanted state = record state {
  desired_enabled = insert plugin_id wanted state.desired_enabled;
}

unfoldable pub replace_plugin_commands :
    Text → Text → List PluginCommand → PluginState → PluginState
unfolding map_registry
replace_plugin_commands now plugin_id commands state = record state {
  commands = filter (λ c. not (eq_text c.plugin_id plugin_id)) state.commands ++ commands;
  registry =
      map_registry plugin_id (λ item. record item { commands = commands; updated_at = now })
        state.registry;
}

unfoldable pub replace_plugin_panels : Text → Text → List PluginPanel → PluginState → PluginState
unfolding map_registry
replace_plugin_panels now plugin_id panels state = record state {
  panels = filter (λ p. not (eq_text p.plugin_id plugin_id)) state.panels ++ panels;
  registry =
      map_registry plugin_id (λ item. record item { panels = panels; updated_at = now })
        state.registry;
}

unfoldable pub is_same_panel : PluginPanel → PluginPanel → Bool
is_same_panel panel item = eq_text item.plugin_id panel.plugin_id && eq_text item.id panel.id

unfoldable pub upsert_plugin_panel : Text → PluginPanel → PluginState → PluginState
unfolding map_registry is_same_panel
upsert_plugin_panel now panel state =
    elim (update_first (is_same_panel panel) (λ _. panel) state.panels) [
      | none ↦ record state { panels = state.panels ++ panel ∷ [] }
      | some next ↦ record state {
        panels = next;
        registry =
            map_registry panel.plugin_id
              (λ item. record item {
                panels = filter (λ p. not (eq_text p.id panel.id)) item.panels ++ panel ∷ [];
                updated_at = now;
              })
              state.registry;
      }
    ]

unfoldable pub add_notice : Text → Text → Text → Text → PluginState → PluginState
add_notice fresh now plugin_id message state = record state {
  notices = take 100 (
      record { id = fresh; plugin_id = plugin_id; message = message; created_at = now }
      ∷ state.notices);
}

-- `clearPluginRuntimeState`: the status that it writes is that of the first item with the id.
unfoldable pub clear_plugin_runtime_state : Text → PluginState → PluginState
unfolding map_registry
clear_plugin_runtime_state plugin_id state =
    let current = find (has_id plugin_id) state.registry in
    record state {
      commands = filter (λ c. not (eq_text c.plugin_id plugin_id)) state.commands;
      panels = filter (λ p. not (eq_text p.plugin_id plugin_id)) state.panels;
      registry =
          map_registry plugin_id
            (λ item. record item {
              commands = [];
              panels = [];
              status = elim current [ none ↦ item.status | some c ↦ c.status ];
            })
            state.registry;
    }
