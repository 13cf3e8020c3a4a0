-- ===== src/Plugins/Requests/Isolation.antt =====
-- Which part of the host a bridge request of one plugin can change.
use y5fgb.Plugins.Store
use y5fgb.Plugins.Requests.Effect.{IsNext, IsValidPanel, IsValidCommand, Effect, IsValidInstance}
use y5fgb.Common.{
  ◌∙◌, ◌≡◌, ap, lookup, false, Text, eq_text, refl, lookup-insert, arith, eq_text_iff, true, subst,
  All, inl, inr, sym, All-weaken, lookup-remove, filter,
}
use y5fgb.Plugins.Host.{Instance, Host, put_instance, sync_plugin_runtime_collections}
use y5fgb.Plugins.Bridge.{plugin_storage_key, Platform, BridgeRequest}
use y5fgb.Plugins.Store.Frame.{
  replace_plugin_commands_lem, upsert_plugin_panel_frame, replace_plugin_panels_lem,
  upsert_plugin_panel_rest,
}
use y5fgb.Plugins.Store.{PluginPanel}
use y5fgb.Plugins.Requests.Untouched.{IsUntouched, storage-IsUntouched, own_key_differs}
use y5fgb.Plugins.Requests.{process_bridge_request}
use y5fgb.Plugins.Pattern.{id_pattern}
use y5fgb.Plugins.Requests.StorageKeys.{plugin_storage_key_disjoint}
use y5fgb.Plugins.Requests.Steps.{process_bridge_request-Effect}

module _ (instance : Instance) (host : Host) where
  put_instance_other :
      (next : Instance)
      → IsNext instance next
      → (q : Text) → ¬ (instance.manifest.id ≡ q)
      → lookup q (put_instance next host).instances ≡ lookup q host.instances
  unfolding put_instance
  put_instance_other next n q other =
      let id_eq : next.manifest.id ≡ instance.manifest.id = ap (λ m. m.id) n.manifest in
      let differs : eq_text next.manifest.id q ≡ false =
        ground (arith, eq_text_iff next.manifest.id q) in
      lookup-insert next.manifest.id q next host.instances ∙ rw differs refl

  -- The stores get the contributions of the instance that was just put.
  pub sync_put_instance :
      (now : Text) (next : Instance)
      → IsNext instance next
      → sync_plugin_runtime_collections now instance.manifest.id (put_instance next host)
        ≡ record (put_instance next host) {
          plugins =
              Store.replace_plugin_panels now instance.manifest.id next.panels
                (Store.replace_plugin_commands now instance.manifest.id next.commands host.plugins);
        }
  unfolding sync_plugin_runtime_collections put_instance
  sync_put_instance now next n =
      let id_eq : next.manifest.id ≡ instance.manifest.id = ap (λ m. m.id) n.manifest in
      let same : eq_text next.manifest.id instance.manifest.id ≡ true =
        (eq_text_iff next.manifest.id instance.manifest.id).1 id_eq in
      rw
        (
          sync_plugin_runtime_collections,
          put_instance,
          lookup-insert next.manifest.id instance.manifest.id next host.instances,
          same,
        )
        refl

  owned_commands :
      (next : Instance)
      → IsNext instance next
      → All (λ c. c.plugin_id ≡ instance.manifest.id) next.commands
  owned_commands next n =
      All-weaken (IsValidCommand next.manifest.id) (λ c. c.plugin_id ≡ instance.manifest.id)
        (λ c v. v.owner ∙ ap (λ m. m.id) n.manifest) next.commands n.is_valid.commands

  owned_panels :
      (next : Instance)
      → IsNext instance next
      → All (λ c. c.plugin_id ≡ instance.manifest.id) next.panels
  owned_panels next n =
      All-weaken (IsValidPanel next.manifest.id) (λ c. c.plugin_id ≡ instance.manifest.id)
        (λ c v. v.owner ∙ ap (λ m. m.id) n.manifest) next.panels n.is_valid.panels

  contributed-IsUntouched :
      (now : Text) (next : Instance)
      → IsNext instance next
      → IsUntouched instance host
          (sync_plugin_runtime_collections now instance.manifest.id (put_instance next host))
  unfolding put_instance Store.replace_plugin_panels Store.replace_plugin_commands
  contributed-IsUntouched now next n =
      let id = instance.manifest.id in
      let commands = Store.replace_plugin_commands now id next.commands host.plugins in
      let differs : (q : Text) → ¬ (id ≡ q) → eq_text id q ≡ false =
        λ q other. ground (arith, eq_text_iff id q) in
      subst (IsUntouched instance host) (sym (sync_put_instance now next n)) (record {
        messaging = refl;
        posted = refl;
        desired_enabled = refl;
        storage = λ key h. refl;
        instances = put_instance_other next n;
        commands = λ q other.
            replace_plugin_commands_lem now id q next.commands host.plugins (owned_commands next n)
            ∙ rw (differs q other) refl;
        panels = λ q other.
            replace_plugin_panels_lem now id q next.panels commands (owned_panels next n)
            ∙ rw (differs q other) refl;
      })

  shown-IsUntouched :
      (now : Text) (next : Instance) (panel : PluginPanel)
      → IsNext instance next
      → IsValidPanel instance.manifest.id panel
      → IsUntouched instance host (record (put_instance next host) {
        plugins = Store.upsert_plugin_panel now panel host.plugins;
      })
  unfolding put_instance
  shown-IsUntouched now next panel n v = record {
    messaging = refl;
    posted = refl;
    desired_enabled = (upsert_plugin_panel_rest now panel host.plugins).1;
    storage = λ key h. refl;
    instances = put_instance_other next n;
    commands = λ q other.
        ap (filter (λ c. eq_text c.plugin_id q))
          (upsert_plugin_panel_rest now panel host.plugins).0;
    panels = λ q other.
        upsert_plugin_panel_frame now q panel host.plugins (λ same. other (sym v.owner ∙ same));
  }

  followed-IsUntouched :
      (next : Instance) → IsNext instance next → IsUntouched instance host (put_instance next host)
  unfolding put_instance
  followed-IsUntouched next n = record {
    messaging = refl;
    posted = refl;
    desired_enabled = refl;
    storage = λ key h. refl;
    instances = put_instance_other next n;
    commands = λ q other. refl;
    panels = λ q other. refl;
  }

  noticed-IsUntouched :
      (fresh now plugin_id message : Text)
      → IsUntouched instance host
          (record host { plugins = Store.add_notice fresh now plugin_id message host.plugins })
  unfolding Store.add_notice
  noticed-IsUntouched fresh now plugin_id message = record {
    messaging = refl;
    posted = refl;
    desired_enabled = refl;
    storage = λ key h. refl;
    instances = λ q other. refl;
    commands = λ q other. refl;
    panels = λ q other. refl;
  }

  pub Effect-IsUntouched :
      (host' : Host) → Effect instance host host' → IsUntouched instance host host'
  Effect-IsUntouched host' Effect.unchanged =
      storage-IsUntouched instance host host.storage (λ key h. refl)
  Effect-IsUntouched host' (Effect.contributed now next n) = contributed-IsUntouched now next n
  Effect-IsUntouched host' (Effect.shown now next panel n v) = shown-IsUntouched now next panel n v
  Effect-IsUntouched host' (Effect.followed next n) = followed-IsUntouched next n
  Effect-IsUntouched host' (Effect.stored own value _) =
      storage-IsUntouched instance host _ (λ key h.
        lookup-insert (plugin_storage_key instance.manifest.id own) key value host.storage
        ∙ rw (own_key_differs instance host own key h) refl)
  Effect-IsUntouched host' (Effect.deleted own) = storage-IsUntouched instance host _ (λ key h.
      lookup-remove (plugin_storage_key instance.manifest.id own) key host.storage
      ∙ rw (own_key_differs instance host own key h) refl)
  Effect-IsUntouched host' (Effect.noticed fresh now message _) =
      noticed-IsUntouched fresh now _ message

-- A bridge request of a valid instance leaves the messages, what was posted, and the storage, the
-- instance, the commands and the panels of every plugin but its own as they were.
pub process_bridge_request-IsUntouched :
    (platform : Platform) (fresh now : Text) (instance : Instance) (request : BridgeRequest)
    (host : Host)
    → IsValidInstance instance
    → IsUntouched instance host (process_bridge_request platform fresh now instance request host).0
process_bridge_request-IsUntouched platform fresh now instance request host valid =
    elim (process_bridge_request-Effect platform fresh now instance request host valid) [
      | inl (code, message, e) ↦
          subst (λ a. IsUntouched instance host a.0) (sym e)
            (Effect-IsUntouched instance host host Effect.unchanged)
      | inr (_, _, _, effect) ↦ Effect-IsUntouched instance host _ effect
    ]

-- No bridge request of a valid instance changes what another plugin has stored under any key, where
-- both plugin ids are of the form that a valid manifest has.
pub process_bridge_request-storage :
    (platform : Platform) (fresh now : Text) (instance : Instance) (request : BridgeRequest)
    (host : Host) (q key : Text)
    → IsValidInstance instance
    → id_pattern instance.manifest.id ≡ true
    → id_pattern q ≡ true
    → ¬ (instance.manifest.id ≡ q)
    → let host' = (process_bridge_request platform fresh now instance request host).0 in
      lookup (plugin_storage_key q key) host'.storage
      ≡ lookup (plugin_storage_key q key) host.storage
process_bridge_request-storage platform fresh now instance request host q key valid hp hq other =
    (process_bridge_request-IsUntouched platform fresh now instance request host valid).storage _
      (plugin_storage_key_disjoint instance.manifest.id q key hp hq other)
