-- ===== src/Plugins/Requests/Untouched.antt =====
-- What a bridge request of one plugin leaves alone.
-- What a request leaves as it was: the messages, what was posted, and the storage, the instance, the
-- commands and the panels of every plugin but its own.
use y5fgb.Common.{
  ◌≡◌, refl, lookup, inl, arith, subst, eq_text, starts_with, inr, starts_with-append, ◌++◌,
  eq_text_iff, Bool-cases, false, true, Text, Dict,
}
use y5fgb.Plugins.Host.{Instance, Host}
use y5fgb.Plugins.Bridge.{plugin_storage_prefix, plugin_storage_key}
use y5fgb.Plugins.Store.Frame.{commands_of, panels_of}

pub record IsUntouched (instance : Instance) (host host' : Host) : Type 0 where
  pub messaging : host'.messaging ≡ host.messaging
  pub posted : host'.posted ≡ host.posted
  pub desired_enabled : host'.plugins.desired_enabled ≡ host.plugins.desired_enabled
  pub storage :
      (key : Text)
      → starts_with (plugin_storage_prefix instance.manifest.id) key ≡ false
      → lookup key host'.storage ≡ lookup key host.storage
  pub instances :
      (q : Text) → ¬ (instance.manifest.id ≡ q) → lookup q host'.instances ≡ lookup q host.instances
  pub commands :
      (q : Text)
      → ¬ (instance.manifest.id ≡ q)
      → commands_of q host'.plugins ≡ commands_of q host.plugins
  pub panels :
      (q : Text)
      → ¬ (instance.manifest.id ≡ q)
      → panels_of q host'.plugins ≡ panels_of q host.plugins

module _ (instance : Instance) (host : Host) where
  pub storage-IsUntouched :
      (storage : Dict Text)
      → ((key : Text)
          → starts_with (plugin_storage_prefix instance.manifest.id) key ≡ false
          → lookup key storage ≡ lookup key host.storage)
      → IsUntouched instance host (record host { storage = storage })
  storage-IsUntouched storage h = record {
    messaging = refl;
    posted = refl;
    desired_enabled = refl;
    storage = h;
    instances = λ q other. refl;
    commands = λ q other. refl;
    panels = λ q other. refl;
  }

  pub own_key_differs :
      (own key : Text)
      → starts_with (plugin_storage_prefix instance.manifest.id) key ≡ false
      → eq_text (plugin_storage_key instance.manifest.id own) key ≡ false
  unfolding plugin_storage_key
  own_key_differs own key h =
      elim (Bool-cases (eq_text (plugin_storage_key instance.manifest.id own) key)) [
        | inl same ↦
            let starts = starts_with-append (plugin_storage_prefix instance.manifest.id) own in
            let e : plugin_storage_prefix instance.manifest.id ++ own ≡ key =
              (eq_text_iff _ key).0 same in
            let clash : starts_with (plugin_storage_prefix instance.manifest.id) key ≡ true =
              subst (λ k. starts_with (plugin_storage_prefix instance.manifest.id) k ≡ true) e
                starts in
            absurd (ground arith)
        | inr differs ↦ differs
      ]
