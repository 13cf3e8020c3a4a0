-- ===== src/Plugins/Requests/Storage.antt =====
-- The storage of one plugin, over several requests.
use y5fgb.Plugins.Bridge.{
  storage_get, storage_delete, is_bad_key, param, plugin_storage_key, Answer,
}
use y5fgb.Common.{
  ◌≡◌, trim, none, false, Text, Json, sym, lookup, Option, remove, subst, lookup-remove, refl,
  eq_text_refl, ◌∙◌,
}
use y5fgb.Plugins.Host.{Instance, Host, success, BridgeResult}

module _ (instance : Instance) (params : Json) where
  abbrev pub request_key : Text
  request_key = trim (param "key" params)

  abbrev pub request_full_key : Text
  request_full_key = plugin_storage_key instance.manifest.id request_key

  pub storage_get_accepted :
      (host : Host) (found : Option Text)
      → is_bad_key request_key ≡ false
      → lookup request_full_key host.storage ≡ found
      → storage_get instance params host ≡ (host, success (BridgeResult.value found))
  unfolding storage_get
  storage_get_accepted host found good e = rw (storage_get, good, e) refl

  storage_delete_accepted :
      (host : Host)
      → is_bad_key request_key ≡ false
      → storage_delete instance params host ≡ (
        record host { storage = remove request_full_key host.storage },
        success BridgeResult.deleted,
      )
  unfolding storage_delete remove
  storage_delete_accepted host good = rw (storage_delete, good) refl

-- After a `pluginStorage.delete` with a valid key, `pluginStorage.get` finds nothing under that key.
pub storage_get-storage_delete :
    (instance : Instance) (params : Json) (host : Host)
    → is_bad_key (request_key instance params) ≡ false
    → let host' = (storage_delete instance params host).0 in
      storage_get instance params host' ≡ (host', success (BridgeResult.value none))
storage_get-storage_delete instance params host good =
    let k = request_full_key instance params in
    subst
      (λ (a : Answer). storage_get instance params a.0 ≡ (a.0, success (BridgeResult.value none)))
      (sym (storage_delete_accepted instance params host good))
      (storage_get_accepted instance params _ _ good
        (lookup-remove k k host.storage ∙ rw (eq_text_refl k) refl))
