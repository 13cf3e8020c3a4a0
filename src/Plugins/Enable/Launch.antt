-- ===== src/Plugins/Enable/Launch.antt =====
-- What a plugin starts with.
use y5fgb.Plugins.Store
use y5fgb.Common.{
  lookup, option_cases, refl, arith, subst, ◌≡◌, Dict, ℕ, true, find, some, lookup-insert, none,
  Option, some-injective, eq_text_refl, Text, ◌∙◌, not, All, insert,
}
use y5fgb.Plugins.Enable.{begin_enable, create_active_instance, Manifest}
use y5fgb.Plugins.Host.{Host, Instance}
use y5fgb.Plugins.Requests.Effect.{IsValidInstance}
use y5fgb.Plugins.Capability.{is_capability_allowed_in_v1}
use y5fgb.Plugins.Manifest.Conforms.{find-none-All}

-- An instance was started: it is new, active, valid, and every permission granted to it is one that a
-- plugin may have.
pub record IsLaunched (plugin_id : Text) (host host' : Host) (instance : Instance) : Type 0 where
  pub was_down : lookup plugin_id host.instances ≡ none
  pub is_active : lookup plugin_id host'.instances ≡ some instance
  pub is_valid : IsValidInstance instance
  pub permissions : All (λ c. is_capability_allowed_in_v1 c ≡ true) instance.granted_permissions

create_active_instance-IsValidInstance :
    (manifest : Manifest) (window : ℕ) (bootstrap_token runtime_token : Text)
    → IsValidInstance (create_active_instance manifest window bootstrap_token runtime_token)
unfolding create_active_instance
create_active_instance-IsValidInstance manifest window bootstrap_token runtime_token = record {
  commands = tt;
  commands_distinct = tt;
  panels = tt;
  panels_distinct = tt;
  subscriptions = tt;
}

-- `enable` starts a frame only for a plugin that is not active, and the instance that it starts is
-- active and valid, and is granted only capabilities that are allowed in v1.
pub begin_enable-IsLaunched :
    (now bootstrap_token runtime_token : Text) (window : ℕ) (descriptors : Dict Manifest)
    (plugin_id : Text) (host : Host) (instance : Instance)
    → let result =
        begin_enable now bootstrap_token runtime_token window descriptors plugin_id host in
      result.1 ≡ some instance → IsLaunched plugin_id host result.0 instance
unfolding begin_enable create_active_instance
begin_enable-IsLaunched now bootstrap_token runtime_token window descriptors plugin_id host
      instance =
    let P : Host × Option Instance → Type 0 =
      λ r. r.1 ≡ some instance → IsLaunched plugin_id host r.0 instance in
    option_cases P (lookup plugin_id descriptors) (λ _ e. absurd (ground arith))
      (λ manifest _.
        option_cases P
          (find (λ c. not (is_capability_allowed_in_v1 c)) manifest.requested_permissions)
          (λ allowed.
            option_cases P (lookup plugin_id host.instances)
              (λ down e.
                let started =
                  create_active_instance manifest window bootstrap_token runtime_token in
                let host' : Host = record host {
                  plugins = Store.set_desired_enabled plugin_id true host.plugins;
                  instances = insert plugin_id started host.instances;
                } in
                let same : started ≡ instance = some-injective started instance e in
                subst (λ i. IsLaunched plugin_id host host' i) same
                  (record {
                    was_down = down;
                    is_active =
                        lookup-insert plugin_id plugin_id started host.instances
                        ∙ rw (eq_text_refl plugin_id) refl;
                    is_valid =
                        create_active_instance-IsValidInstance manifest window bootstrap_token
                          runtime_token;
                    permissions =
                        (find-none-All is_capability_allowed_in_v1 manifest.requested_permissions).0
                          allowed;
                  }))
              (λ active _ e. absurd (ground arith)))
          (λ capability _ e. absurd (ground arith)))
