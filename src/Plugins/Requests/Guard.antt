-- ===== src/Plugins/Requests/Guard.antt =====
-- What `processBridgeRequest` checks before it does anything.
use y5fgb.Common.{
  Text, false, ◌≤◌, some, ℕ, ◌≡◌, has_text, true, eq_text_iff, if_cases, option_cases, arith,
  eq_text, ltb, not, inr, refl, inl, ◌⊎◌, ltb-eq-false,
}
use y5fgb.Plugins.Host.{Host, Instance, BridgeErrorCode, failure}
use y5fgb.Plugins.Bridge.{Platform, Answer, BridgeRequest}
use y5fgb.Plugins.Requests.{
  process_bridge_request, perform, is_bad_request_id, plugin_capability_by_method,
}

-- The request may reach the switch: it names the plugin of the window, carries an id and fits in a
-- payload, and its method has a capability that is granted to the plugin.
pub record Authorized (instance : Instance) (request : BridgeRequest) : Type 0 where
  pub plugin : request.plugin_id ≡ instance.manifest.id
  pub request_id : is_bad_request_id request.request_id ≡ false
  pub size : ℕ
  pub encoded : request.encoded_bytes ≡ some size
  pub fits : size ≤ 65536
  pub capability : Text
  pub required : plugin_capability_by_method request.method ≡ some capability
  pub is_granted : has_text capability instance.granted_permissions ≡ true

-- The answer is an error, and the host is as it was.
abbrev pub IsRefused : Host → Answer → Type 0
IsRefused host answer =
    (code : BridgeErrorCode) × (message : Text) × (answer ≡ (host, failure code message))

module _ (platform : Platform) (fresh now : Text) (instance : Instance) (request : BridgeRequest)
    (host : Host) where
  abbrev performed : Answer
  performed = perform platform fresh now instance request.method request.params host

  abbrev answer : Answer
  answer = process_bridge_request platform fresh now instance request host

  pub process_bridge_request_cases :
      IsRefused host answer ⊎ (Authorized instance request × (answer ≡ performed))
  unfolding process_bridge_request
  process_bridge_request_cases =
      let P : Answer → Type 0 =
        λ a. IsRefused host a ⊎ (Authorized instance request × (a ≡ performed)) in
      if_cases P (not (eq_text request.plugin_id instance.manifest.id)) (λ _. inl (_, _, refl))
        (λ same.
          if_cases P (is_bad_request_id request.request_id) (λ _. inl (_, _, refl))
            (λ request_id.
              option_cases P request.encoded_bytes (λ _. inl (_, _, refl))
                (λ size encoded.
                  if_cases P (ltb 65536 size) (λ _. inl (_, _, refl))
                    (λ fits.
                      option_cases P (plugin_capability_by_method request.method)
                        (λ _. inl (_, _, refl))
                        (λ capability required.
                          if_cases P (not (has_text capability instance.granted_permissions))
                            (λ _. inl (_, _, refl))
                            (λ granted. inr (
                              record {
                                plugin =
                                    ground
                                      (arith, eq_text_iff request.plugin_id instance.manifest.id);
                                request_id = request_id;
                                size = size;
                                encoded = encoded;
                                fits = ground arith;
                                capability = capability;
                                required = required;
                                is_granted = ground arith;
                              },
                              refl,
                            )))))))

  Authorized-performed : Authorized instance request → answer ≡ performed
  unfolding process_bridge_request
  Authorized-performed a =
      let same : eq_text request.plugin_id instance.manifest.id ≡ true =
        (eq_text_iff request.plugin_id instance.manifest.id).1 a.plugin in
      let fits : ltb 65536 a.size ≡ false = ltb-eq-false a.size 65536 a.fits in
      rw (process_bridge_request, same, a.request_id, a.encoded, fits, a.required, a.is_granted)
        refl

  -- A request reaches the switch exactly when it is authorised: it names the plugin of the window,
  -- it has a request id and a payload within the limits, its method has a capability, and that
  -- capability is granted to the plugin. Any other request gets an error and changes nothing.
  pub process_bridge_request_guard :
      (Authorized instance request
        → process_bridge_request platform fresh now instance request host
          ≡ perform platform fresh now instance request.method request.params host)
      × (¬ Authorized instance request
          → IsRefused host (process_bridge_request platform fresh now instance request host))
  process_bridge_request_guard = (
    Authorized-performed,
    λ no. elim process_bridge_request_cases [ inl r ↦ r | inr (a, _) ↦ absurd (no a) ],
  )
