-- ===== src/Plugins/Requests/Panels.antt =====
-- The size check of `setPanelContent`.
use y5fgb.Common.{
  arith, ◌≡◌, [], ltb-eq-false, trim, take, ◌≤◌, length, refl, ◌∷◌, find, Text, length-take-le, ◌*◌,
  false, ltb, eq_text, Json, option_cases, if_cases, any, any_of_find, ◌↔◌, any_of_found, true,
}
use y5fgb.Plugins.Bridge.{utf8_bytes, set_panel_content, param, is_bad_id, Answer}
use y5fgb.Plugins.Host.{Instance, Host, success, BridgeResult}
use y5fgb.Plugins.Store.{PluginPanel}

-- A code unit takes at most three bytes of UTF-8, and a surrogate pair four.
utf8_bytes_bound : (s : Text) → utf8_bytes s ≤ 3 * length s
unfolding utf8_bytes
utf8_bytes_bound [] = omega arith
utf8_bytes_bound (c ∷ []) = ground arith
utf8_bytes_bound (c ∷ d ∷ s) = ground (arith, utf8_bytes_bound s, utf8_bytes_bound (d ∷ s))

content_fits : (s : Text) → ltb 65536 (utf8_bytes (take 5000 s)) ≡ false
content_fits s =
    let n = length-take-le 5000 s in
    let b = utf8_bytes_bound (take 5000 s) in
    ltb-eq-false (utf8_bytes (take 5000 s)) 65536 (omega arith)

-- `setPanelContent` succeeds exactly when the panel id is well formed and the panel is registered:
-- its size check never fails, since 5000 code units take at most 15000 bytes.
pub set_panel_content-success :
    (now : Text) (instance : Instance) (params : Json) (host : Host)
    → let id = trim (param "id" params) in
      ((set_panel_content now instance params host).1 ≡ success BridgeResult.updated)
      ↔ ((is_bad_id id ≡ false) × (any (λ p. eq_text p.id id) instance.panels ≡ true))
unfolding set_panel_content
set_panel_content-success now instance params host =
    let id = trim (param "id" params) in
    let registered = any (λ (p : PluginPanel). eq_text p.id id) instance.panels in
    let P : Answer → Type 0 =
      λ a. (a.1 ≡ success BridgeResult.updated) ↔ ((is_bad_id id ≡ false) × (registered ≡ true)) in
    if_cases P (is_bad_id id) (λ bad. ground arith)
      (λ good.
        option_cases P (find (λ p. eq_text p.id id) instance.panels)
          (λ gone. let none_has = any_of_find _ instance.panels gone in ground arith)
          (λ existing found.
            let has : registered ≡ true =
              any_of_found (λ (p : PluginPanel). eq_text p.id id) instance.panels existing found in
            if_cases P (ltb 65536 (utf8_bytes (take 5000 (param "content" params))))
              (λ big. let fits = content_fits (param "content" params) in absurd (ground arith))
              (λ _. (λ _. (good, has), λ _. refl))))
