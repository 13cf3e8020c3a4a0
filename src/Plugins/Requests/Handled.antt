-- ===== src/Plugins/Requests/Handled.antt =====
-- Every case of `processBridgeRequest` refuses and changes nothing, or succeeds with one effect.
use y5fgb.Common.{
  All, is_empty, arith, filter-append-IsDistinctBy, ◌||◌, if_cases, ◌≡◌, ◌⊎◌, trim, inl, ◌&&◌, all,
  Json, Text, All-append, All-filter, true, inr, IsDistinctBy, List, refl, has_text, ◌∷◌, [],
  eq_text_iff, take, filter, eq_text, length-take-le, not, find, option_cases, ◌++◌, subst, ltb,
  All-find,
}
use y5fgb.Plugins.Host.{Instance, Host, BridgeResult, success, put_instance, allowed_event_types}
use y5fgb.Plugins.Bridge.{
  Answer, is_bad_id, set_panel_content, register_command, register_panel, param, utf8_bytes,
}
use y5fgb.Plugins.Requests.Guard.{IsRefused}
use y5fgb.Plugins.Requests.Effect.{Effect, IsValidInstance, IsValidPanel, IsValidCommand, IsNext}
use y5fgb.Plugins.Store.{PluginPanel, PluginCommand}

abbrev pub IsHandled : Instance → Host → Answer → Type 0
IsHandled instance host a =
    IsRefused host a ⊎ ((r : BridgeResult) × (a.1 ≡ success r) × Effect instance host a.0)

-- The instance with another list of commands, panels or events is still the same instance.
module _ (instance : Instance) (valid : IsValidInstance instance) where
  with_commands :
      (commands : List PluginCommand)
      → All (IsValidCommand instance.manifest.id) commands
      → IsDistinctBy (λ (c : PluginCommand). c.id) commands
      → IsNext instance (record instance { commands = commands })
  with_commands commands all distinct = record {
    manifest = refl;
    window = refl;
    bootstrap_token = refl;
    runtime_token = refl;
    granted_permissions = refl;
    is_valid = record {
      commands = all;
      commands_distinct = distinct;
      panels = valid.panels;
      panels_distinct = valid.panels_distinct;
      subscriptions = valid.subscriptions;
    };
  }

  with_panels :
      (panels : List PluginPanel)
      → All (IsValidPanel instance.manifest.id) panels
      → IsDistinctBy (λ (p : PluginPanel). p.id) panels
      → IsNext instance (record instance { panels = panels })
  with_panels panels all distinct = record {
    manifest = refl;
    window = refl;
    bootstrap_token = refl;
    runtime_token = refl;
    granted_permissions = refl;
    is_valid = record {
      commands = valid.commands;
      commands_distinct = valid.commands_distinct;
      panels = all;
      panels_distinct = distinct;
      subscriptions = valid.subscriptions;
    };
  }

  pub with_subscriptions :
      (subscriptions : List Text)
      → All
          (λ t.
            (has_text t allowed_event_types && has_text t instance.manifest.declared_hooks) ≡ true)
          subscriptions
      → IsNext instance (record instance { subscriptions = subscriptions })
  with_subscriptions subscriptions all = record {
    manifest = refl;
    window = refl;
    bootstrap_token = refl;
    runtime_token = refl;
    granted_permissions = refl;
    is_valid = record {
      commands = valid.commands;
      commands_distinct = valid.commands_distinct;
      panels = valid.panels;
      panels_distinct = valid.panels_distinct;
      subscriptions = all;
    };
  }

  module _ (now : Text) (params : Json) (host : Host) where
    P : Answer → Type 0
    P = IsHandled instance host

    pub register_command-IsHandled :
        IsHandled instance host (register_command now instance params host)
    unfolding P register_command
    register_command-IsHandled =
        let id = trim (param "id" params) in
        let title = trim (param "title" params) in
        let command : PluginCommand = record {
          plugin_id = instance.manifest.id;
          id = id;
          title = title;
        } in
        let owned = IsValidCommand instance.manifest.id in
        if_cases P (is_bad_id id || is_empty title) (λ _. inl (_, _, refl))
          (λ ok. inr (
            _,
            refl,
            Effect.contributed now _ (
                with_commands _
                  (All-append owned _ _ (All-filter owned _ _ valid.commands)
                    (record { owner = refl; id = ground arith; title = ground arith }, tt))
                  (filter-append-IsDistinctBy (λ (c : PluginCommand). c.id) command _
                    valid.commands_distinct)),
          ))

    pub register_panel-IsHandled : IsHandled instance host (register_panel now instance params host)
    unfolding P register_panel
    register_panel-IsHandled =
        let id = trim (param "id" params) in
        let title = trim (param "title" params) in
        let panel : PluginPanel = record {
          plugin_id = instance.manifest.id;
          id = id;
          title = title;
          content = [];
        } in
        let owned = IsValidPanel instance.manifest.id in
        if_cases P (is_bad_id id || is_empty title) (λ _. inl (_, _, refl))
          (λ ok. inr (
            _,
            refl,
            Effect.contributed now _ (
                with_panels _
                  (All-append owned _ _ (All-filter owned _ _ valid.panels)
                    (record { owner = refl; id = ground arith; content = ground arith }, tt))
                  (filter-append-IsDistinctBy (λ (p : PluginPanel). p.id) panel _
                    valid.panels_distinct)),
          ))

    pub set_panel_content-IsHandled :
        IsHandled instance host (set_panel_content now instance params host)
    unfolding P set_panel_content put_instance
    set_panel_content-IsHandled =
        let id = trim (param "id" params) in
        let content = take 5000 (param "content" params) in
        let owned = IsValidPanel instance.manifest.id in
        if_cases P (is_bad_id id) (λ _. inl (_, _, refl))
          (λ ok.
            option_cases P (find (λ p. eq_text p.id id) instance.panels) (λ _. inl (_, _, refl))
              (λ existing found.
                let (old, same) =
                  All-find owned (λ p. eq_text p.id id) instance.panels valid.panels existing
                    found in
                let panel : PluginPanel = record existing { content = content } in
                let panel_valid : owned panel = record {
                  owner = old.owner;
                  id = old.id;
                  content = length-take-le 5000 (param "content" params);
                } in
                let id_eq : existing.id ≡ id = (eq_text_iff existing.id id).0 same in
                let distinct =
                  filter-append-IsDistinctBy (λ (p : PluginPanel). p.id) panel _
                    valid.panels_distinct in
                if_cases P (ltb 65536 (utf8_bytes content)) (λ _. inl (_, _, refl))
                  (λ _. inr (
                    _,
                    refl,
                    Effect.shown now _ panel
                        (with_panels _
                          (All-append owned _ _ (All-filter owned _ _ valid.panels)
                            (panel_valid, tt))
                          (subst
                            (λ k.
                              IsDistinctBy (λ (p : PluginPanel). p.id)
                                (filter (λ p. not (eq_text p.id k)) instance.panels ++ panel ∷ []))
                            id_eq distinct))
                        panel_valid,
                  ))))
