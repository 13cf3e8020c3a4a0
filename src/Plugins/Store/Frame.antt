-- ===== src/Plugins/Store/Frame.antt =====
-- What the actions of the plugin store do to the contributions of one plugin, and leave alone.
use mathlib.Core.Option
use y5fgb.Plugins.Store.{
  PluginState, PluginCommand, PluginPanel, clear_plugin_runtime_state, replace_plugin_commands,
  upsert_plugin_panel, is_same_panel, replace_plugin_panels, map_registry, RegistryItem, has_id,
  manifest_id,
}
use y5fgb.Common.{
  arith, filter-append, ◌∙◌, All, eq_text_iff, if◌then◌else◌, ◌∷◌, inr, refl, inl, append-nil, List,
  [], not, Text, eq_text, filter, Bool-cases, ◌≡◌, update_first, some, false, option_cases,
  update_first-cases, none, true, if_cases, map, sym, Option-cases, Bool, find, find-passes,
  find-map_kept, Option, subst,
}

-- The commands and the panels of one plugin.
abbrev pub commands_of : Text → PluginState → List PluginCommand
commands_of plugin_id s = filter (λ c. eq_text c.plugin_id plugin_id) s.commands

abbrev pub panels_of : Text → PluginState → List PluginPanel
panels_of plugin_id s = filter (λ p. eq_text p.plugin_id plugin_id) s.panels

filter-filter-not_eq {ℓ} :
    {A : Type ℓ} (owner : A → Text) (p q : Text) (xs : List A)
    → filter (λ x. eq_text (owner x) q) (filter (λ x. not (eq_text (owner x) p)) xs)
      ≡ (if eq_text p q then [] else filter (λ x. eq_text (owner x) q) xs)
unfolding filter
filter-filter-not_eq owner p q [] = ground arith
filter-filter-not_eq owner p q (x ∷ xs) = ground (
  arith,
  filter-filter-not_eq owner p q xs,
  eq_text_iff (owner x) p,
  eq_text_iff (owner x) q,
  eq_text_iff p q,
)

-- What stands in the registry under an id is cleared of contributions where `clears`, and is as it was
-- in every other respect.
abbrev pub IsCleared : Bool → Option RegistryItem → Option RegistryItem → Type 0
IsCleared clears none after = after ≡ none
IsCleared clears (some item) after =
    after
    ≡ some (record item {
      commands = if clears then [] else item.commands;
      panels = if clears then [] else item.panels;
    })

-- Two ids of one item are the same.
has_id-functional :
    (p q : Text) (item : RegistryItem) → has_id p item ≡ true → has_id q item ≡ eq_text p q
unfolding has_id
has_id-functional p q item =
    option_cases (λ b. b ≡ true → has_id q item ≡ eq_text p q) (manifest_id item.manifest)
      (λ _ e. absurd (ground arith)) (λ id found e. rw (has_id, found, (eq_text_iff id p).0 e) refl)

-- What the action makes of an item; `current` is the item that it found under the id.
abbrev cleared : Option RegistryItem → RegistryItem → RegistryItem
cleared current item = record item {
  commands = [];
  panels = [];
  status = elim current [ none ↦ item.status | some c ↦ c.status ];
}

abbrev cleared_under : Text → Option RegistryItem → RegistryItem → RegistryItem
cleared_under p current item = if has_id p item then cleared current item else item

has_id-cleared :
    (p q : Text) (current : Option RegistryItem) (item : RegistryItem)
    → has_id q (cleared_under p current item) ≡ has_id q item
unfolding has_id
has_id-cleared p q current item =
    if_cases (λ i. has_id q i ≡ has_id q item) (has_id p item) (λ _. refl) (λ _. refl)

cleared_under-IsCleared :
    (p q : Text) (item : RegistryItem) (current : Option RegistryItem)
    → has_id q item ≡ true
    → (eq_text p q ≡ true → current ≡ some item)
    → IsCleared (eq_text p q) (some item) (some (cleared_under p current item))
cleared_under-IsCleared p q item current own same =
    let held : has_id p item ≡ eq_text q p = has_id-functional q p item own in
    elim (Bool-cases (eq_text p q)) [
      | inl e ↦
          let back : eq_text q p ≡ true = ground (arith, eq_text_iff p q, eq_text_iff q p) in
          rw (e, held, back, same e) refl
      | inr e ↦
          let back : eq_text q p ≡ false = ground (arith, eq_text_iff p q, eq_text_iff q p) in
          rw (e, held, back) refl
    ]

find-IsCleared :
    (p q : Text) (items : List RegistryItem)
    → IsCleared
        (eq_text p q)
        (find (has_id q) items)
        (find (has_id q) (map (cleared_under p (find (has_id p) items)) items))
find-IsCleared p q items =
    let current = find (has_id p) items in
    let made =
      find-map_kept (has_id q) (cleared_under p current) items (has_id-cleared p q current) in
    subst (IsCleared (eq_text p q) (find (has_id q) items)) (sym made)
      (elim (Option-cases (find (has_id q) items)) [
        | inl missing ↦ rw missing refl
        | inr (item, found) ↦
            subst (λ o. IsCleared (eq_text p q) o (Option.map (cleared_under p current) o))
              (sym found)
              (cleared_under-IsCleared p q item current (find-passes (has_id q) items item found)
                (λ e.
                  subst (λ k. find (has_id k) items ≡ some item) (sym ((eq_text_iff p q).0 e))
                    found))
      ])

-- `clearPluginRuntimeState` removes every command and panel of the plugin from the lists of the store
-- and from what stands in the registry under its id, whose status and other fields stay. What belongs
-- to every other plugin stays, in order.
pub clear_plugin_runtime_state_lem :
    (p q : Text) (s : PluginState)
    → let s' = clear_plugin_runtime_state p s in
      (commands_of q s' ≡ (if eq_text p q then [] else commands_of q s))
      × (panels_of q s' ≡ (if eq_text p q then [] else panels_of q s))
      × IsCleared (eq_text p q) (find (has_id q) s.registry) (find (has_id q) s'.registry)
unfolding clear_plugin_runtime_state map_registry
clear_plugin_runtime_state_lem p q s = (
  filter-filter-not_eq (λ (c : PluginCommand). c.plugin_id) p q s.commands,
  filter-filter-not_eq (λ (c : PluginPanel). c.plugin_id) p q s.panels,
  find-IsCleared p q s.registry,
)

filter_owned {ℓ} :
    {A : Type ℓ} (owner : A → Text) (p q : Text) (xs : List A)
    → All (λ x. owner x ≡ p) xs
    → filter (λ x. eq_text (owner x) q) xs ≡ (if eq_text p q then xs else [])
unfolding filter
filter_owned owner p q [] h = ground arith
filter_owned owner p q (x ∷ xs) (e, h) = rw e (elim (Bool-cases (eq_text p q)) [
  | inl same ↦ rw (same, filter_owned owner p q xs h, same) refl
  | inr other ↦ rw (other, filter_owned owner p q xs h, other) refl
])

-- `replacePluginCommands` with commands of the plugin makes them the plugin's commands, in order,
-- and keeps the commands of every other plugin.
pub replace_plugin_commands_lem :
    (now p q : Text) (commands : List PluginCommand) (s : PluginState)
    → All (λ c. c.plugin_id ≡ p) commands
    → commands_of q (replace_plugin_commands now p commands s)
      ≡ (if eq_text p q then commands else commands_of q s)
unfolding replace_plugin_commands
replace_plugin_commands_lem now p q commands s h =
    let owner = λ (c : PluginCommand). c.plugin_id in
    filter-append (λ c. eq_text (owner c) q) _ commands
    ∙ rw (filter-filter-not_eq owner p q s.commands, filter_owned owner p q commands h)
        (elim (Bool-cases (eq_text p q)) [
          | inl same ↦ rw same refl
          | inr other ↦ rw other (append-nil (commands_of q s))
        ])

-- `replacePluginPanels`, likewise.
pub replace_plugin_panels_lem :
    (now p q : Text) (panels : List PluginPanel) (s : PluginState)
    → All (λ c. c.plugin_id ≡ p) panels
    → panels_of q (replace_plugin_panels now p panels s)
      ≡ (if eq_text p q then panels else panels_of q s)
unfolding replace_plugin_panels
replace_plugin_panels_lem now p q panels s h =
    let owner = λ (c : PluginPanel). c.plugin_id in
    filter-append (λ c. eq_text (owner c) q) _ panels
    ∙ rw (filter-filter-not_eq owner p q s.panels, filter_owned owner p q panels h)
        (elim (Bool-cases (eq_text p q)) [
          | inl same ↦ rw same refl
          | inr other ↦ rw other (append-nil (panels_of q s))
        ])

update_first-panels_of :
    (panel : PluginPanel) (q : Text) (xs ys : List PluginPanel)
    → ¬ (panel.plugin_id ≡ q)
    → update_first (is_same_panel panel) (λ _. panel) xs ≡ some ys
    → filter (λ p. eq_text p.plugin_id q) ys ≡ filter (λ p. eq_text p.plugin_id q) xs
unfolding update_first filter is_same_panel
update_first-panels_of panel q [] ys other h = absurd (ground arith)
update_first-panels_of panel q (x ∷ xs) ys other h =
    elim (update_first-cases (is_same_panel panel) (λ _. panel) x xs ys h) [
      | inl (hit, same) ↦
          let x_other : eq_text x.plugin_id q ≡ false =
            ground (arith, eq_text_iff x.plugin_id panel.plugin_id, eq_text_iff x.plugin_id q) in
          let panel_other : eq_text panel.plugin_id q ≡ false =
            ground (arith, eq_text_iff panel.plugin_id q) in
          rw (same, x_other, filter, panel_other) refl
      | inr (zs, found, same) ↦
          rw (same, filter, update_first-panels_of panel q xs zs other found) refl
    ]

-- `upsertPluginPanel` keeps the panels of every other plugin.
pub upsert_plugin_panel_frame :
    (now q : Text) (panel : PluginPanel) (s : PluginState)
    → ¬ (panel.plugin_id ≡ q)
    → panels_of q (upsert_plugin_panel now panel s) ≡ panels_of q s
unfolding upsert_plugin_panel filter
upsert_plugin_panel_frame now q panel s other =
    let panel_other : eq_text panel.plugin_id q ≡ false =
      ground (arith, eq_text_iff panel.plugin_id q) in
    option_cases (λ s'. panels_of q s' ≡ panels_of q s)
      (update_first (is_same_panel panel) (λ _. panel) s.panels)
      (λ _.
        filter-append (λ p. eq_text p.plugin_id q) s.panels (panel ∷ [])
        ∙ rw (filter, panel_other) (append-nil (panels_of q s)))
      (λ ys found. update_first-panels_of panel q s.panels ys other found)

-- `upsertPluginPanel` changes neither the commands nor what the user wants enabled.
pub upsert_plugin_panel_rest :
    (now : Text) (panel : PluginPanel) (s : PluginState)
    → let s' = upsert_plugin_panel now panel s in
      (s'.commands ≡ s.commands) × (s'.desired_enabled ≡ s.desired_enabled)
unfolding upsert_plugin_panel
upsert_plugin_panel_rest now panel s =
    option_cases
      (λ (s' : PluginState). (s'.commands ≡ s.commands) × (s'.desired_enabled ≡ s.desired_enabled))
      (update_first (is_same_panel panel) (λ _. panel) s.panels) (λ _. (refl, refl))
      (λ _ _. (refl, refl))
