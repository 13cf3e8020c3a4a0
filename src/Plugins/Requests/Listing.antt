-- ===== src/Plugins/Requests/Listing.antt =====
-- What `pluginStorage.list` answers.
use y5fgb.Common.{
  ◌++◌, [], true, Text, option_cases, inr, lookup, ◌≡◌, ◌≤◌, ◌+◌, All, some, List, length, inl, ◌∷◌,
  ℕ, Dict, leb, is_some, arith, Bool-cases, sym, if_cases, eq_text_iff, not, subst, All-weaken,
  refl, ◌||◌, append-drop_of_starts_with, some-injective, is_empty, starts_with, Option, drop,
  eq_text, has_text, ◌∙◌, ◌&&◌, any, ◌⊎◌, false,
}
use y5fgb.Plugins.Requests.{list_keys, listed_key, storage_list, plugin_storage_prefix}
use y5fgb.Plugins.Pattern.{storage_key_pattern}
use y5fgb.Plugins.Host.{Instance, Host, success, BridgeResult}
use y5fgb.Plugins.Requests.Listed.{is_found-storage_get, is_found, key_params, list_keys_complete}
use y5fgb.Plugins.Bridge.{storage_get}

list_keys_bound :
    (prefix : Text) (count : ℕ) (entries : Dict Text)
    → count ≤ 511
    → count + length (list_keys prefix count entries) ≤ 512
unfolding list_keys
list_keys_bound prefix count [] h = ground arith
list_keys_bound prefix count ((full_key, v) ∷ entries) h =
    option_cases (λ (ks : List Text). count + length ks ≤ 512) (listed_key prefix full_key)
      (λ _. list_keys_bound prefix count entries h)
      (λ key _. elim (Bool-cases (leb 512 (count + 1))) [
        | inl full ↦ rw full (ground arith)
        | inr room ↦
            rw room
              (let more = list_keys_bound prefix (count + 1) entries (ground arith) in ground arith)
      ])

-- A listed key is stored.
abbrev pub IsStored : Text → Dict Text → Text → Type 0
IsStored prefix storage key =
    (storage_key_pattern key ≡ true) × (is_some (lookup (prefix ++ key) storage) ≡ true)

listed_key_shape :
    (prefix full_key key : Text)
    → listed_key prefix full_key ≡ some key
    → (storage_key_pattern key ≡ true) × (prefix ++ key ≡ full_key)
unfolding listed_key
listed_key_shape prefix full_key key h =
    let rest = drop (length prefix) full_key in
    let P : Option Text → Type 0 =
      λ o. o ≡ some key → (storage_key_pattern key ≡ true) × (prefix ++ key ≡ full_key) in
    if_cases P (is_empty full_key || not (starts_with prefix full_key))
      (λ _ e. absurd (ground arith))
      (λ own.
        if_cases P (not (storage_key_pattern rest)) (λ _ e. absurd (ground arith))
          (λ good e.
            let same : rest ≡ key = some-injective rest key e in
            (
              subst (λ k. storage_key_pattern k ≡ true) same (ground arith),
              subst (λ k. prefix ++ k ≡ full_key) same
                  (append-drop_of_starts_with prefix full_key (ground arith)),
            )))
      h

IsStored-tail :
    (prefix full_key v : Text) (entries : Dict Text) (key : Text)
    → IsStored prefix entries key
    → IsStored prefix ((full_key, v) ∷ entries) key
unfolding lookup
IsStored-tail prefix full_key v entries key (good, found) = (good, ground arith)

list_keys-IsStored :
    (prefix : Text) (count : ℕ) (entries : Dict Text)
    → All (IsStored prefix entries) (list_keys prefix count entries)
unfolding list_keys lookup
list_keys-IsStored prefix count [] = tt
list_keys-IsStored prefix count ((full_key, v) ∷ entries) =
    let stored = IsStored prefix ((full_key, v) ∷ entries) in
    let tail_stored : (n : ℕ) → All stored (list_keys prefix n entries) = λ n.
      All-weaken (IsStored prefix entries) stored (IsStored-tail prefix full_key v entries) _
        (list_keys-IsStored prefix n entries) in
    option_cases (All stored) (listed_key prefix full_key) (λ _. tail_stored count)
      (λ key found.
        let (good, same) = listed_key_shape prefix full_key key found in
        (
          (good, rw (lookup, (eq_text_iff full_key (prefix ++ key)).1 (sym same)) refl),
          elim (Bool-cases (leb 512 (count + 1))) [
            | inl full ↦ rw full tt
            | inr room ↦ rw room (tail_stored (count + 1))
          ],
        ))

-- `pluginStorage.get` finds a value under a key that matches the pattern.
abbrev pub IsGettable : Instance → Host → Text → Type 0
IsGettable instance host key =
    (storage_key_pattern key && is_found (storage_get instance (key_params key) host).1) ≡ true

IsStored-IsGettable :
    (instance : Instance) (host : Host) (key : Text)
    → IsStored (plugin_storage_prefix instance.manifest.id) host.storage key
    → IsGettable instance host key
IsStored-IsGettable instance host key (good, stored) =
    rw (good, is_found-storage_get instance host key good, stored) refl

All-has_text {ℓ} :
    (P : Text → Type ℓ) (keys : List Text) (key : Text)
    → All P keys
    → has_text key keys ≡ true
    → P key
unfolding has_text any
All-has_text P [] key h there = absurd (ground arith)
All-has_text P (k ∷ keys) key (first, rest) there = elim (Bool-cases (eq_text key k)) [
  | inl same ↦ subst P (sym ((eq_text_iff key k).0 same)) first
  | inr other ↦ All-has_text P keys key rest (ground arith)
]

-- A list whose keys are all found, and which is complete or full.
listed_or_full :
    (instance : Instance) (host : Host) (key : Text)
    → let keys = list_keys (plugin_storage_prefix instance.manifest.id) 0 host.storage in
      All (IsGettable instance host) keys
      → (has_text key keys
          ≡ (storage_key_pattern key && is_found (storage_get instance (key_params key) host).1))
        ⊎ (length keys ≡ 512)
listed_or_full instance host key gettable =
    let prefix = plugin_storage_prefix instance.manifest.id in
    let keys = list_keys prefix 0 host.storage in
    let found = is_found (storage_get instance (key_params key) host).1 in
    elim (Bool-cases (storage_key_pattern key && found)) [
      | inl both ↦
          let good : storage_key_pattern key ≡ true = ground arith in
          let stored : is_some (lookup (prefix ++ key) host.storage) ≡ true =
            sym (is_found-storage_get instance host key good) ∙ ground arith in
          elim (list_keys_complete prefix key 0 host.storage good stored (omega arith)) [
            | inl there ↦ inl (there ∙ sym both)
            | inr full ↦ inr (omega arith)
          ]
      | inr missing ↦ elim (Bool-cases (has_text key keys)) [
        | inl there ↦
            let both = All-has_text (IsGettable instance host) keys key gettable there in
            let clash : true ≡ false = sym both ∙ missing in absurd (ground (arith, clash))
        | inr absent ↦ inl (absent ∙ sym missing)
      ]
    ]

-- `pluginStorage.list` answers at most 512 keys, changes nothing, and lists what `pluginStorage.get`
-- reads: every listed key matches the pattern of keys, and a `pluginStorage.get` for it finds a value.
-- The list is complete unless it has 512 keys: a key is listed exactly where it matches the pattern and
-- a `pluginStorage.get` for it finds a value.
pub storage_list-bound :
    (instance : Instance) (host : Host) (key : Text)
    → (keys : List Text) × (storage_list instance host ≡ (host, success (BridgeResult.keys keys)))
      × (length keys ≤ 512)
      × All (IsGettable instance host) keys
      × ((has_text key keys
            ≡ (storage_key_pattern key && is_found (storage_get instance (key_params key) host).1))
          ⊎ (length keys ≡ 512))
unfolding storage_list
storage_list-bound instance host key =
    let prefix = plugin_storage_prefix instance.manifest.id in
    let bound = list_keys_bound prefix 0 host.storage (omega arith) in
    let gettable =
      All-weaken (IsStored prefix host.storage) (IsGettable instance host)
        (IsStored-IsGettable instance host) _ (list_keys-IsStored prefix 0 host.storage) in
    (_, refl, omega arith, gettable, listed_or_full instance host key gettable)
