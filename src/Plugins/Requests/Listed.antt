-- ===== src/Plugins/Requests/Listed.antt =====
-- What `pluginStorage.get` answers on the keys of `pluginStorage.list`, and which keys are listed.
use y5fgb.Plugins.Host.{BridgeResult, Response, Instance, Host, success}
use y5fgb.Common.{
  Json, Fields, ◌+◌, lookup, arith, some, string_of, is_upper, ◌≡◌, Bool, is_lower, trim_start,
  codes, drop-length-append, is_digit, length, ap, false, refl, Text, is_empty, is_space,
  starts_with-append, eq_text, get_field, any, Dict, trim, ◌∷◌, [], true, ◌⊎◌, field_of, is_some,
  ◌≤◌, trim_end, all, ℕ, has_text, ◌++◌, ◌∙◌, option_cases, Bool-cases, List, sym, leb, inr,
  some-injective, inl, eq_text_refl, eq_text_iff, none-ne-some, none,
}
use y5fgb.Plugins.Requests.{listed_key, list_keys}
use y5fgb.Plugins.Bridge.{
  plugin_storage_key, param, is_bad_key, storage_get, plugin_storage_prefix, Answer,
}
use y5fgb.Plugins.Pattern.{is_key_char, storage_key_pattern, matches_class}
use y5fgb.Plugins.Requests.Storage.{request_key, storage_get_accepted}

is_key_char-space : (c : ℕ) → is_key_char c ≡ true → is_space c ≡ false
unfolding is_key_char is_space is_lower is_upper is_digit
is_key_char-space c h = ground arith

trim_start-key : (s : Text) → all is_key_char s ≡ true → trim_start s ≡ s
unfolding trim_start all
trim_start-key [] h = refl
trim_start-key (c ∷ s) h =
    let plain = is_key_char-space c (ground arith) in rw (trim_start, plain) refl

trim_end-key : (s : Text) → all is_key_char s ≡ true → trim_end s ≡ s
unfolding trim_end all
trim_end-key [] h = refl
trim_end-key (c ∷ s) h =
    let plain = is_key_char-space c (ground arith) in
    rw (trim_end, plain, trim_end-key s (ground arith)) refl

-- A key that matches the pattern is not trimmed.
trim-key : (key : Text) → storage_key_pattern key ≡ true → trim key ≡ key
unfolding trim storage_key_pattern matches_class
trim-key key good =
    let plain : all is_key_char key ≡ true = ground arith in
    ap trim_end (trim_start-key key plain) ∙ trim_end-key key plain

is_bad_key-pattern : (key : Text) → storage_key_pattern key ≡ true → is_bad_key key ≡ false
unfolding is_bad_key storage_key_pattern matches_class is_empty
is_bad_key-pattern [] good = ground arith
is_bad_key-pattern (c ∷ key) good = rw (is_bad_key, good) refl

-- The parameters of a request for one key.
abbrev pub key_params : Text → Json
key_params key = Json.object (Fields.field (codes "key") (Json.string key) Fields.end)

-- A value was found.
unfoldable pub is_found : Response → Bool
is_found (success (BridgeResult.value found)) = is_some found
is_found _ = false

request_key-key_params :
    (instance : Instance) (key : Text)
    → storage_key_pattern key ≡ true
    → request_key instance (key_params key) ≡ key
unfolding param get_field field_of string_of eq_text
request_key-key_params instance key good = trim-key key good

-- `pluginStorage.get` looks up the key behind the prefix of the plugin.
pub is_found-storage_get :
    (instance : Instance) (host : Host) (key : Text)
    → storage_key_pattern key ≡ true
    → is_found (storage_get instance (key_params key) host).1
      ≡ is_some (lookup (plugin_storage_prefix instance.manifest.id ++ key) host.storage)
unfolding is_found plugin_storage_key
is_found-storage_get instance host key good =
    let same = request_key-key_params instance key good in
    let found = lookup (plugin_storage_prefix instance.manifest.id ++ key) host.storage in
    ap (λ (a : Answer). is_found a.1)
      (storage_get_accepted instance (key_params key) host found
        (ap is_bad_key same ∙ is_bad_key-pattern key good)
        (ap (λ k. lookup (plugin_storage_prefix instance.manifest.id ++ k) host.storage) same))

is_empty-append : (p s : Text) → is_empty s ≡ false → is_empty (p ++ s) ≡ false
unfolding is_empty
is_empty-append [] s h = h
is_empty-append (c ∷ p) s h = refl

-- The key behind the prefix is taken.
listed_key-own :
    (prefix key : Text)
    → storage_key_pattern key ≡ true
    → listed_key prefix (prefix ++ key) ≡ some key
unfolding listed_key is_bad_key
listed_key-own prefix key good =
    let bad = is_bad_key-pattern key good in
    rw
      (
        listed_key,
        is_empty-append prefix key (ground arith),
        starts_with-append prefix key,
        drop-length-append prefix key,
        good,
      )
      refl

-- The key of an entry under the prefix, and an entry that is skipped.
taken_key :
    (prefix full_key key k : Text)
    → storage_key_pattern key ≡ true
    → eq_text full_key (prefix ++ key) ≡ true
    → listed_key prefix full_key ≡ some k
    → k ≡ key
taken_key prefix full_key key k good own taken =
    let same = (eq_text_iff full_key (prefix ++ key)).0 own in
    some-injective k key (sym taken ∙ ap (listed_key prefix) same ∙ listed_key-own prefix key good)

skipped_key :
    (prefix full_key key : Text)
    → storage_key_pattern key ≡ true
    → listed_key prefix full_key ≡ none
    → eq_text full_key (prefix ++ key) ≡ false
skipped_key prefix full_key key good skipped =
    elim (Bool-cases (eq_text full_key (prefix ++ key))) [
      | inl own ↦
          let same = (eq_text_iff full_key (prefix ++ key)).0 own in
          absurd (
            none-ne-some key
              (sym skipped ∙ ap (listed_key prefix) same ∙ listed_key-own prefix key good))
      | inr other ↦ other
    ]

-- A key that is stored is listed, unless the list is full.
pub list_keys_complete :
    (prefix key : Text) (count : ℕ) (entries : Dict Text)
    → storage_key_pattern key ≡ true
    → is_some (lookup (prefix ++ key) entries) ≡ true
    → count ≤ 511
    → (has_text key (list_keys prefix count entries) ≡ true)
      ⊎ (count + length (list_keys prefix count entries) ≡ 512)
unfolding list_keys lookup has_text any
list_keys_complete prefix key count [] good stored room = absurd (ground arith)
list_keys_complete prefix key count ((full_key, v) ∷ entries) good stored room =
    let IsReached : List Text → Type 0 =
      λ ks. (has_text key ks ≡ true) ⊎ (count + length ks ≡ 512) in
    let later : (n : ℕ)
        → eq_text full_key (prefix ++ key) ≡ false
        → n ≤ 511
        → (has_text key (list_keys prefix n entries) ≡ true)
          ⊎ (n + length (list_keys prefix n entries) ≡ 512) =
      λ n other. list_keys_complete prefix key n entries good (rw other at stored) in
    option_cases IsReached (listed_key prefix full_key)
      (λ skipped. later count (skipped_key prefix full_key key good skipped) room)
      (λ k taken. elim (Bool-cases (leb 512 (count + 1))) [
        | inl full ↦ rw full (inr (ground arith))
        | inr below ↦ rw below (elim (Bool-cases (eq_text full_key (prefix ++ key))) [
          | inl own ↦
              let same = taken_key prefix full_key key k good own taken in
              inl (rw (same, has_text, any, eq_text_refl key) refl)
          | inr other ↦ elim (later (count + 1) other (ground arith)) [
            | inl there ↦ inl (rw (has_text, any, there) (ground arith))
            | inr reached ↦ inr (omega arith)
          ]
        ])
      ])
