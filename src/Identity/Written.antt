-- ===== src/Identity/Written.antt =====
-- What the device reads of its keys after a change of them, in the terms of the code of
-- apps/client-desktop/src/services/identity.ts.
use y5fgb.SecureStorage.{
  Machine, Vault, is_missing_secure_entry_error, is_sensitive_key, done, get_item, set_item, Access,
}
use y5fgb.Common.{
  insert, true, none, ◌≡◌, ap, Text, lookup, ◌∙◌, starts_with, any, [], some, sym, Option-cases,
  inl, inr, refl, false, ◌∷◌, eq_text_iff, elements, List, eq_text, get_field, is_empty, string_of,
  field_of, lookup-insert, Json, none-ne-some,
}
use y5fgb.SecureStorage.RoundTrip.{set_item-secret, get_item-secret}
use y5fgb.SecureStorage.Layers.{set_strict-works, get_strict-missing, get_strict-found}
use y5fgb.Identity.{
  load_current_device_key_material, required, present, device_public_key, device_private_key,
  commit_device_identity_rotation, DeviceIdentity, Formats, device_name_key, replace_device_keys,
  KeyPair, device_legacy_keys, encode_pairs, device_id_key, next_legacy, parse_legacy,
  load_all_device_key_materials, legacy_pairs, encode_elements,
}

-- The keyring works.
abbrev pub IsWorking : Machine → Type 0
IsWorking machine =
    (machine.is_tauri ≡ true)
    × (machine.keyring_error ≡ none)
    × (is_missing_secure_entry_error machine machine.missing_error ≡ true)

-- The old pairs as the change of keys writes them.
abbrev pub legacy_written : Formats → KeyPair → Vault → List KeyPair
legacy_written formats current v =
    next_legacy current (parse_legacy formats (lookup device_legacy_keys v.keyring))

abbrev pub legacy_text : Formats → KeyPair → Vault → Text
legacy_text formats current v = formats.stringify (encode_pairs (legacy_written formats current v))

module _ (machine : Machine) where
  get_item-keyring :
      (key : Text) (v : Vault)
      → IsWorking machine
      → is_sensitive_key key ≡ true
      → get_item machine key v ≡ (done (lookup key v.keyring), v)
  get_item-keyring key v (tauri, works, missing) secret =
      ap (λ m. m v) (get_item-secret machine key [] v secret)
      ∙ elim (Option-cases (lookup key v.keyring)) [
        | inl empty ↦
            get_strict-missing machine key v tauri works empty missing
            ∙ ap (λ o. (done o, v)) (sym empty)
        | inr (value, found) ↦
            get_strict-found machine key value v tauri works found
            ∙ ap (λ o. (done o, v)) (sym found)
      ]

  set_item-keyring :
      (key value : Text) (v : Vault)
      → IsWorking machine
      → is_sensitive_key key ≡ true
      → set_item machine key value v ≡ (done tt, record v { keyring = insert key value v.keyring })
  set_item-keyring key value v (tauri, works, _) secret =
      ap (λ m. m v) (set_item-secret machine key value v secret)
      ∙ set_strict-works machine key value v tauri works

  load_current_device_key_material-held :
      (v : Vault) (public private : Text)
      → IsWorking machine
      → present (lookup device_public_key v.keyring) ≡ some public
      → present (lookup device_private_key v.keyring) ≡ some private
      → load_current_device_key_material machine v
        ≡ (done (record { public_key = public; private_key = private }), v)
  unfolding load_current_device_key_material required is_sensitive_key starts_with any
  load_current_device_key_material-held v public private working there there' =
      let public_read = get_item-keyring device_public_key v working refl in
      let private_read = get_item-keyring device_private_key v working refl in
      rw (load_current_device_key_material, public_read)
        (rw private_read (rw (required, there) (rw (required, there') refl)))

  -- The vault after a change of keys.
  abbrev rotated : Text → DeviceIdentity → Vault → Vault
  rotated legacy next v = record v {
    keyring = insert device_name_key next.device_name (
        insert device_public_key next.public_material (
          insert device_private_key next.private_material
            (insert device_legacy_keys legacy v.keyring)));
  }

  replace_device_keys-rotated :
      (next : DeviceIdentity) (v : Vault)
      → IsWorking machine
      → replace_device_keys machine next v ≡ (
        done tt,
        record v {
          keyring = insert device_name_key next.device_name (
              insert device_public_key next.public_material
                (insert device_private_key next.private_material v.keyring));
        },
      )
  unfolding replace_device_keys is_sensitive_key starts_with any
  replace_device_keys-rotated next v working =
      let v1 = record v { keyring = insert device_private_key next.private_material v.keyring } in
      let v2 = record v1 { keyring = insert device_public_key next.public_material v1.keyring } in
      rw
        (
          replace_device_keys,
          set_item-keyring device_private_key next.private_material v working refl,
        )
        (rw (set_item-keyring device_public_key next.public_material v1 working refl)
          (set_item-keyring device_name_key next.device_name v2 working refl))

  commit_device_identity_rotation-rotated :
      (formats : Formats) (next : DeviceIdentity) (v : Vault) (current : KeyPair) (id : Text)
      → IsWorking machine
      → load_current_device_key_material machine v ≡ (done current, v)
      → present (lookup device_id_key v.keyring) ≡ some id
      → next.device_id ≡ id
      → commit_device_identity_rotation formats machine next v
        ≡ (done tt, rotated (legacy_text formats current v) next v)
  unfolding commit_device_identity_rotation replace_device_keys required is_sensitive_key
      starts_with any
  commit_device_identity_rotation-rotated formats next v current id working loaded there same =
      let id_read = get_item-keyring device_id_key v working refl in
      let legacy_read = get_item-keyring device_legacy_keys v working refl in
      let set1 =
        set_item-keyring device_legacy_keys (legacy_text formats current v) v working refl in
      let matches = (eq_text_iff next.device_id id).1 same in
      rw (commit_device_identity_rotation, loaded)
        (rw id_read (
          rw (required, there)
            (rw legacy_read (rw set1 (rw matches (replace_device_keys-rotated next _ working))))))

legacy_pairs-encode_elements :
    (pairs : List KeyPair) → legacy_pairs (elements (encode_elements pairs)) ≡ pairs
unfolding legacy_pairs get_field field_of string_of eq_text
legacy_pairs-encode_elements [] = refl
legacy_pairs-encode_elements (pair ∷ pairs) = rw (legacy_pairs-encode_elements pairs) refl

parsed_nonempty :
    (formats : Formats) (t : Text) (json : Json)
    → formats.parse [] ≡ none
    → formats.parse t ≡ some json
    → is_empty t ≡ false
unfolding is_empty
parsed_nonempty formats [] json no_text parsed = absurd (none-ne-some json (sym no_text ∙ parsed))
parsed_nonempty formats (c ∷ t) json no_text parsed = refl

parse_legacy-encode_pairs :
    (formats : Formats) (t : Text) (pairs : List KeyPair)
    → formats.parse [] ≡ none
    → formats.parse t ≡ some (encode_pairs pairs)
    → parse_legacy formats (some t) ≡ pairs
unfolding parse_legacy
parse_legacy-encode_pairs formats t pairs no_text parsed =
    rw (parse_legacy, parsed_nonempty formats t _ no_text parsed)
      (rw parsed (legacy_pairs-encode_elements pairs))

-- What the vault holds after a change of keys.
rotated-held :
    (machine : Machine) (legacy : Text) (next : DeviceIdentity) (v : Vault)
    → let d = (rotated machine legacy next v).keyring in
      (lookup device_public_key d ≡ some next.public_material)
      × (lookup device_private_key d ≡ some next.private_material)
      × (lookup device_legacy_keys d ≡ some legacy)
unfolding eq_text
rotated-held machine legacy next v =
    let d1 = insert device_legacy_keys legacy v.keyring in
    let d2 = insert device_private_key next.private_material d1 in
    let d3 = insert device_public_key next.public_material d2 in
    let name = λ (k : Text). lookup-insert device_name_key k next.device_name d3 in
    let public = λ (k : Text). lookup-insert device_public_key k next.public_material d2 in
    let private = λ (k : Text). lookup-insert device_private_key k next.private_material d1 in
    (
      name device_public_key ∙ public device_public_key,
      name device_private_key ∙ public device_private_key ∙ private device_private_key,
      name device_legacy_keys
          ∙ public device_legacy_keys
          ∙ private device_legacy_keys
          ∙ lookup-insert device_legacy_keys device_legacy_keys legacy v.keyring,
    )

-- After a change of keys that the device makes for itself, the keys are the new pair, then what the
-- change wrote.
pub load_all_device_key_materials-written :
    (formats : Formats) (machine : Machine) (next : DeviceIdentity) (v : Vault) (current : KeyPair)
    (id : Text)
    → IsWorking machine
    → present (lookup device_public_key v.keyring) ≡ some current.public_key
    → present (lookup device_private_key v.keyring) ≡ some current.private_key
    → present (lookup device_id_key v.keyring) ≡ some id
    → next.device_id ≡ id
    → is_empty next.public_material ≡ false
    → is_empty next.private_material ≡ false
    → formats.parse [] ≡ none
    → formats.parse (legacy_text formats current v)
      ≡ some (encode_pairs (legacy_written formats current v))
    → let after = (commit_device_identity_rotation formats machine next v).1 in
      (load_all_device_key_materials formats machine after).0
      ≡ done (
          (record { public_key = next.public_material; private_key = next.private_material })
          ∷ legacy_written formats current v)
unfolding load_all_device_key_materials is_sensitive_key starts_with any
load_all_device_key_materials-written formats machine next v current id working public private there
      same new_public new_private no_text undone =
    let legacy = legacy_text formats current v in
    let loaded = load_current_device_key_material-held machine v _ _ working public private in
    let committed =
      commit_device_identity_rotation-rotated machine formats next v current id working loaded there
        same in
    let w = rotated machine legacy next v in
    let (held_public, held_private, held_legacy) = rotated-held machine legacy next v in
    let loaded_next =
      load_current_device_key_material-held machine w next.public_material next.private_material
        working (ap present held_public ∙ rw new_public refl)
        (ap present held_private ∙ rw new_private refl) in
    let renewed : KeyPair = record {
      public_key = next.public_material;
      private_key = next.private_material;
    } in
    let legacy_read = get_item-keyring machine device_legacy_keys w working refl in
    let older =
      ap (parse_legacy formats) held_legacy
      ∙ parse_legacy-encode_pairs formats legacy (legacy_written formats current v) no_text
          undone in
    ap (λ (p : Access {0} Unit × Vault). (load_all_device_key_materials formats machine p.1).0)
      committed
    ∙ rw (load_all_device_key_materials, loaded_next)
        (rw legacy_read (ap (λ l. done (renewed ∷ l)) older))
