-- ===== src/Identity/Rotation.antt =====
-- The keys that a device tries on a message after a change of its keys: `commitDeviceIdentityRotation` and
-- `loadAllDeviceKeyMaterials` of apps/client-desktop/src/services/identity.ts.
use y5fgb.SecureStorage.{Machine, Vault, done}
use y5fgb.Common.{
  none, ◌≡◌, Text, lookup, [], some, false, ◌∷◌, List, is_empty, IsDistinctBy, take, ◌≤◌, length,
  length-take-le, subst,
}
use y5fgb.Identity.{
  present, device_public_key, device_private_key, commit_device_identity_rotation, DeviceIdentity,
  Formats, KeyPair, device_legacy_keys, encode_pairs, device_id_key, parse_legacy,
  load_all_device_key_materials,
}
use y5fgb.Identity.Once.{once, pair_text, next_legacy-once, take-IsDistinctBy, once-IsDistinctBy}
use y5fgb.Identity.Written.{IsWorking, load_all_device_key_materials-written}

-- The old pairs that are to be kept: the pair that the device had, then the older ones, each of them
-- once and five at most.
abbrev pub older_pairs : Formats → KeyPair → Vault → List KeyPair
older_pairs formats current v =
    take 5 (once (current ∷ parse_legacy formats (lookup device_legacy_keys v.keyring)))

-- After a change of keys that the device makes for itself, the keys that it tries on a message are the
-- new pair, then the old ones: of the pair that it had and the older ones, in that order, those that
-- do not stand earlier, and of these the first five. So the old ones are five at most, and no two of
-- them have the same text `public:private`. This is provided that the keyring works, that no key is
-- empty, and that `JSON.parse` undoes `JSON.stringify` on the old pairs and refuses the empty text.
pub load_all_device_key_materials-rotated :
    (formats : Formats) (machine : Machine) (next : DeviceIdentity) (v : Vault) (current : KeyPair)
    (id : Text)
    → IsWorking machine
    → present (lookup device_public_key v.keyring) ≡ some current.public_key
    → present (lookup device_private_key v.keyring) ≡ some current.private_key
    → present (lookup device_id_key v.keyring) ≡ some id
    → next.device_id ≡ id
    → is_empty next.public_material ≡ false
    → is_empty next.private_material ≡ false
    → formats.parse [] ≡ none
    → (let older = older_pairs formats current v in
        formats.parse (formats.stringify (encode_pairs older)) ≡ some (encode_pairs older))
    → let older = older_pairs formats current v in
      let after = (commit_device_identity_rotation formats machine next v).1 in
      ((load_all_device_key_materials formats machine after).0
        ≡ done (
            (record { public_key = next.public_material; private_key = next.private_material })
            ∷ older))
      × (length older ≤ 5)
      × IsDistinctBy pair_text older
load_all_device_key_materials-rotated formats machine next v current id working public private there
      same new_public new_private no_text undone =
    let stored = parse_legacy formats (lookup device_legacy_keys v.keyring) in
    (
      subst
          (λ older.
            formats.parse (formats.stringify (encode_pairs older)) ≡ some (encode_pairs older)
            → (load_all_device_key_materials formats machine
                (commit_device_identity_rotation formats machine next v).1).0
              ≡ done (
                  (record {
                    public_key = next.public_material;
                    private_key = next.private_material;
                  })
                  ∷ older))
          (next_legacy-once current stored)
          (load_all_device_key_materials-written formats machine next v current id working public
            private there same new_public new_private no_text)
          undone,
      length-take-le 5 (once (current ∷ stored)),
      take-IsDistinctBy pair_text 5 (once (current ∷ stored))
          (once-IsDistinctBy (current ∷ stored)),
    )
