-- ===== src/Identity/Tests.antt =====
-- The secure storage and the keys of a device, at small inputs.
use y5fgb.Common.{
  insert, refl, codes, is_empty, includes, lookup, eq_text, true, ◌∷◌, [], if◌then◌else◌, none, ◌≡◌,
  starts_with, any, some, string_of, ◌&&◌, get_field, IsDistinctBy, not, ◌||◌, ◌≤◌, field_of,
  length, filter,
}
use y5fgb.SecureStorage.{
  get_item, Vault, Machine, is_missing_secure_entry_error, set_item, done, set_strict,
  is_sensitive_key, get_strict, secure_store_set, secure_store_get, threw,
}
use y5fgb.Identity.Rotation.{load_all_device_key_materials-rotated, older_pairs}
use y5fgb.Identity.Written.{IsWorking}
use y5fgb.Identity.{
  Formats, DeviceIdentity, parse_legacy, commit_device_identity_rotation, encode_pairs,
  device_public_key, legacy_pairs, load_all_device_key_materials, device_private_key, device_id_key,
  device_legacy_keys,
}
use y5fgb.Messaging.Crypto.{KeyPair}
use y5fgb.SecureStorage.RoundTrip.{get_item-set_item, IsKept, keyring_works}
use y5fgb.Identity.Once.{once, pair_text}
use y5fgb.SecureStorage.Layers.{is_done}

abbrev current : KeyPair
current = record { public_key = codes "p1"; private_key = codes "s1" }

-- A parser that knows the one text that is written.
abbrev formats : Formats
formats = record {
  stringify = λ json. codes "[{}]";
  parse = λ text. if is_empty text then none else some (encode_pairs (current ∷ []));
  digest = λ text. text;
}

abbrev machine : Machine
machine = record {
  is_tauri = true;
  keyring_error = none;
  missing_error = codes "no entry";
  has_room = true;
  lower = λ text. text;
}

abbrev vault : Vault
vault = record {
  keyring =
      (device_public_key, codes "p1")
      ∷ (device_private_key, codes "s1")
      ∷ (device_id_key, codes "d1")
      ∷ (device_legacy_keys, codes "[{}]")
      ∷ [];
  fallback = [];
}

abbrev next : DeviceIdentity
next = record {
  base = record { public_material = codes "p2"; private_material = codes "s2"; fingerprint = [] };
  device_id = codes "d1";
  device_name = codes "Laptop";
}

storage : Unit {0}
unfolding lookup eq_text is_empty includes starts_with any is_missing_secure_entry_error set_item
    get_item set_strict get_strict secure_store_set secure_store_get is_sensitive_key insert
storage = tt

machine-works : IsWorking machine
unfolding storage
machine-works = (refl, refl, refl)

legacy_parses :
    formats.parse (formats.stringify (encode_pairs (older_pairs formats current vault)))
    ≡ some (encode_pairs (older_pairs formats current vault))
unfolding storage parse_legacy legacy_pairs once filter get_field field_of string_of
legacy_parses = refl

load_all_device_key_materials-rotated_example :
    let after = (commit_device_identity_rotation formats machine next vault).1 in
    let older = older_pairs formats current vault in
    ((load_all_device_key_materials formats machine after).0
      ≡ done ((record { public_key = codes "p2"; private_key = codes "s2" }) ∷ older))
    × (length older ≤ 5)
    × IsDistinctBy pair_text older
unfolding storage
load_all_device_key_materials-rotated_example =
    load_all_device_key_materials-rotated formats machine next vault current (codes "d1")
      machine-works refl refl refl refl refl refl refl legacy_parses

-- A keyring that does not work: a setting goes to the fallback.
abbrev locked : Machine
locked = record machine { keyring_error = some (codes "locked") }

get_item-set_item_example :
    let result = set_item locked (codes "language") (codes "en") vault in
    (is_done result.0
      ≡ (keyring_works locked || (not (is_sensitive_key (codes "language")) && true)))
    × IsKept locked (codes "language") (codes "en") vault result.0 result.1
    × ((if is_sensitive_key (codes "language") then result.1.fallback else vault.fallback)
        ≡ vault.fallback)
unfolding storage
get_item-set_item_example =
    get_item-set_item locked (codes "language") (codes "en") vault (refl, refl)

-- A setting is read back from the fallback, and a secret is refused.
language_runs :
    let result = set_item locked (codes "language") (codes "en") vault in
    (get_item locked (codes "language") result.1).0 ≡ done (some (codes "en"))
unfolding storage
language_runs = refl

secret_runs :
    set_item locked (codes "auth.token") (codes "t") vault
    ≡ (threw (codes "failed to set secret: locked"), vault)
unfolding storage
secret_runs = refl
