-- ===== src/Identity.antt =====
-- apps/client-desktop/src/services/identity.ts over the secure storage: the key pairs of the device, and
-- what becomes of the old ones when the device changes its keys.
pub mod Rotation
mod Once
mod Written
mod Tests
use y5fgb.SecureStorage.{◌>>=◌, ◌>>◌, Machine, Action, get_item, throw, set_item, pure}
use y5fgb.Common.{
  Json, none, trim, some, ◌*◌, if◌then◌else◌, Text, Option, is_empty, not, codes, elements,
  has_text, or_default, eq_text, get_field, List, ◌∷◌, Elements, string_of, take, ◌++◌, [], nil,
  field, end, cons, true, false,
}
use y5fgb.Messaging.Crypto.{KeyPair}

abbrev pub device_private_key : Text
device_private_key = codes "identity.device.private"

abbrev pub device_public_key : Text
device_public_key = codes "identity.device.public"

abbrev pub device_legacy_keys : Text
device_legacy_keys = codes "identity.device.legacy_keys"

abbrev pub device_id_key : Text
device_id_key = codes "identity.device.id"

abbrev pub device_name_key : Text
device_name_key = codes "identity.device.name"

abbrev account_private_key : Text
account_private_key = codes "identity.account.private"

abbrev account_public_key : Text
account_public_key = codes "identity.account.public"

-- `IdentityMaterial`
pub record IdentityMaterial : Type 0 where
  pub public_material : Text
  pub private_material : Text
  pub fingerprint : Text

-- `DeviceIdentityMaterial`
pub record DeviceIdentity : Type 0 where
  pub base : IdentityMaterial
  pub open base use *
  pub device_id : Text
  pub device_name : Text

-- `JSON.stringify` and `JSON.parse` (`none` where it throws), and the digest of a text in hexadecimal.
pub record Formats : Type 0 where
  pub stringify : Json → Text
  pub parse : Text → Option Json
  pub digest : Text → Text

unfoldable pub fingerprint_from_material : Formats → Text → Text
fingerprint_from_material formats material = formats.digest (trim material)

-- `generateIdentityPair`, of the pair that `generateIdentityKeyPair` drew.
unfoldable pub generate_identity_pair : Formats → KeyPair → IdentityMaterial
unfolding fingerprint_from_material
generate_identity_pair formats pair = record {
  public_material = pair.public_key;
  private_material = pair.private_key;
  fingerprint = fingerprint_from_material formats pair.public_key;
}

unfoldable pub create_account_identity : Formats → Machine → KeyPair → Action IdentityMaterial
unfolding generate_identity_pair
create_account_identity formats machine pair = do
  let generated = generate_identity_pair formats pair
  set_item machine account_private_key generated.private_material
  set_item machine account_public_key generated.public_material
  pure generated

-- A value that is there and not empty.
abbrev pub present : Option Text → Option Text
present none = none
present (some value) = if is_empty value then none else some value

-- The end of `loadOrCreateDeviceIdentity`, where some part is missing.
unfoldable pub create_device_identity :
    Formats → Machine → KeyPair → (fresh_id device_name : Text) → Action DeviceIdentity
unfolding generate_identity_pair
create_device_identity formats machine pair fresh_id device_name = do
  let generated = generate_identity_pair formats pair
  set_item machine device_private_key generated.private_material
  set_item machine device_public_key generated.public_material
  set_item machine device_id_key fresh_id
  set_item machine device_name_key device_name
  pure (record { base = generated; device_id = fresh_id; device_name = device_name })

unfoldable pub load_or_create_device_identity :
    Formats → Machine → KeyPair → (fresh_id device_name : Text) → Action DeviceIdentity
unfolding create_device_identity fingerprint_from_material
load_or_create_device_identity formats machine pair fresh_id device_name = do
  existing_public ← get_item machine device_public_key
  existing_private ← get_item machine device_private_key
  existing_id ← get_item machine device_id_key
  let create = create_device_identity formats machine pair fresh_id device_name
  elim (present existing_public) [
    | none ↦ create
    | some public ↦ elim (present existing_private) [
      | none ↦ create
      | some private ↦ elim (present existing_id) [
        | none ↦ create
        | some id ↦ do
          set_item machine device_name_key device_name
          pure (record {
            base = record {
              public_material = public;
              private_material = private;
              fingerprint = fingerprint_from_material formats public;
            };
            device_id = id;
            device_name = device_name;
          })
      ]
    ]
  ]

-- `throw new Error("device identity is not initialized")` where a value is missing or empty.
unfoldable pub required : Option Text → Action Text
required value = elim (present value) [
  | none ↦ throw (codes "device identity is not initialized")
  | some text ↦ pure text
]

unfoldable pub load_current_device_key_material : Machine → Action KeyPair
unfolding required
load_current_device_key_material machine = do
  public ← get_item machine device_public_key
  private ← get_item machine device_private_key
  public_key ← required public
  private_key ← required private
  pure (record { public_key = public_key; private_key = private_key })

-- The items of a legacy payload that hold two texts.
unfoldable pub legacy_pairs : List Json → List KeyPair
legacy_pairs [] = []
legacy_pairs (item ∷ items) =
    let rest = legacy_pairs items in
    elim (string_of (get_field (codes "publicKey") item)) [
      | none ↦ rest
      | some public_key ↦ elim (string_of (get_field (codes "privateKey") item)) [
        | none ↦ rest
        | some private_key ↦ (record { public_key = public_key; private_key = private_key }) ∷ rest
      ]
    ]

abbrev pub legacy_of : Option Json → List KeyPair
legacy_of (some (Json.array items)) = legacy_pairs (elements items)
legacy_of _ = []

-- `parseLegacy`, and the loop of `loadAllDeviceKeyMaterials`, which takes the same items.
unfoldable pub parse_legacy : Formats → Option Text → List KeyPair
unfolding legacy_pairs
parse_legacy formats raw = elim (present raw) [
  | none ↦ []
  | some text ↦ legacy_of (formats.parse text)
]

unfoldable pub load_all_device_key_materials : Formats → Machine → Action (List KeyPair)
unfolding load_current_device_key_material parse_legacy
load_all_device_key_materials formats machine = do
  current ← load_current_device_key_material machine
  legacy_raw ← get_item machine device_legacy_keys
  pure (current ∷ parse_legacy formats legacy_raw)

-- `generateDeviceIdentityCandidate`
unfoldable pub generate_device_identity_candidate :
    Formats → Machine → KeyPair → Action DeviceIdentity
unfolding generate_identity_pair required
generate_device_identity_candidate formats machine pair = do
  existing_id ← get_item machine device_id_key
  existing_name ← get_item machine device_name_key
  id ← required existing_id
  pure (record {
    base = generate_identity_pair formats pair;
    device_id = id;
    device_name = or_default existing_name (codes "Desktop device");
  })

abbrev pub dedupe_key : KeyPair → Text
dedupe_key pair = pair.public_key ++ (codes ":" ++ pair.private_key)

-- The loop of `dedupeLegacy`.
unfoldable pub dedupe_legacy : List Text → List KeyPair → List KeyPair
dedupe_legacy seen [] = []
dedupe_legacy seen (item ∷ items) =
    let skipped = dedupe_legacy seen items in
    let kept = item ∷ dedupe_legacy (dedupe_key item ∷ seen) items in
    if has_text (dedupe_key item) seen then skipped else kept

abbrev pub encode_pair : KeyPair → Json
encode_pair pair = Json.object (
    field (codes "publicKey") (Json.string pair.public_key)
      (field (codes "privateKey") (Json.string pair.private_key) end))

abbrev pub encode_elements : List KeyPair → Elements
encode_elements [] = nil
encode_elements (pair ∷ pairs) = cons (encode_pair pair) (encode_elements pairs)

abbrev pub encode_pairs : List KeyPair → Json
encode_pairs pairs = Json.array (encode_elements pairs)

-- The legacy keys that a change of keys writes.
abbrev pub next_legacy : KeyPair → List KeyPair → List KeyPair
next_legacy current legacy = take 5 (dedupe_legacy [] (current ∷ legacy))

-- The end of `commitDeviceIdentityRotation`.
unfoldable pub replace_device_keys : Machine → DeviceIdentity → Action {0} Unit
replace_device_keys machine next = do
  set_item machine device_private_key next.private_material
  set_item machine device_public_key next.public_material
  set_item machine device_name_key next.device_name

-- `commitDeviceIdentityRotation`. The legacy keys are written before the id of the candidate is looked
-- at.
unfoldable pub commit_device_identity_rotation :
    Formats → Machine → DeviceIdentity → Action {0} Unit
unfolding load_current_device_key_material required parse_legacy dedupe_legacy replace_device_keys
commit_device_identity_rotation formats machine next = do
  current ← load_current_device_key_material machine
  existing_id ← get_item machine device_id_key
  id ← required existing_id
  legacy_raw ← get_item machine device_legacy_keys
  set_item machine device_legacy_keys
      (formats.stringify (encode_pairs (next_legacy current (parse_legacy formats legacy_raw))))
  elim (eq_text next.device_id id) [
    | false ↦ throw (codes "rotation candidate device id mismatch")
    | true ↦ replace_device_keys machine next
  ]

-- `rotateCurrentDeviceIdentity`
unfoldable pub rotate_current_device_identity : Formats → Machine → KeyPair → Action DeviceIdentity
unfolding generate_device_identity_candidate commit_device_identity_rotation
rotate_current_device_identity formats machine pair = do
  candidate ← generate_device_identity_candidate formats machine pair
  commit_device_identity_rotation formats machine candidate
  pure candidate
