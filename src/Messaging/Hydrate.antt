-- ===== src/Messaging/Hydrate.antt =====
-- `hydrateMessage` and `resolveRecipients` of apps/client-desktop/src/services/messaging/runtime.ts: who
-- a message is encrypted for, and what a device makes of a message that it receives.
pub mod Recipients
pub mod Decryption
use y5fgb.Messaging.Model.{
  Lifecycle, DeviceStatus, Device, LocalMessage, Conversation, Member, Plaintext, Message,
}
use y5fgb.Common.{
  some, eq_text, if◌then◌else◌, has_text, is_empty, codes, Bool, false, List, true, ◌&&◌, [], none,
  Text, ℕ, ◌∷◌, ◌++◌, leb, find, not, ◌||◌, Option,
}
use y5fgb.Messaging.Lifecycle.{message_lifecycle_from_delivery_state}
use y5fgb.Messaging.Crypto.{KeyPair, decrypt_message, Sodium, RecipientMaterial}

-- What `hydrateMessage` takes from outside: libsodium, the clock in milliseconds and as text, the
-- reading of a date (`none` where it is not one), the id of the session's device, what
-- `loadAllDeviceKeyMaterials` returns or the text that the `catch` makes of what it throws, and
-- `JSON.parse` of a plaintext with the message of its error.
pub data KeyRing : Type 0 where
  keys : List KeyPair → KeyRing
  refused : (message : Text) → KeyRing

pub record Receiver : Type 0 where
  pub sodium : Sodium
  pub clock : ℕ
  pub now : Text
  pub time_of : Text → Option ℕ
  pub session_device : Option Text
  pub key_ring : KeyRing
  pub parse : Text → Option Plaintext
  pub parse_error : Text → Text

-- `expired`: an empty date is none, and a date that cannot be read never comes.
unfoldable pub is_past : Receiver → Option Text → Bool
is_past receiver none = false
is_past receiver (some date) =
    not (is_empty date)
    && elim (receiver.time_of date) [ none ↦ false | some time ↦ leb time receiver.clock ]

-- The loop over the key candidates: the first one that opens the message.
unfoldable pub first_opened : (KeyPair → Option Text) → List KeyPair → Option Text
first_opened open_with [] = none
first_opened open_with (pair ∷ pairs) =
    let rest = first_opened open_with pairs in
    elim (open_with pair) [ none ↦ rest | some plaintext ↦ some plaintext ]

-- The results with a decryption error.
unfoldable pub undecrypted : Text → LocalMessage → LocalMessage
undecrypted message m = record m {
  decrypt_error = some message;
  lifecycle = some Lifecycle.failed;
  failure_code = some (codes "message_decrypt_failed");
  retryable_failure = some false;
}

-- The part of `hydrateMessage` inside the `try`, for the recipient entry of the device.
unfoldable pub decrypted : Receiver → Message → Text → LocalMessage → LocalMessage
unfolding first_opened undecrypted decrypt_message
decrypted receiver message wrapped_key m =
    let e = message.envelope in
    elim receiver.key_ring [
      | refused reason ↦ undecrypted reason m
      | keys pairs ↦
          elim (first_opened (decrypt_message receiver.sodium e.ciphertext e.nonce wrapped_key)
            pairs) [
              | none ↦ undecrypted (codes "message_decrypt_failed") m
              | some text ↦ elim (receiver.parse text) [
                | none ↦ undecrypted (receiver.parse_error text) m
                | some plaintext ↦ record m { plaintext = some plaintext; decrypt_error = none }
              ]
            ]
    ]

unfoldable pub hydrate_message : Receiver → Message → LocalMessage
unfolding is_past decrypted undecrypted message_lifecycle_from_delivery_state
hydrate_message receiver message =
    let expired = is_past receiver message.envelope.expires_at in
    let local_message : LocalMessage = record {
      base = message;
      plaintext = none;
      decrypt_error = none;
      is_expired = some expired;
      lifecycle = some (message_lifecycle_from_delivery_state message.delivery_state expired);
      retryable_failure = none;
      failure_code = none;
      last_updated_at = some receiver.now;
    } in
    if expired then local_message else elim receiver.session_device [
      | none ↦ local_message
      | some device ↦
          elim (find (λ r. eq_text r.recipient_device_id device) message.envelope.recipients) [
            | none ↦
                undecrypted (codes "missing recipient material for current device") local_message
            | some recipient ↦ decrypted receiver message recipient.wrapped_key local_message
          ]
    ]

abbrev pub is_trusted : DeviceStatus → Bool
is_trusted DeviceStatus.trusted = true
is_trusted _ = false

-- The inner loop of `resolveRecipients`, over the devices of one member: `seen` and the rest.
unfoldable pub resolve_devices : List Text → List Device → List RecipientMaterial × List Text
resolve_devices seen [] = ([], seen)
resolve_devices seen (device ∷ devices) =
    let (kept, seen') = resolve_devices (device.id ∷ seen) devices in
    let skipped = resolve_devices seen devices in
    if not (is_trusted device.status) || has_text device.id seen then skipped else (
      (record { recipient_device_id = device.id; public_key = device.public_device_material })
          ∷ kept,
      seen',
    )

-- The outer loop.
unfoldable pub resolve_members : List Text → List Member → List RecipientMaterial
unfolding resolve_devices
resolve_members seen [] = []
resolve_members seen (m ∷ members) =
    let (recipients, seen') = resolve_devices seen m.trusted_devices in
    let active = recipients ++ resolve_members seen' members in
    let skipped = resolve_members seen members in if m.is_active then active else skipped

unfoldable pub resolve_recipients : Conversation → List RecipientMaterial
unfolding resolve_members
resolve_recipients conversation = resolve_members [] conversation.members
