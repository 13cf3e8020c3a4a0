-- ===== src/Messaging/Crypto.antt =====
-- apps/client-desktop/src/services/messaging/cryptoProvider.ts over libsodium. A function that throws
-- answers `none`. Buffers are wiped at the end of each function, which the model does not show.
use y5fgb.Common.{
  ◌>>=◌, if◌then◌else◌, ◌∷◌, Option, length, some, ◌==◌, List, ℕ, Text, [], none, codes,
}
use y5fgb.Messaging.Model.{RecipientKey}

-- `libsodium-wrappers`: what of it the provider calls. `seed` is the randomness of one sealed box.
abbrev pub Bytes : Type 0
Bytes = List ℕ

pub record Sodium : Type 0 where
  pub from_base64 : Text → Option Bytes
  pub to_base64 : Bytes → Text
  pub from_string : Text → Bytes
  pub to_string : Bytes → Option Text
  pub aead_encrypt : (message nonce key : Bytes) → Bytes
  pub aead_decrypt : (ciphertext nonce key : Bytes) → Option Bytes
  pub box_seal : (seed message public_key : Bytes) → Option Bytes
  pub box_seal_open : (sealed public_key private_key : Bytes) → Option Bytes
  pub hash_sha256 : Option (Bytes → Bytes)
  pub generic_hash : (length : ℕ) → Bytes → Bytes
  pub to_hex : Bytes → Text

-- The draws of `randombytes_buf` and of the sealed boxes, one for each recipient.
pub record Randomness : Type 0 where
  pub symmetric_key : Bytes
  pub nonce : Bytes
  pub seed : Text → Bytes

-- `RecipientPublicMaterial`
pub record RecipientMaterial : Type 0 where
  pub recipient_device_id : Text
  pub public_key : Text

-- `IdentityKeyPair`
pub record KeyPair : Type 0 where
  pub public_key : Text
  pub private_key : Text

pub record EncryptedMessage : Type 0 where
  pub algorithm : Text
  pub crypto_version : ℕ
  pub nonce : Text
  pub ciphertext : Text
  pub recipients : List RecipientKey

pub record EncryptedAttachment : Type 0 where
  pub algorithm : Text
  pub nonce : Text
  pub ciphertext : Text
  pub symmetric_key : Text
  pub checksum_sha256 : Text

abbrev message_algorithm : Text
message_algorithm = codes "xchacha20poly1305_ietf+sealedbox"

abbrev key_wrap_algorithm : Text
key_wrap_algorithm = codes "x25519-sealedbox"

abbrev attachment_algorithm : Text
attachment_algorithm = codes "xchacha20poly1305_ietf"

abbrev pub expected_nonce_bytes : ℕ
expected_nonce_bytes = 24

unfoldable pub hash_bytes : Sodium → Bytes → Bytes
hash_bytes sodium value = elim sodium.hash_sha256 [
  | none ↦ sodium.generic_hash 32 value
  | some hash ↦ hash value
]

-- The key wrapped for one recipient.
unfoldable pub wrap_key : Sodium → Randomness → RecipientMaterial → Option RecipientKey
wrap_key sodium random recipient = do
  public_key ← sodium.from_base64 recipient.public_key
  wrapped ←
      sodium.box_seal (random.seed recipient.recipient_device_id) random.symmetric_key public_key
  some (record {
    recipient_device_id = recipient.recipient_device_id;
    wrapped_key = sodium.to_base64 wrapped;
    key_algorithm = key_wrap_algorithm;
  })

unfoldable pub wrap_keys : Sodium → Randomness → List RecipientMaterial → Option (List RecipientKey)
unfolding wrap_key
wrap_keys sodium random [] = some []
wrap_keys sodium random (recipient ∷ recipients) = do
  key ← wrap_key sodium random recipient
  keys ← wrap_keys sodium random recipients
  some (key ∷ keys)

unfoldable pub encrypt_message :
    Sodium → Randomness → Text → List RecipientMaterial → Option EncryptedMessage
unfolding wrap_keys
encrypt_message sodium random plaintext recipients = do
  wrapped ← wrap_keys sodium random recipients
  some (record {
    algorithm = message_algorithm;
    crypto_version = 1;
    nonce = sodium.to_base64 random.nonce;
    ciphertext =
        sodium.to_base64
          (sodium.aead_encrypt (sodium.from_string plaintext) random.nonce random.symmetric_key);
    recipients = wrapped;
  })

-- The test on the length of the nonce.
abbrev pub checked_nonce : Bytes → Option Bytes
checked_nonce nonce = if length nonce == expected_nonce_bytes then some nonce else none

unfoldable pub decrypt_message :
    Sodium → (ciphertext nonce wrapped_key : Text) → KeyPair → Option Text
decrypt_message sodium ciphertext nonce wrapped_key keys = do
  ciphertext' ← sodium.from_base64 ciphertext
  nonce' ← sodium.from_base64 nonce
  wrapped' ← sodium.from_base64 wrapped_key
  public_key ← sodium.from_base64 keys.public_key
  private_key ← sodium.from_base64 keys.private_key
  checked ← checked_nonce nonce'
  symmetric_key ← sodium.box_seal_open wrapped' public_key private_key
  plaintext ← sodium.aead_decrypt ciphertext' checked symmetric_key
  sodium.to_string plaintext

unfoldable pub encrypt_attachment : Sodium → Randomness → Bytes → EncryptedAttachment
unfolding hash_bytes
encrypt_attachment sodium random plaintext =
    let ciphertext = sodium.aead_encrypt plaintext random.nonce random.symmetric_key in
    record {
      algorithm = attachment_algorithm;
      nonce = sodium.to_base64 random.nonce;
      ciphertext = sodium.to_base64 ciphertext;
      symmetric_key = sodium.to_base64 random.symmetric_key;
      checksum_sha256 = sodium.to_hex (hash_bytes sodium ciphertext);
    }

unfoldable pub decrypt_attachment : Sodium → (ciphertext nonce symmetric_key : Text) → Option Bytes
decrypt_attachment sodium ciphertext nonce symmetric_key = do
  ciphertext' ← sodium.from_base64 ciphertext
  nonce' ← sodium.from_base64 nonce
  key ← sodium.from_base64 symmetric_key
  checked ← checked_nonce nonce'
  sodium.aead_decrypt ciphertext' checked key

-- `encryptWithSymmetricKey`: the nonce and the ciphertext.
unfoldable pub encrypt_with_symmetric_key : Sodium → Bytes → Text → Text → Option (Text × Text)
encrypt_with_symmetric_key sodium nonce plaintext key_base64 = do
  key ← sodium.from_base64 key_base64
  some (
    sodium.to_base64 nonce,
    sodium.to_base64 (sodium.aead_encrypt (sodium.from_string plaintext) nonce key),
  )

unfoldable pub decrypt_with_symmetric_key : Sodium → (ciphertext nonce key : Text) → Option Text
decrypt_with_symmetric_key sodium ciphertext nonce key_base64 = do
  key ← sodium.from_base64 key_base64
  nonce' ← sodium.from_base64 nonce
  ciphertext' ← sodium.from_base64 ciphertext
  checked ← checked_nonce nonce'
  plaintext ← sodium.aead_decrypt ciphertext' checked key
  sodium.to_string plaintext
