-- ===== src/Messaging/Hydrate/Decryption.antt =====
-- A message that was encrypted for a device can be read there.
use y5fgb.Common.{
  some, ◌++◌, Bool, find, none, ◌≡◌, Option, refl, Text, eq_text, [], All, List, ◌∷◌, sym,
  some-injective, Bool-cases, bind-some, inl, inr, ap, none-ne-some, if◌then◌else◌, true, ◌∙◌,
  subst, length, false, Option-cases, All-weaken,
}
use y5fgb.Messaging.Model.{RecipientKey}
use y5fgb.Messaging.Hydrate.{
  first_opened, Message, hydrate_message, decrypted, Receiver, Plaintext, keys, is_past,
}
use y5fgb.Messaging.Crypto.{
  EncryptedMessage, Sodium, Bytes, Randomness, KeyPair, wrap_keys, RecipientMaterial, wrap_key,
  decrypt_message, expected_nonce_bytes, checked_nonce, encrypt_message,
}
use y5fgb.Messaging.Hydrate.Recipients.{for_device}

-- What libsodium documents: base64 is undone, and what was encrypted under a key opens under it.
abbrev pub IsDecodable : Sodium → Type 0
IsDecodable sodium = (b : Bytes) → sodium.from_base64 (sodium.to_base64 b) ≡ some b

abbrev pub IsAuthentic : Sodium → Type 0
IsAuthentic sodium =
    (m nonce key : Bytes) → sodium.aead_decrypt (sodium.aead_encrypt m nonce key) nonce key ≡ some m

-- A pair of keys that opens what is sealed for a public key.
abbrev pub IsOpener : Sodium → Text → KeyPair → Type 0
IsOpener sodium public_key pair =
    (pk : Bytes) × ((sk : Bytes) × ((sodium.from_base64 public_key ≡ some pk)
        × (sodium.from_base64 pair.public_key ≡ some pk)
        × (sodium.from_base64 pair.private_key ≡ some sk)
        × ((seed m sealed : Bytes)
            → sodium.box_seal seed m pk ≡ some sealed
            → sodium.box_seal_open sealed pk sk ≡ some m)))

-- A pair of keys that opens nothing that is sealed for a public key.
abbrev pub IsForeign : Sodium → Text → KeyPair → Type 0
IsForeign sodium public_key pair =
    (seed m sealed pk pk' sk' : Bytes)
    → sodium.from_base64 public_key ≡ some pk
    → sodium.from_base64 pair.public_key ≡ some pk'
    → sodium.from_base64 pair.private_key ≡ some sk'
    → sodium.box_seal seed m pk ≡ some sealed
    → sodium.box_seal_open sealed pk' sk' ≡ none

-- A message with the encrypted parts that a sender made.
abbrev pub carrying : EncryptedMessage → Message → Message
carrying encrypted m = record m {
  envelope = record m.envelope {
    algorithm = encrypted.algorithm;
    crypto_version = encrypted.crypto_version;
    nonce = encrypted.nonce;
    ciphertext = encrypted.ciphertext;
    recipients = encrypted.recipients;
  };
}

abbrev entry_of : Text → RecipientKey → Bool
entry_of id r = eq_text r.recipient_device_id id

first_opened-append :
    (f : KeyPair → Option Text) (earlier later : List KeyPair) (pair : KeyPair) (text : Text)
    → All (λ p. f p ≡ none) earlier
    → f pair ≡ some text
    → first_opened f (earlier ++ pair ∷ later) ≡ some text
unfolding first_opened
first_opened-append f [] later pair text a e = rw e refl
first_opened-append f (p ∷ ps) later pair text (a, as') e =
    rw (first_opened, a) (first_opened-append f ps later pair text as' e)

module _ (sodium : Sodium) (random : Randomness) where
  -- The entry that a recipient gets.
  abbrev IsWrapped : RecipientMaterial → RecipientKey → Type 0
  IsWrapped r k =
      (pk : Bytes) × ((sealed : Bytes) × ((sodium.from_base64 r.public_key ≡ some pk)
          × (sodium.box_seal (random.seed r.recipient_device_id) random.symmetric_key pk
              ≡ some sealed)
          × (k.recipient_device_id ≡ r.recipient_device_id)
          × (k.wrapped_key ≡ sodium.to_base64 sealed)))

  wrap_key-IsWrapped :
      (r : RecipientMaterial) (k : RecipientKey) → wrap_key sodium random r ≡ some k → IsWrapped r k
  unfolding wrap_key
  wrap_key-IsWrapped r k e =
      let (pk, (decoded, e')) = bind-some (sodium.from_base64 r.public_key) _ k e in
      let (sealed, (wrapped, made)) =
        bind-some (sodium.box_seal (random.seed r.recipient_device_id) random.symmetric_key pk) _ k
          e' in
      let k-eq = sym (some-injective _ k made) in
      (
        pk,
        (
          sealed,
          (
            decoded,
            wrapped,
            ap (λ (k : RecipientKey). k.recipient_device_id) k-eq,
            ap (λ (k : RecipientKey). k.wrapped_key) k-eq,
          ),
        ),
      )

  find-wrap_keys :
      (id : Text) (rs : List RecipientMaterial) (ks : List RecipientKey) (r : RecipientMaterial)
      → wrap_keys sodium random rs ≡ some ks
      → find (for_device id) rs ≡ some r
      → (k : RecipientKey) × ((find (entry_of id) ks ≡ some k) × IsWrapped r k)
  unfolding wrap_keys find
  find-wrap_keys id [] ks r e f = absurd (none-ne-some r f)
  find-wrap_keys id (x ∷ xs) ks r e f =
      let (k, (first, e')) = bind-some (wrap_key sodium random x) _ ks e in
      let (rest, (others, made)) = bind-some (wrap_keys sodium random xs) _ ks e' in
      let wrapped = wrap_key-IsWrapped x k first in
      let same_id = wrapped.1.1.2 in
      let ks-eq : k ∷ rest ≡ ks = some-injective _ ks made in
      let found : (b : Bool)
          → eq_text x.recipient_device_id id ≡ b
          → find (entry_of id) ks ≡ (if b then some k else find (entry_of id) rest) =
        λ b e.
          subst (λ l. find (entry_of id) l ≡ (if b then some k else find (entry_of id) rest)) ks-eq
            (rw (same_id, e) refl) in
      elim (Bool-cases (eq_text x.recipient_device_id id)) [
        | inl own ↦
            let x-eq : x ≡ r = some-injective x r (sym (rw own refl) ∙ f) in
            (k, (found true own, subst (λ r. IsWrapped r k) x-eq wrapped))
        | inr other ↦
            let (k', (there, wrapped')) =
              find-wrap_keys id xs rest r others (sym (rw other refl) ∙ f) in
            (k', (found false other ∙ there, wrapped'))
      ]

  -- A key pair of the recipient reads the message.
  decrypt_message-own :
      (text : Text) (k : RecipientKey) (r : RecipientMaterial) (pair : KeyPair)
      → IsDecodable sodium
      → IsAuthentic sodium
      → sodium.to_string (sodium.from_string text) ≡ some text
      → length random.nonce ≡ expected_nonce_bytes
      → IsWrapped r k
      → IsOpener sodium r.public_key pair
      → decrypt_message sodium
          (sodium.to_base64
            (sodium.aead_encrypt (sodium.from_string text) random.nonce random.symmetric_key))
          (sodium.to_base64 random.nonce)
          k.wrapped_key
          pair
        ≡ some text
  unfolding decrypt_message
  decrypt_message-own text k r pair decodes opens spelled long
        (pk, (sealed, (decoded, wrapped, _, key)))
        (pk', (sk, (decoded', public, private, unseals))) =
      let pk-eq : pk ≡ pk' = some-injective pk pk' (sym decoded ∙ decoded') in
      let opened : sodium.box_seal_open sealed pk' sk ≡ some random.symmetric_key =
        unseals (random.seed r.recipient_device_id) random.symmetric_key sealed (
          subst
            (λ p.
              sodium.box_seal (random.seed r.recipient_device_id) random.symmetric_key p
              ≡ some sealed)
            pk-eq wrapped) in
      let ciphertext =
        sodium.aead_encrypt (sodium.from_string text) random.nonce random.symmetric_key in
      rw (decrypt_message, decodes ciphertext, decodes random.nonce, key, decodes sealed)
        (rw (public, private, long)
          (rw (opened, opens (sodium.from_string text) random.nonce random.symmetric_key, spelled)
            refl))

  -- A foreign one does not.
  decrypt_message-foreign :
      (ciphertext : Text) (k : RecipientKey) (r : RecipientMaterial) (pair : KeyPair)
      → IsDecodable sodium
      → IsWrapped r k
      → IsForeign sodium r.public_key pair
      → decrypt_message sodium ciphertext (sodium.to_base64 random.nonce) k.wrapped_key pair ≡ none
  unfolding decrypt_message
  decrypt_message-foreign ciphertext k r pair decodes (pk, (sealed, (decoded, wrapped, _, key)))
        foreign =
      elim (Option-cases
        (decrypt_message sodium ciphertext (sodium.to_base64 random.nonce) k.wrapped_key pair)) [
          | inl e ↦ e
          | inr (text, e) ↦
              let (c, (_, e1)) = bind-some (sodium.from_base64 ciphertext) _ text e in
              let (n, (_, e2)) =
                bind-some (sodium.from_base64 (sodium.to_base64 random.nonce)) _ text e1 in
              let (w, (unwrapped, e3)) = bind-some (sodium.from_base64 k.wrapped_key) _ text e2 in
              let (pk', (public, e4)) = bind-some (sodium.from_base64 pair.public_key) _ text e3 in
              let (sk', (private, e5)) =
                bind-some (sodium.from_base64 pair.private_key) _ text e4 in
              let (checked, (_, e6)) = bind-some (checked_nonce n) _ text e5 in
              let (opened, (opens, _)) = bind-some (sodium.box_seal_open w pk' sk') _ text e6 in
              let w-eq : sealed ≡ w =
                some-injective sealed w
                  (sym (decodes sealed) ∙ ap sodium.from_base64 (sym key) ∙ unwrapped) in
              let shut =
                foreign (random.seed r.recipient_device_id) random.symmetric_key sealed pk pk' sk'
                  decoded public private wrapped in
              absurd (
                none-ne-some opened
                  (sym shut ∙ ap (λ w. sodium.box_seal_open w pk' sk') w-eq ∙ opens))
        ]

-- A message that was encrypted for the recipients of a conversation is read by every device among them,
-- provided that the device holds the private key of the public key that it is listed with, that any
-- keys which it tries before are foreign, that the message is not expired, that its text parses, and
-- that libsodium keeps its promises.
pub hydrate_message-encrypted :
    (receiver : Receiver) (random : Randomness) (recipients : List RecipientMaterial)
    (r : RecipientMaterial) (encrypted : EncryptedMessage) (m : Message) (text device : Text)
    (plaintext : Plaintext) (earlier later : List KeyPair) (pair : KeyPair)
    → IsDecodable receiver.sodium
    → IsAuthentic receiver.sodium
    → receiver.sodium.to_string (receiver.sodium.from_string text) ≡ some text
    → length random.nonce ≡ expected_nonce_bytes
    → encrypt_message receiver.sodium random text recipients ≡ some encrypted
    → find (for_device device) recipients ≡ some r
    → receiver.session_device ≡ some device
    → receiver.key_ring ≡ keys (earlier ++ pair ∷ later)
    → All (IsForeign receiver.sodium r.public_key) earlier
    → IsOpener receiver.sodium r.public_key pair
    → receiver.parse text ≡ some plaintext
    → is_past receiver m.envelope.expires_at ≡ false
    → let read = hydrate_message receiver (carrying encrypted m) in
      (read.plaintext ≡ some plaintext)
      × (read.decrypt_error ≡ none)
      × (read.is_expired ≡ some false)
unfolding hydrate_message decrypted encrypt_message
hydrate_message-encrypted receiver random recipients r encrypted m text device plaintext earlier
      later pair decodes opens spelled long sent listed session ring foreign own parsed fresh =
    let sodium = receiver.sodium in
    let (ks, (wrapped, made)) = bind-some (wrap_keys sodium random recipients) _ encrypted sent in
    let (k, (entry, is_wrapped)) =
      find-wrap_keys sodium random device recipients ks r wrapped listed in
    let ciphertext =
      sodium.to_base64
        (sodium.aead_encrypt (sodium.from_string text) random.nonce random.symmetric_key) in
    let opened =
      first_opened-append
        (decrypt_message sodium ciphertext (sodium.to_base64 random.nonce) k.wrapped_key) earlier
        later pair text
        (All-weaken (IsForeign sodium r.public_key) _
          (λ p. decrypt_message-foreign sodium random ciphertext k r p decodes is_wrapped) earlier
          foreign)
        (decrypt_message-own sodium random text k r pair decodes opens spelled long is_wrapped
          own) in
    subst
      (λ e.
        let read = hydrate_message receiver (carrying e m) in
        (read.plaintext ≡ some plaintext)
        × (read.decrypt_error ≡ none)
        × (read.is_expired ≡ some false))
      (some-injective _ encrypted made)
      (rw (hydrate_message, fresh, session)
        (rw (entry, decrypted, ring) (rw (opened, parsed) (refl, refl, ap some fresh))))
