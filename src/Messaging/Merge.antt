-- ===== src/Messaging/Merge.antt =====
-- apps/client-desktop/src/state/messagingStore.ts: the identity of a message, its defaults, and the
-- merge of two copies of it. `now` is what `new Date().toISOString()` returns.
use y5fgb.Common.{
  Bool, ◌&&◌, ◌||◌, not, some, ◌++◌, Text, codes, eq_text, is_empty, coalesce, or_default,
  if◌then◌else◌, is_some, ◌≡◌, arith, true, refl,
}
use y5fgb.Messaging.Model.{LocalMessage}
use y5fgb.Messaging.Lifecycle.{lifecycle_from_delivery_state}

unfoldable pub ensure_message_defaults : Text → LocalMessage → LocalMessage
ensure_message_defaults now item = record item {
  lifecycle = some (or_default item.lifecycle (lifecycle_from_delivery_state item));
  last_updated_at = some (or_default item.last_updated_at now);
}

unfoldable pub get_message_identity_key : LocalMessage → Text
get_message_identity_key item =
    let sender_device_id = item.envelope.sender_device_id in
    let client_message_id = item.envelope.client_message_id in
    if not (is_empty sender_device_id) && not (is_empty client_message_id)
    then codes "client:" ++ (sender_device_id ++ (codes ":" ++ client_message_id))
    else codes "id:" ++ item.envelope.id

unfoldable pub is_same_client_reference : LocalMessage → Text → Text → Bool
is_same_client_reference item sender_device_id client_message_id =
    eq_text item.envelope.sender_device_id sender_device_id
    && eq_text item.envelope.client_message_id client_message_id

-- The test of `findMessageIndex`.
unfoldable pub is_same_message : LocalMessage → LocalMessage → Bool
is_same_message target item =
    eq_text (get_message_identity_key item) (get_message_identity_key target)
    || eq_text item.envelope.id target.envelope.id

unfoldable pub merge_message : Text → LocalMessage → LocalMessage → LocalMessage
merge_message now existing incoming = record {
  base = incoming.base;
  plaintext = coalesce incoming.plaintext existing.plaintext;
  decrypt_error = coalesce incoming.decrypt_error existing.decrypt_error;
  is_expired = coalesce incoming.is_expired existing.is_expired;
  lifecycle = coalesce incoming.lifecycle existing.lifecycle;
  retryable_failure = coalesce incoming.retryable_failure existing.retryable_failure;
  failure_code = coalesce incoming.failure_code existing.failure_code;
  last_updated_at = some (or_default incoming.last_updated_at now);
}

-- A message that the store has completed: it has a lifecycle and a time.
abbrev pub IsComplete : LocalMessage → Type 0
IsComplete m = (is_some m.lifecycle ≡ true) × (is_some m.last_updated_at ≡ true)

pub ensure_message_defaults-IsComplete :
    (now : Text) (m : LocalMessage) → IsComplete (ensure_message_defaults now m)
unfolding ensure_message_defaults
ensure_message_defaults-IsComplete now m = (refl, refl)

-- A complete message has its defaults already.
pub ensure_message_defaults_of_IsComplete :
    (now : Text) (m : LocalMessage) → IsComplete m → ensure_message_defaults now m ≡ m
unfolding ensure_message_defaults
ensure_message_defaults_of_IsComplete now m h = ground arith

pub merge_message-IsComplete :
    (now : Text) (existing incoming : LocalMessage)
    → IsComplete incoming
    → IsComplete (merge_message now existing incoming)
unfolding merge_message
merge_message-IsComplete now existing incoming h = ground arith
