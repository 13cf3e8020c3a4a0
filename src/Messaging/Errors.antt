-- ===== src/Messaging/Errors.antt =====
-- apps/client-desktop/src/services/messaging/errorModel.ts, and what it takes from
-- services/apiClient.ts: the code, the message and the class of what was thrown. `translate` is
-- `i18n.t`.
use y5fgb.Common.{
  lookup, Json, Option, ◌++◌, coalesce, eq_text, or_default, is_empty, string_of, leb, none,
  has_text, get_field, not, [], codes, Text, List, some, ◌∷◌, if◌then◌else◌, ℕ, ◌&&◌, Dict, trim,
}
use Prim.Native.String.{String}

-- What a promise is rejected with: an `ApiClientError`, another `Error`, or any other value.
pub data Thrown : Type 0 where
  api_error : (status : ℕ) (payload : Json) → Thrown
  plain_error : (message : Text) → Thrown
  other_value : Json → Thrown

pub data FailureClass : Type 0 where
  retryable non_retryable : FailureClass

pub record ClassifiedError : Type 0 where
  pub code : Text
  pub message : Text
  pub class : FailureClass

abbrev pub non_retryable_codes : List Text
non_retryable_codes =
    codes "conversation_not_found"
    ∷ codes "membership_denied"
    ∷ codes "validation_error"
    ∷ codes "message_encrypt_failed"
    ∷ codes "message_decrypt_failed"
    ∷ codes "message_expired"
    ∷ codes "forbidden"
    ∷ codes "unauthorized"
    ∷ []

abbrev pub retryable_codes : List Text
retryable_codes =
    codes "retryable_transport_error"
    ∷ codes "transport_unavailable"
    ∷ codes "endpoint_unreachable"
    ∷ codes "sync_conflict"
    ∷ codes "attachment_upload_failed"
    ∷ codes "attachment_download_failed"
    ∷ codes "internal_error"
    ∷ codes "local_storage_unavailable"
    ∷ []

abbrev friendly_error_messages : Dict Text
friendly_error_messages =
    (
      codes "transport_unavailable",
      codes "Transport is temporarily unavailable. Retrying can help.",
    )
    ∷ (
      codes "endpoint_unreachable",
      codes "Current endpoint is unreachable. Client will rotate to fallback endpoints.",
    )
    ∷ (
      codes "retryable_transport_error",
      codes "Temporary transport error. Message stayed in queue for retry.",
    )
    ∷ (
      codes "local_storage_unavailable",
      codes "Secure local storage is unavailable. Messaging is paused until storage is restored.",
    )
    ∷ (codes "message_decrypt_failed", codes "Message could not be decrypted on this device.")
    ∷ (codes "membership_denied", codes "You do not have access to this conversation.")
    ∷ (codes "conversation_not_found", codes "Conversation was not found.")
    ∷ (codes "attachment_upload_failed", codes "Attachment upload failed. You can retry.")
    ∷ (codes "attachment_download_failed", codes "Attachment download failed. You can retry.")
    ∷ (codes "message_expired", codes "Message expired according to disappearing message policy.")
    ∷ (codes "plugin_manifest_invalid", codes "Plugin manifest is invalid.")
    ∷ (codes "plugin_permission_denied", codes "Plugin permission denied by policy.")
    ∷ (codes "plugin_runtime_init_failed", codes "Plugin runtime failed to initialize.")
    ∷ (codes "plugin_bridge_violation", codes "Plugin bridge request violated security policy.")
    ∷ (codes "plugin_load_failed", codes "Plugin could not be loaded.")
    ∷ (codes "plugin_disabled", codes "Plugin is currently disabled.")
    ∷ (codes "plugin_storage_unavailable", codes "Plugin local storage is unavailable.")
    ∷ []

abbrev retry_hint_codes : List Text
retry_hint_codes =
    codes "transport_unavailable"
    ∷ codes "endpoint_unreachable"
    ∷ codes "retryable_transport_error"
    ∷ codes "attachment_upload_failed"
    ∷ codes "attachment_download_failed"
    ∷ []

abbrev reconnect_hint_codes : List Text
reconnect_hint_codes = codes "local_storage_unavailable" ∷ []

-- `payload?.error?.[name]`, a text where it is present.
unfoldable pub error_field : String → Json → Option Text
error_field name payload = elim (get_field (codes "error") payload) [
  | none ↦ none
  | some e ↦ string_of (get_field (codes name) e)
]

unfoldable pub extract_api_error_code : Thrown → Text
unfolding error_field
extract_api_error_code (api_error status payload) =
    or_default (error_field "code" payload) (codes "unknown")
extract_api_error_code _ = codes "unknown"

unfoldable pub build_action_hint : (Text → Text) → Text → Text
build_action_hint translate code =
    if has_text code retry_hint_codes
    then translate (codes "errors.actionHintRetry")
    else if has_text code reconnect_hint_codes
    then translate (codes "errors.actionHintReconnect")
    else []

abbrev with_hint : Text → Text → Text
with_hint text hint = if is_empty hint then text else text ++ (codes " " ++ hint)

-- The text for a code, where there is one.
unfoldable pub known_message : (Text → Text) → Text → Option Text
unfolding build_action_hint
known_message translate code =
    let key = codes "errors.codes." ++ code in
    let localized = translate key in
    let hint = build_action_hint translate code in
    if is_empty code
    then none
    else if not (is_empty localized) && not (eq_text localized key)
    then some (with_hint localized hint)
    else elim (lookup code friendly_error_messages) [
      | none ↦ none
      | some text ↦ some (with_hint text hint)
    ]

-- `typeof value === "string" && value.trim()`
abbrev shown_text : Option Text → Option Text
shown_text none = none
shown_text (some t) = if is_empty (trim t) then none else some t

unfoldable pub extract_api_error_message : (Text → Text) → Thrown → Text
unfolding known_message error_field
extract_api_error_message translate (api_error status payload) =
    let code = or_default (error_field "code" payload) [] in
    elim (known_message translate code) [
      | none ↦ or_default (error_field "message" payload) (translate (codes "errors.generic"))
      | some text ↦ text
    ]
extract_api_error_message translate (plain_error message) =
    if is_empty message then translate (codes "errors.generic") else message
extract_api_error_message translate (other_value value) =
    or_default
      (coalesce (shown_text (string_of (some value))) (
        coalesce (shown_text (string_of (get_field (codes "message") value)))
          (shown_text (error_field "message" value))))
      (translate (codes "errors.generic"))

unfoldable pub classify_messaging_error : (Text → Text) → Thrown → ClassifiedError
unfolding extract_api_error_message extract_api_error_code
classify_messaging_error translate error =
    let message = extract_api_error_message translate error in
    let code = extract_api_error_code error in
    if has_text code retryable_codes
    then record { code = code; message = message; class = retryable }
    else if has_text code non_retryable_codes
    then record { code = code; message = message; class = non_retryable }
    else elim error [
      | api_error status payload ↦ record {
        code = code;
        message = message;
        class = if leb 500 status then retryable else non_retryable;
      }
      | plain_error _ ↦ record { code = codes "unknown"; message = message; class = retryable }
      | other_value _ ↦ record { code = codes "unknown"; message = message; class = retryable }
    ]
