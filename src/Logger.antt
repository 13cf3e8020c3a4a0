-- ===== src/Logger.antt =====
-- apps/client-desktop/src/services/logger.ts: which entries are written, and what of their context.
-- `lower` is `String.prototype.toLowerCase`.
pub mod Redaction
mod Tests
use y5fgb.Common.{
  nil, cons, field, end, Text, ℕ, ltb, Fields, List, some, codes, Elements, includes, none, ◌∷◌, [],
  Option, Json, any, if◌then◌else◌, or_default, Bool,
}

pub data LogLevel : Type 0 where
  debug info warn error : LogLevel

abbrev pub priority : LogLevel → ℕ
priority LogLevel.debug = 10
priority LogLevel.info = 20
priority LogLevel.warn = 30
priority LogLevel.error = 40

abbrev pub redacted : Text
redacted = codes "[redacted]"

abbrev sensitive_keys : List Text
sensitive_keys =
    codes "password"
    ∷ codes "secret"
    ∷ codes "token"
    ∷ codes "private"
    ∷ codes "key"
    ∷ codes "ciphertext"
    ∷ codes "plaintext"
    ∷ []

unfoldable pub is_sensitive_key : (Text → Text) → Text → Bool
is_sensitive_key lower key =
    let normalized = lower key in any (λ sensitive. includes sensitive normalized) sensitive_keys

-- `sanitizeContext` on a value, the items of an array and the properties of an object.
unfoldable mutual
  unfolding is_sensitive_key

  pub sanitize_context : (Text → Text) → Json → Json
  sanitize_context lower (Json.array items) = Json.array (sanitize_items lower items)
  sanitize_context lower (Json.object fields) = Json.object (sanitize_fields lower fields)
  sanitize_context lower value = value

  pub sanitize_items : (Text → Text) → Elements → Elements
  sanitize_items lower nil = nil
  sanitize_items lower (cons item items) =
      cons (sanitize_context lower item) (sanitize_items lower items)

  pub sanitize_fields : (Text → Text) → Fields → Fields
  sanitize_fields lower end = end
  sanitize_fields lower (field key item fields) =
      let value = sanitize_context lower item in
      field key (if is_sensitive_key lower key then Json.string redacted else value)
        (sanitize_fields lower fields)

pub record LogEntry : Type 0 where
  pub ts : Text
  pub level : LogLevel
  pub message : Text
  pub context : Json

-- `log`: the entry that goes to the console, if any.
unfoldable pub log_entry :
    (Text → Text) → LogLevel → Text → LogLevel → Text → Option Json → Option LogEntry
unfolding sanitize_context
log_entry lower min_level now level message context =
    if ltb (priority level) (priority min_level)
    then none
    else some (record {
      ts = now;
      level = level;
      message = message;
      context = sanitize_context lower (or_default context (Json.object end));
    })
