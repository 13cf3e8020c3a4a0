-- ===== src/Logger/Tests.antt =====
-- An instance of the theorem on the logger.
use y5fgb.Common.{field, end, codes, refl, ◌≤◌, Json, some, Text, ◌≡◌}
use y5fgb.Logger.{log_entry, LogEntry, LogLevel, priority, sanitize_context}
use y5fgb.Logger.Redaction.{IsRedacted, log_entry-IsRedacted}

abbrev context : Json
context = Json.object (
    field (codes "id") (Json.string (codes "7"))
      (field (codes "runtimeToken") (Json.string (codes "secret-value")) end))

abbrev same_case : Text → Text
same_case t = t

abbrev entry : LogEntry
entry = record {
  ts = codes "2024-01-01";
  level = LogLevel.warn;
  message = codes "failed";
  context = sanitize_context same_case context;
}

entry_written :
    log_entry same_case LogLevel.info
      (codes "2024-01-01")
      LogLevel.warn
      (codes "failed")
      (some context)
    ≡ some entry
unfolding log_entry
entry_written = refl

log_entry-IsRedacted_example :
    IsRedacted same_case entry.context × (priority LogLevel.info ≤ priority entry.level)
log_entry-IsRedacted_example =
    log_entry-IsRedacted same_case LogLevel.info LogLevel.warn (codes "2024-01-01") (codes "failed")
      (some context) entry entry_written
