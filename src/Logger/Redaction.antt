-- ===== src/Logger/Redaction.antt =====
-- What the context of a log entry can hold.
use y5fgb.Common.{
  ◌≤◌, Option, Json, arith, Bool-cases, ◌≡◌, inl, refl, Elements, inr, true, some, Text, Fields,
  cons, field, nil, end, subst, if_cases, some-injective, or_default, ltb,
}
use y5fgb.Logger.{
  log_entry, sanitize_context, LogLevel, sanitize_items, sanitize_fields, LogEntry,
  is_sensitive_key, redacted, priority,
}

-- Under a sensitive key, at any depth, stands nothing but the mark of a redaction.
mutual
  pub IsRedacted : (Text → Text) → Json → Type 0
  IsRedacted lower (Json.array items) = AreRedacted lower items
  IsRedacted lower (Json.object fields) = HasRedacted lower fields
  IsRedacted lower value = Unit

  pub AreRedacted : (Text → Text) → Elements → Type 0
  AreRedacted lower nil = Unit
  AreRedacted lower (cons item items) = IsRedacted lower item × AreRedacted lower items

  pub HasRedacted : (Text → Text) → Fields → Type 0
  HasRedacted lower end = Unit
  HasRedacted lower (field key item fields) =
      (is_sensitive_key lower key ≡ true → item ≡ Json.string redacted)
      × IsRedacted lower item
      × HasRedacted lower fields

mutual
  unfolding sanitize_context sanitize_items sanitize_fields IsRedacted AreRedacted HasRedacted

  sanitized_value : (lower : Text → Text) (v : Json) → IsRedacted lower (sanitize_context lower v)
  sanitized_value lower (Json.array items) = sanitized_items lower items
  sanitized_value lower (Json.object fields) = sanitized_fields lower fields
  sanitized_value lower _ = tt

  sanitized_items :
      (lower : Text → Text) (vs : Elements) → AreRedacted lower (sanitize_items lower vs)
  sanitized_items lower nil = tt
  sanitized_items lower (cons item items) =
      (sanitized_value lower item, sanitized_items lower items)

  sanitized_fields :
      (lower : Text → Text) (fs : Fields) → HasRedacted lower (sanitize_fields lower fs)
  sanitized_fields lower end = tt
  sanitized_fields lower (field key item fields) = elim (Bool-cases (is_sensitive_key lower key)) [
    | inl hidden ↦ rw hidden ((λ _. refl), tt, sanitized_fields lower fields)
    | inr shown ↦
        rw shown
          ((λ e. absurd (ground arith)), sanitized_value lower item, sanitized_fields lower fields)
  ]

-- Whatever a caller logs, in the entry that is written every property whose key is sensitive, at any
-- depth, is redacted, and the level is at least the logger's.
pub log_entry-IsRedacted :
    (lower : Text → Text) (min_level level : LogLevel) (now message : Text) (context : Option Json)
    (entry : LogEntry)
    → log_entry lower min_level now level message context ≡ some entry
    → IsRedacted lower entry.context × (priority min_level ≤ priority entry.level)
unfolding log_entry
log_entry-IsRedacted lower min_level level now message context entry e =
    let P : Option LogEntry → Type 0 = λ o.
      o ≡ some entry
      → IsRedacted lower entry.context × (priority min_level ≤ priority entry.level) in
    if_cases P (ltb (priority level) (priority min_level)) (λ _ e. absurd (ground arith))
      (λ ok e.
        subst
          (λ (x : LogEntry). IsRedacted lower x.context × (priority min_level ≤ priority x.level))
          (some-injective _ entry e)
          (sanitized_value lower (or_default context (Json.object end)), ground arith))
      e
