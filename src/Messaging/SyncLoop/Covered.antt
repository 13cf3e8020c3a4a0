-- ===== src/Messaging/SyncLoop/Covered.antt =====
-- The loop leaves no request behind.
use y5fgb.Common.{List, ℕ, ◌≡◌, [], none, or_default, Option, max, false, ◌∷◌}
use y5fgb.Messaging.SyncLoop.{SyncLoop, normalized_hint, LoopEvent}

-- The highest hint among some.
unfoldable pub highest : List (Option ℕ) → ℕ
highest [] = 0
highest (h ∷ hs) = max (or_default h 0) (highest hs)

-- The highest hint that was asked for.
unfoldable pub highest_request : List LoopEvent → ℕ
unfolding normalized_hint
highest_request [] = 0
highest_request (LoopEvent.requested n ∷ es) =
    max (or_default (normalized_hint n) 0) (highest_request es)
highest_request (_ ∷ es) = highest_request es

abbrev pub IsAnswered : LoopEvent → Type 0
IsAnswered LoopEvent.poll_failed = ⊥
IsAnswered _ = Unit

-- What was polled or is queued to be.
abbrev reach : SyncLoop → ℕ
reach s = max (or_default s.queued_hint 0) (highest s.polled)

-- A loop that rests has nothing queued.
abbrev IsRested : SyncLoop → Type 0
IsRested s = s.is_running ≡ false → s.queued_hint ≡ none
